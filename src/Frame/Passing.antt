-- ===== src/Frame/Passing.antt =====
-- hub/power_history.go: what a chain of checks has passed when it answers with no refusal.
use blox_os.Base.{◌≡◌, refl, Option, none, some, Bool, true, false}
use blox_os.Frame.Check.{◌then_check◌, refuse_if}

pub then_check-parts :
    {E : Type 0} (a b : Option E) → (a then_check b) ≡ none → (a ≡ none) × (b ≡ none)
then_check-parts none b h = (refl, h)
then_check-parts (some e) b h = cc

pub then_check-both : {E : Type 0} {a b : Option E} → a ≡ none → b ≡ none → (a then_check b) ≡ none
then_check-both h k = rw h k

pub then_check-map :
    {E : Type 0} {a a' b b' : Option E}
    → (a ≡ none → a' ≡ none)
    → (b ≡ none → b' ≡ none)
    → (a then_check b) ≡ none
    → (a' then_check b') ≡ none
then_check-map f g h =
    let (first, rest) = then_check-parts _ _ h in then_check-both (f first) (g rest)

-- A condition that refuses, followed by more checks.
pub refuse_if-parts :
    {E : Type 0} (b : Bool) (e : E) (rest : Option E)
    → (refuse_if b e then_check rest) ≡ none
    → (b ≡ false) × (rest ≡ none)
refuse_if-parts true e rest h = cc
refuse_if-parts false e rest h = (refl, h)

pub refuse_if-passes : {E : Type 0} (b : Bool) (e : E) → refuse_if b e ≡ none → b ≡ false
refuse_if-passes true e h = cc
refuse_if-passes false e h = refl

pub refuse_if-none : {E : Type 0} (b : Bool) (e : E) → b ≡ false → refuse_if b e ≡ none
refuse_if-none b e h = rw h refl

-- A refusal that is carried along under a name.
pub rename-none :
    {E F : Type 0} (o : Option E) (f : E → F)
    → ◌≡◌ {A = Option F} (elim o [ none ↦ none | some e ↦ some (f e) ]) none
    → o ≡ none
rename-none none f h = refl
rename-none (some e) f h = cc

pub rename_passed :
    {E F : Type 0} {o : Option E} (f : E → F)
    → o ≡ none
    → ◌≡◌ {A = Option F} (elim o [ none ↦ none | some e ↦ some (f e) ]) none
rename_passed f h = rw h refl
