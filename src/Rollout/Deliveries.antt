-- ===== src/Rollout/Deliveries.antt =====
-- hub/agent_rollout.go: the evidence of all machines and connections, over everything that the hub
-- received and forgot in any order; each record holds what its own connection delivered.
use mathlib.Core.Path.{ap₂}
use blox_os.Base.{
  ℕ, ◌-◌, ◌≤◌, ◌≡◌, refl, Bool, true, false, ◌&&◌, Option, none, some, List, [], ◌∷◌, ◌==◌,
  Bool-cases, and-parts, ==_iff, inl, inr, if◌then◌else◌,
}
use blox_os.Base.Text.{Text, text_eq, eq_of_text_eq, is_empty}
use blox_os.Rollout.Tables.{dwell_ms, telemetry_gap_ms}
use blox_os.Rollout.Evidence.{
  Proof, Evidence, get_proof, note_report, note_metrics, write_proof, observe_candidate_report,
  observe_telemetry, forget_evidence, forget_connection, judge_proof, dwell_satisfied, proven,
}
use blox_os.Rollout.Dwell.{Event, report, metrics, note_event, after, Covered, dwell_sound}

-- A call of the controller about a machine and a connection; the newest stands first in a list.
pub data Delivery : Type 0 where
  reporting : Text → Option ℕ → ℕ → Text → Text → Delivery
  measuring : ℕ → Text → Option ℕ → Delivery
  forgetting : Text → Option ℕ → Delivery

unfoldable pub deliver : Delivery → Evidence → Evidence
unfolding observe_candidate_report observe_telemetry forget_connection
deliver (reporting m conn g running candidate) all =
    observe_candidate_report m conn g running candidate all
deliver (measuring now m conn) all = observe_telemetry now m conn all
deliver (forgetting m conn) all = forget_connection m conn all

unfoldable pub gathered : List Delivery → Evidence
gathered [] = λ m conn. none
gathered (d ∷ ds) = deliver d (gathered ds)

abbrev is_from : Text → Option ℕ → Text → ℕ → Bool
is_from m none m' conn' = false
is_from m (some conn) m' conn' = text_eq m m' && conn == conn'

abbrev is_forgotten : Text → Option ℕ → Text → ℕ → Bool
is_forgotten m none m' conn' = text_eq m m'
is_forgotten m (some conn) m' conn' = text_eq m m' && conn == conn'

-- The events of one connection of one machine, since it was last forgotten.
unfoldable pub events_of : Text → ℕ → List Delivery → List Event
events_of m conn [] = []
events_of m conn (reporting m' conn' g running candidate ∷ ds) =
    let rest = events_of m conn ds in
    if is_empty candidate
    then rest
    else if is_from m' conn' m conn
    then report g running candidate ∷ rest
    else rest
events_of m conn (measuring now m' conn' ∷ ds) =
    let rest = events_of m conn ds in if is_from m' conn' m conn then metrics now ∷ rest else rest
events_of m conn (forgetting m' conn' ∷ ds) =
    let rest = events_of m conn ds in if is_forgotten m' conn' m conn then [] else rest

module _ (m : Text) (conn : ℕ) (m' : Text) (conn' : ℕ) (ev : Option Proof) (all : Evidence) where
  write_proof-here :
      (text_eq m' m && conn' == conn) ≡ true → write_proof m' conn' ev all m conn ≡ ev
  unfolding write_proof
  write_proof-here h = rw h

  write_proof-elsewhere :
      (text_eq m' m && conn' == conn) ≡ false → write_proof m' conn' ev all m conn ≡ all m conn
  unfolding write_proof
  write_proof-elsewhere h = rw h

same_record :
    (m : Text) (conn : ℕ) (m' : Text) (conn' : ℕ) (all : Evidence)
    → (text_eq m' m && conn' == conn) ≡ true
    → all m' conn' ≡ all m conn
same_record m conn m' conn' all h =
    let (e, k) = and-parts (text_eq m' m) (conn' == conn) h in
    ap₂ all (eq_of_text_eq m' m e) ((==_iff conn' conn).0 k)

module _ (m : Text) (conn : ℕ) (m' : Text) (conn' : ℕ) (all : Evidence) (rest : List Event) where
  wrote :
      (e : Event)
      → get_proof (all m conn) ≡ after rest
      → get_proof (write_proof m' conn' (some (note_event e (get_proof (all m' conn')))) all m conn)
        ≡ after (if text_eq m' m && conn' == conn then e ∷ rest else rest)
  unfolding after
  wrote e h = elim (Bool-cases (text_eq m' m && conn' == conn)) [
    | inl this ↦ rw (
      write_proof-here m conn m' conn' (some (note_event e (get_proof (all m' conn')))) all this,
      this,
      same_record m conn m' conn' all this,
      h,
    )
    | inr other ↦
        rw
          (
            write_proof-elsewhere m conn m' conn' (some (note_event e (get_proof (all m' conn'))))
                all other,
            other,
          )
          h
  ]

  cleared :
      get_proof (all m conn) ≡ after rest
      → get_proof (write_proof m' conn' none all m conn)
        ≡ after (if text_eq m' m && conn' == conn then [] else rest)
  unfolding after
  cleared h = elim (Bool-cases (text_eq m' m && conn' == conn)) [
    | inl this ↦ rw (write_proof-here m conn m' conn' none all this, this)
    | inr other ↦ rw (write_proof-elsewhere m conn m' conn' none all other, other) h
  ]

  forgot :
      get_proof (all m conn) ≡ after rest
      → get_proof (forget_evidence m' all m conn) ≡ after (if text_eq m' m then [] else rest)
  unfolding after forget_evidence
  forgot h = elim (Bool-cases (text_eq m' m)) [ inl this ↦ rw this | inr other ↦ rw other h ]

-- Whatever the hub received and forgot, in any order and on any connections, the record of a
-- connection of a machine is exactly what its own events make of an empty one: no other connection
-- and no other machine can change it.
pub gathered-after :
    (m : Text) (conn : ℕ) (ds : List Delivery)
    → get_proof (gathered ds m conn) ≡ after (events_of m conn ds)
unfolding gathered deliver events_of
gathered-after m conn [] = unfold after in refl
gathered-after m conn (reporting m' none g running candidate ∷ ds) =
    elim (Bool-cases (is_empty candidate)) [
      | inl nothing ↦ rw nothing (gathered-after m conn ds)
      | inr given ↦ rw given (gathered-after m conn ds)
    ]
gathered-after m conn (reporting m' (some conn') g running candidate ∷ ds) =
    elim (Bool-cases (is_empty candidate)) [
      | inl nothing ↦ rw nothing (gathered-after m conn ds)
      | inr given ↦ rw given (
          reported m' conn' g running candidate (gathered ds) (events_of m conn ds)
            (gathered-after m conn ds))
    ]
  where
    reported :
        (m' : Text) (conn' : ℕ) (g : ℕ) (running candidate : Text) (all : Evidence)
        (rest : List Event)
        → get_proof (all m conn) ≡ after rest
        → get_proof (
            write_proof m' conn'
              (some (note_report g running candidate (get_proof (all m' conn'))))
              all
              m
              conn)
          ≡ after
              (if text_eq m' m && conn' == conn then report g running candidate ∷ rest else rest)
    reported m' conn' g running candidate all rest =
        unfold note_event in wrote m conn m' conn' all rest (report g running candidate)
gathered-after m conn (measuring now m' none ∷ ds) = gathered-after m conn ds
gathered-after m conn (measuring now m' (some conn') ∷ ds) =
    measured m' conn' (gathered ds) (events_of m conn ds) (gathered-after m conn ds)
  where
    measured :
        (m' : Text) (conn' : ℕ) (all : Evidence) (rest : List Event)
        → get_proof (all m conn) ≡ after rest
        → get_proof
            (write_proof m' conn' (some (note_metrics now (get_proof (all m' conn')))) all m conn)
          ≡ after (if text_eq m' m && conn' == conn then metrics now ∷ rest else rest)
    measured m' conn' all rest = unfold note_event in wrote m conn m' conn' all rest (metrics now)
gathered-after m conn (forgetting m' none ∷ ds) =
    forgot m conn m' conn (gathered ds) (events_of m conn ds) (gathered-after m conn ds)
gathered-after m conn (forgetting m' (some conn') ∷ ds) =
    cleared m conn m' conn' (gathered ds) (events_of m conn ds) (gathered-after m conn ds)

proof_found :
    (now g : ℕ) (candidate : Text) (found : Option Proof)
    → judge_proof now g candidate found ≡ proven
    → judge_proof now g candidate (some (get_proof found)) ≡ proven
unfolding judge_proof
proof_found now g candidate none h = cc
proof_found now g candidate (some ev) h = h

-- Whatever the hub received and forgot, if a machine's dwell is satisfied then the registry holds a
-- connection for it, and that very connection, since it was last forgotten, delivered three or more
-- metrics frames after an uncontradicted report of this candidate of this generation, no two
-- neighbours more than 45 s apart, 60 s or more from first to last, the last at most 45 s old.
pub dwell_satisfied_sound :
    (now g : ℕ) (candidate : Text) (owner : Option ℕ) (m : Text) (ds : List Delivery)
    → dwell_satisfied now g candidate owner m (gathered ds) ≡ proven
    → (conn : ℕ) × (owner ≡ some conn)
      × (n : ℕ) × (s : ℕ) × (l : ℕ) × Covered g candidate n (events_of m conn ds) s l
      × (3 ≤ n)
      × (dwell_ms ≤ l - s)
      × (now - l ≤ telemetry_gap_ms)
unfolding dwell_satisfied
dwell_satisfied_sound now g candidate none m ds h = cc
dwell_satisfied_sound now g candidate (some conn) m ds h =
    let (n, s, l, c, three, long, fresh) =
      dwell_sound now g candidate (events_of m conn ds)
        (rw (← gathered-after m conn ds) (proof_found now g candidate (gathered ds m conn) h)) in
    (conn, refl, n, s, l, c, three, long, fresh)
