-- ===== src/Enrollment/Tests.antt =====
-- hub/agentws.go: a machine that enrolls, and is then re-enrolled with a staged credential.
use blox_os.Base.{
  ◌≡◌, ◌≢◌, ◌<◌, ◌⊎◌, refl, sym, subst, arith, List, [], ◌∷◌, ◌++◌, none, some, true, false, All,
}
use blox_os.Base.Text.{Text, codes}
use blox_os.Base.Result.{ok, err}
use blox_os.Enrollment.Tokens.{Credential, already_used, expired, validate_agent_token, add_token}
use blox_os.Enrollment.Credentials.{
  already_consumed, bound_elsewhere, deadline_at, consume_token_and_store_credential,
  stage_targeted_credential,
}
use blox_os.Enrollment.Secrets.{lookup_active_credential, validate_agent_secret}
use blox_os.Enrollment.SingleUse.{
  System, minting, consuming, staging, Reach, here, next, IsDistinct, after_exchange, empty_system,
  Reach-IsDistinct,
}
use blox_os.Enrollment.Presenting.{HasActive, HasPending, validate_sound}
use blox_os.Enrollment.Handoff.{
  Files, not_sent, no_match, confirm_promoted, confirm_already_active, handle_enrolled_frame,
  handle_enrollment_confirmed,
}
use blox_os.Storage.Disk.{done}
use blox_os.Enrollment.Confirming.{Settled, confirm_sound}
use blox_os.Enrollment.Recovering.{IsNew, stage_recovers}

-- A hash is the text with a mark before it.
abbrev sha : Text → Text
sha t = 35 ∷ t

abbrev first_token : Text
first_token = 116 ∷ []

abbrev second_token : Text
second_token = 116 ∷ 50 ∷ []

abbrev rig : Text
rig = codes "rig"

abbrev minted : System
minted = record empty_system { store = add_token (sha first_token) 9000 none empty_system.store }

abbrev enrolled : System
enrolled =
    after_exchange (sha first_token)
      (consume_token_and_store_credential 5000 (sha first_token) rig (sha (codes "old"))
        minted.store)
      minted.spent

abbrev bound : System
bound = record enrolled { store = add_token (sha second_token) 9000 (some rig) enrolled.store }

abbrev staged : System
staged =
    after_exchange (sha second_token)
      (stage_targeted_credential 5000 (sha second_token) rig (sha (codes "new")) bound.store)
      bound.spent

abbrev staged_rows : List Credential
staged_rows =
    record {
      machine = rig;
      active = sha (codes "old");
      pending = some (sha (codes "new"));
      deadline = some (some 305000);
    }
    ∷ []

stages : staged.store.credentials ≡ staged_rows
unfolding stage_targeted_credential add_token consume_token_and_store_credential
stages = refl

spent_both : staged.spent ≡ (sha second_token ∷ sha first_token ∷ [])
unfolding stage_targeted_credential add_token consume_token_and_store_credential
spent_both = refl

token_valid : validate_agent_token sha 9000 first_token minted.store ≡ ok (sha first_token, none)
unfolding validate_agent_token add_token
token_valid = refl

token_expired : validate_agent_token sha 9001 first_token minted.store ≡ err expired
unfolding validate_agent_token add_token
token_expired = refl

token_used : validate_agent_token sha 5000 first_token enrolled.store ≡ err already_used
unfolding validate_agent_token consume_token_and_store_credential add_token
token_used = refl

-- The second use of the token, and the use for another machine.
consumed_once :
    consume_token_and_store_credential 5000 (sha first_token) rig (sha (codes "x")) enrolled.store
    ≡ (enrolled.store, some already_consumed)
unfolding consume_token_and_store_credential add_token
consumed_once = refl

elsewhere :
    consume_token_and_store_credential 5000
      (sha second_token)
      (codes "box")
      (sha (codes "x"))
      bound.store
    ≡ (bound.store, some bound_elsewhere)
unfolding consume_token_and_store_credential add_token
elsewhere = refl

t1_spent : enrolled.spent ≡ (sha first_token ∷ [])
unfolding consume_token_and_store_credential add_token
t1_spent = refl

tokens_apart : sha first_token ≢ sha second_token
tokens_apart e = absurd (cc e)

other_token : All (λ k. k ≢ sha second_token) enrolled.spent
other_token = subst (All (λ k. k ≢ sha second_token)) (sym t1_spent) (tokens_apart, tt)

run : Reach empty_system staged
run =
    next
      (next
        (next (next here (minting (sha first_token) 9000 none tt))
          (consuming 5000 (sha first_token) rig (sha (codes "old"))))
        (minting (sha second_token) 9000 (some rig) other_token))
      (staging 5000 (sha second_token) rig (sha (codes "new")))

Reach-IsDistinct_example : IsDistinct staged.spent
Reach-IsDistinct_example = Reach-IsDistinct run

-- The new secret within the deadline, the same too late, and the old one.
new_accepted :
    (validate_agent_secret sha 304999 304999 (codes "new") staged.store).1 ≡ some (rig, true)
unfolding validate_agent_secret stage_targeted_credential add_token
    consume_token_and_store_credential
new_accepted = refl

new_late : (validate_agent_secret sha 304999 305000 (codes "new") staged.store).1 ≡ none
unfolding validate_agent_secret stage_targeted_credential add_token
    consume_token_and_store_credential
new_late = refl

old_accepted :
    (validate_agent_secret sha 304999 304999 (codes "old") staged.store).1 ≡ some (rig, false)
unfolding validate_agent_secret stage_targeted_credential add_token
    consume_token_and_store_credential
old_accepted = refl

validate_sound_example :
    HasActive rig
      (sha (codes "new"))
      (validate_agent_secret sha 304999 304999 (codes "new") staged.store).0
    × (HasActive rig (sha (codes "new")) staged.store
        ⊎ ((true ≡ true) × HasPending 304999 304999 rig (sha (codes "new")) staged.store))
validate_sound_example =
    validate_sound sha 304999 304999 (codes "new") staged.store rig true new_accepted

stage_succeeds :
    (stage_targeted_credential 5000 (sha second_token) rig (sha (codes "new")) bound.store).1 ≡ none
unfolding stage_targeted_credential add_token consume_token_and_store_credential
stage_succeeds = refl

is_new : IsNew (sha (codes "new")) bound.store.credentials
unfolding add_token consume_token_and_store_credential
is_new = ((refl, refl), tt)

in_time : 304999 < deadline_at 5000
unfolding deadline_at
in_time = omega arith

stage_recovers_example :
    ((s : Text)
      → lookup_active_credential s
          (stage_targeted_credential 5000 (sha second_token) rig (sha (codes "new")) bound.store).0
        ≡ lookup_active_credential s bound.store)
    × ((validate_agent_secret sha 304999 304999
          (codes "new")
          (stage_targeted_credential 5000
            (sha second_token)
            rig
            (sha (codes "new"))
            bound.store).0).1
        ≡ some (rig, true))
stage_recovers_example =
    stage_recovers sha 5000 304999 304999 (sha second_token) rig (codes "new") bound.store
      stage_succeeds is_new in_time in_time

abbrev on_disk : Files
on_disk = record { active = some (codes "old"); pending = some (10 ∷ codes "new ") }

-- The pending file becomes the active one; a hash of neither file changes nothing.
promoted_file :
    handle_enrollment_confirmed sha true true done true (sha (codes "new")) on_disk
    ≡ (record { active = some (10 ∷ codes "new "); pending = none }, ok confirm_promoted)
unfolding handle_enrollment_confirmed blox_os.Base.Text.is_space
promoted_file = refl

stranger :
    handle_enrollment_confirmed sha true true done true (sha (codes "other")) on_disk
    ≡ (on_disk, err no_match)
unfolding handle_enrollment_confirmed blox_os.Base.Text.is_space
stranger = refl

left_over :
    handle_enrollment_confirmed sha true true done true (sha (codes "old")) on_disk
    ≡ (record on_disk { pending = none }, ok confirm_already_active)
unfolding handle_enrollment_confirmed blox_os.Base.Text.is_space
left_over = refl

not_sent_yet :
    handle_enrolled_frame (codes "new") done false (record on_disk { pending = none })
    ≡ (record on_disk { pending = some (codes "new" ++ (10 ∷ [])) }, err not_sent)
unfolding handle_enrolled_frame
not_sent_yet = refl

confirm_sound_example :
    Settled sha
      (sha (codes "new"))
      on_disk
      (handle_enrollment_confirmed sha true true done true (sha (codes "new")) on_disk)
confirm_sound_example = confirm_sound sha (sha (codes "new")) on_disk true true done true
