-- ===== src/Rollout/Operating.antt =====
-- hub/agent_rollout.go: what restarts, resumes and sends do, and what the status counts.
use mathlib.Core.Option
use blox_os.Base.{
  ℕ, ◌+◌, ◌≡◌, ◌∙◌, ◌≤◌, true, false, ◌&&◌, not, none, some, List, [], ◌∷◌, arith, if◌then◌else◌,
  refl, ap, max, inl, inr, ◌⊎◌,
}
use blox_os.Base.Text.{Text, text_eq_refl, eq_of_text_eq}
use blox_os.Base.Table.{find_where, update_where, find-update, find-update_inv, find_holds}
use blox_os.Rollout.Tables.{
  Slot, active, PlatformRow, Tables, is_live, is_failed, is_slot, in_state, find_slot,
  restart_grace_ms,
}
use blox_os.Rollout.Reserve.{Reservation}
use blox_os.Rollout.Progress.{retry, resume_row, resume, reconcile_after_restart}
use blox_os.Rollout.Failing.{tables}
use blox_os.Rollout.Sending.{Claims, is_key, claim_send, release_send}

graced_once :
    (a b : ℕ) (l : List Slot)
    → update_where
        (λ s. is_live s.state && not s.grace_used)
        (λ s. record s {
          deadline_ms = max s.deadline_ms (b + restart_grace_ms);
          grace_used = true;
        })
        (update_where
          (λ s. is_live s.state && not s.grace_used)
          (λ s. record s {
            deadline_ms = max s.deadline_ms (a + restart_grace_ms);
            grace_used = true;
          })
          l)
      ≡ update_where
          (λ s. is_live s.state && not s.grace_used)
          (λ s. record s {
            deadline_ms = max s.deadline_ms (a + restart_grace_ms);
            grace_used = true;
          })
          l
unfolding update_where
graced_once a b [] = refl
graced_once a b (s ∷ l) = ground (arith, graced_once a b l)

-- A second restart, at any time, extends nothing that the first one did: a crash loop gets one
-- grace for each attempt.
pub reconcile_twice :
    (first second : ℕ) (db : Tables)
    → reconcile_after_restart second (reconcile_after_restart first db)
      ≡ reconcile_after_restart first db
unfolding reconcile_after_restart
reconcile_twice first second db =
    ap (λ slots. record db { slots = slots }) (graced_once first second db.slots)

-- A restart changes no slot of a machine but its deadline and its grace, never to an earlier
-- deadline, and only for an outstanding attempt that has not had its grace.
pub reconcile_extends :
    (now g : ℕ) (m : Text) (db : Tables) (t : Slot)
    → find_slot g m (reconcile_after_restart now db) ≡ some t
    → (s : Slot) × (find_slot g m db ≡ some s)
      × ((t ≡ s)
          ⊎ ((is_live s.state ≡ true)
              × (s.grace_used ≡ false)
              × (s.deadline_ms ≤ t.deadline_ms)
              × (now + restart_grace_ms ≤ t.deadline_ms)
              × (t ≡ record s { deadline_ms = t.deadline_ms; grace_used = true })))
unfolding reconcile_after_restart find_slot is_slot
reconcile_extends now g m db t found =
    let (s, before, change) =
      find-update_inv (is_slot g m) (λ s. is_live s.state && not s.grace_used)
        (λ s. record s {
          deadline_ms = max s.deadline_ms (now + restart_grace_ms);
          grace_used = true;
        })
        db.slots t (λ s. refl) found in
    (
      s,
      before,
      elim change [
        | inl same ↦ inl same
        | inr (due, e) ↦ inr (ground arith, ground arith, ground arith, ground arith, ground arith)
      ],
    )

resume_row-find :
    (now : ℕ) (st : PlatformRow) (m : Text) (slots : List Slot)
    → find_slot st.generation m (resume_row now (some st) (record { row = some st; slots = slots }))
      ≡ Option.map
          (λ s. if in_state st.generation is_failed s then retry now s else s)
          (find_where (is_slot st.generation m) slots)
unfolding resume_row find_slot is_slot
resume_row-find now st m slots =
    find-update (is_slot st.generation m) (in_state st.generation is_failed) (retry now) slots
      (λ s. refl)

resumed_slot :
    (now : ℕ) (st : PlatformRow) (m : Text) (s : Slot) (slots : List Slot)
    → find_where (is_slot st.generation m) slots ≡ some s
    → find_slot st.generation m (resume_row now (some st) (tables st slots))
      ≡ some (if is_failed s.state then retry now s else s)
resumed_slot now st m s slots found = resume_row-find now st m slots ∙ (rw found (ap some picked))
  where
    picked :
        (if in_state st.generation is_failed s then retry now s else s)
        ≡ (if is_failed s.state then retry now s else s)
    picked =
        unfold in_state is_slot in
        ground (arith, find_holds (is_slot st.generation m) slots s found)

-- An operator's resume of a platform with a row, and any machine with a slot of its generation: the
-- platform is active and its halt reason empty, with the generation, candidate and stage it had; a
-- failed slot is reserved again under the next attempt number, with a full window and a fresh
-- resend budget and grace, whatever number of attempts it has had; any other slot is as it was.
pub resume_retries :
    (now : ℕ) (st : PlatformRow) (m : Text) (slots : List Slot) (s : Slot)
    → find_slot st.generation m (tables st slots) ≡ some s
    → ((resume now (tables st slots)).row
        ≡ some (record st { status = active; halt_reason = none }))
      × (find_slot st.generation m (resume now (tables st slots))
          ≡ some (if is_failed s.state then retry now s else s))
unfolding resume
resume_retries now st m slots s found =
    (unfold resume_row in refl, resumed_slot now st m s slots (unfold find_slot in found))

-- A send has one owner: after any claim of a reservation the next claim of it fails, and the next
-- claim after a release succeeds; a claim, whether it succeeds or not, leaves the reservation's key
-- claimed and a release leaves it free, and every other key keeps its claim: one that differs in
-- the generation, the machine or the attempt.
pub claim_exclusive :
    (r : Reservation) (g : ℕ) (m : Text) (a : ℕ) (claims : Claims)
    → ((claim_send r (claim_send r claims).0).1 ≡ false)
      × ((claim_send r (release_send r (claim_send r claims).0)).1 ≡ true)
      × ((claim_send r claims).0 g m a ≡ (if is_key r g m a then true else claims g m a))
      × (release_send r claims g m a ≡ (if is_key r g m a then false else claims g m a))
unfolding claim_send release_send
claim_exclusive r g m a claims = (
  ground (arith, text_eq_refl r.machine_id),
  ground (arith, text_eq_refl r.machine_id),
  claimed,
  ground arith,
)
  where
    claimed : (claim_send r claims).0 g m a ≡ (if is_key r g m a then true else claims g m a)
    claimed = ground (arith, eq_of_text_eq r.machine_id m)
