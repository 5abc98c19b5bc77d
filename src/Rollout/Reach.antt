-- ===== src/Rollout/Reach.antt =====
-- hub/agent_rollout.go: the controller's operations as steps in any order, with any clock readings,
-- machines, candidates and dwell verdicts; a restart of the hub is a step.
use mathlib.Core.Path.{subst}
use blox_os.Base.{ℕ, ◌≡◌, refl, Bool, some}
use blox_os.Base.Text.{Text}
use blox_os.Base.Table.{count_where}
use blox_os.Rollout.Tables.{PlatformRow, Tables, empty_tables}
use blox_os.Rollout.Reserve.{
  Reservation, reserve, release_before_send, mark_offered, observe_running_candidate, withhold,
}
use blox_os.Rollout.Progress.{tick, resume, reconcile_after_restart}
use blox_os.Rollout.Invariant.{Ok, RowOk, IsValid}
use blox_os.Rollout.Ticking.{tick-IsValid, resume-IsValid}
use blox_os.Rollout.Reserving.{
  reserve-IsValid, release_before_send-IsValid, mark_offered-IsValid,
  observe_running_candidate-IsValid, reconcile-IsValid, withhold-IsValid,
}

pub data Step (db : Tables) : Tables → Type 0 where
  reserving :
      (now : ℕ) (m candidate : Text) (release : ℕ) → Step db (reserve now m candidate release db).0
  releasing : (r : Reservation) → Step db (release_before_send r db)
  offering : (now : ℕ) (r : Reservation) → Step db (mark_offered now r db)
  observing : (g : ℕ) (m : Text) → Step db (observe_running_candidate g m db)
  withholding :
      (now : ℕ) (m candidate : Text) (release : ℕ) (why : Text)
      → Step db (withhold now m candidate release why db)
  ticking : (proven : Text → Bool) (now : ℕ) → Step db (tick proven now db)
  resuming : (now : ℕ) → Step db (resume now db)
  restarting : (now : ℕ) → Step db (reconcile_after_restart now db)

pub data Reach (db : Tables) : Tables → Type 0 where
  here : Reach db db
  next : {t u : Tables} → Reach db t → Step t u → Reach db u

pub Step-IsValid : {db db' : Tables} → IsValid db → Step db db' → IsValid db'
Step-IsValid {db} v (reserving now m candidate release) =
    reserve-IsValid now m candidate release db v
Step-IsValid {db} v (releasing r) = release_before_send-IsValid r db v
Step-IsValid {db} v (offering now r) = mark_offered-IsValid now r db v
Step-IsValid {db} v (observing g m) = observe_running_candidate-IsValid g m db v
Step-IsValid {db} v (withholding now m candidate release why) =
    withhold-IsValid now m candidate release why db v
Step-IsValid {db} v (ticking proven now) = tick-IsValid proven now db v
Step-IsValid {db} v (resuming now) = resume-IsValid now db v
Step-IsValid {db} v (restarting now) = reconcile-IsValid now db v

pub Reach-IsValid : {db db' : Tables} → IsValid db → Reach db db' → IsValid db'
Reach-IsValid v here = v
Reach-IsValid v (next r s) = Step-IsValid (Reach-IsValid v r) s

pub empty-IsValid : IsValid empty_tables
unfolding count_where
empty-IsValid = refl

pub Ok-of_Reach :
    {db : Tables} (st : PlatformRow) → Reach empty_tables db → db.row ≡ some st → Ok st db.slots
Ok-of_Reach {db} st r e = subst (λ row. RowOk row db.slots) e (Reach-IsValid empty-IsValid r)
