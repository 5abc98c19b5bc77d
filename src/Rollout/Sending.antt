-- ===== src/Rollout/Sending.antt =====
-- hub/agent_rollout.go: claimSend and releaseSend, the one owner of a send within the hub.
use blox_os.Base.{ℕ, Bool, true, false, ◌&&◌, ◌==◌, if◌then◌else◌}
use blox_os.Base.Text.{Text, text_eq}
use blox_os.Rollout.Reserve.{Reservation}

-- The set of claimed keys: generation, machine and attempt (the platform is fixed).
abbrev pub Claims : Type 0
Claims = ℕ → Text → ℕ → Bool

abbrev pub is_key : Reservation → ℕ → Text → ℕ → Bool
is_key r g m a = r.generation == g && text_eq r.machine_id m && r.attempt == a

unfoldable pub write_claim : Reservation → Bool → Claims → Claims
write_claim r value claims g m a = if is_key r g m a then value else claims g m a

unfoldable pub claim_send : Reservation → Claims → Claims × Bool
unfolding write_claim
claim_send r claims =
    if claims r.generation r.machine_id r.attempt
    then (claims, false)
    else (write_claim r true claims, true)

unfoldable pub release_send : Reservation → Claims → Claims
unfolding write_claim
release_send r claims = write_claim r false claims
