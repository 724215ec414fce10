-- ===== src/Write/Retry/Interleaved/Completed.antt =====
-- retry.go: what a completed execution says of its retry, whatever was called meanwhile.
use staravail.Common.{
  ℕ, ◌+◌, ◌≤◌, ◌≡◌, ◌⊎◌, refl, sym, ap, ◌∙◌, arith, Text, true, none, some, inl, inr,
}
use mathlib.Core.Path.{subst}
use staravail.Write.Types.{BufferedWrite, key_of}
use staravail.Write.Buffer.{is_tablet_healthy}
use staravail.Write.Retry.{succeeded, failed, RetryInfo, Services, lookup}
use staravail.Write.Retry.Backoff.{Arithmetic, calculate_backoff}
use staravail.Write.Retry.Execute.{Attempt, stopped, executed, delay}
use staravail.Write.Retry.Outcomes.{status_of, try_write_succeeded}
use staravail.Write.Retry.Interleaved.{idle, settled, System, Run}
use staravail.Write.Retry.Interleaved.Progress.{IsAttempt, Progress, in_phase, Run_progress}

-- An attempt that came to an end: it failed, or its write was healthy and accepted.
abbrev pub CameTo : Services → RetryInfo → RetryInfo → Type 0
CameTo s retry final =
    (final.status ≡ failed)
    ⊎ ((final.status ≡ succeeded)
        × (w : BufferedWrite) × (w.id ≡ retry.write_id)
        × (is_tablet_healthy s.health_checker (key_of w) ≡ some true)
        × (s.execute_write w ≡ none))

status_of-cases :
    (attempt : Attempt) → (status_of attempt ≡ failed) ⊎ (status_of attempt ≡ succeeded)
unfolding status_of
status_of-cases (stopped e) = inl refl
status_of-cases (executed w (some err)) = inl refl
status_of-cases (executed w none) = inr refl

attempt_came :
    (s : Services) (retry : RetryInfo) (attempt : Attempt)
    → IsAttempt s retry attempt
    → (final : RetryInfo) → final.status ≡ status_of attempt
    → CameTo s retry final
attempt_came s retry attempt (b, info, same, made) final e = elim (status_of-cases attempt) [
  | inl h ↦ inl (e ∙ h)
  | inr h ↦
      let (w, executes, newest, same_id, healthy, accepted) =
        try_write_succeeded s info b (ap status_of (sym made) ∙ h) in
      inr (e ∙ h, w, same_id ∙ same, healthy, accepted)
]

-- In every run that begins with a known retry, and in which other calls, cancellations of this
-- retry included, come between any two of its steps, when the execution has recorded its attempt
-- and told the buffer, calculateBackoff gives a backoff for the attempt's number, the retry is
-- started no earlier than the run begins, completed at least that much later and no later than the
-- run ends, and it has either failed, or it has succeeded and the executor has accepted its write
-- for a healthy tablet.
pub run-CameTo :
    (s : Services) (a : Arithmetic) (id : Text) (retry : RetryInfo) (x y : System)
    (attempt : Attempt)
    → x.phase ≡ idle
    → lookup id x.manager.retry_info ≡ some retry
    → Run s a id x y
    → y.phase ≡ settled attempt
    → (d : ℕ) × (calculate_backoff a x.manager.config retry.attempt_number ≡ some d)
      × (final : RetryInfo) × (lookup id y.manager.retry_info ≡ some final)
      × (x.clock ≤ final.started_at)
      × (final.started_at + delay d ≤ final.completed_at)
      × (final.completed_at ≤ y.clock)
      × CameTo s retry final
run-CameTo s a id retry x y attempt begins_idle known run ends =
    let config = x.manager.config in
    let at_start =
      subst (Progress s a id config retry x.clock x.clock x.manager) (sym begins_idle)
        (omega arith, refl, retry, known, refl, refl) in
    let (came, (d, b, final, k, l, h, f, e)) =
      in_phase s a id config retry x.clock y ends
        (Run_progress s a id config retry x.clock at_start run) in
    (d, b, final, k, l, h, f, attempt_came s retry attempt came final e)
