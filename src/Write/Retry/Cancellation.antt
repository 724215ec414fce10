-- ===== src/Write/Retry/Cancellation.antt =====
-- retry.go: `CancelRetry` during an execution.
use staravail.Common.{ℕ, ◌≡◌, refl, sym, ap, ◌∙◌}
use staravail.Common.{List, Text, text_eq→eq}
use staravail.Common.{Option, none, some}
use staravail.Common.{Bool-cases, Option-cases, inl, inr}
use staravail.Write.Retry.{
  RetryStatus, succeeded, failed, cancelled, RetryInfo, RetryManager, Services, lookup, store,
  cancellable, cancel_retry, update_retry_status,
}
use staravail.Write.Retry.Execute.{
  Attempt, stopped, executed, record_attempt, settle_attempt, finish_retry,
}
use staravail.Write.Retry.Store.{lookup-store, lookup_id, store-store}

update_unnoticed :
    (t now : ℕ) (retry_id : Text) (status : RetryStatus) (err : Option Text) (m : RetryManager)
    → update_retry_status now retry_id status err (cancel_retry t retry_id m).0
      ≡ update_retry_status now retry_id status err m
unfolding cancel_retry update_retry_status
update_unnoticed t now retry_id status err m = elim (Option-cases (lookup retry_id m.retry_info)) [
  | inl k ↦ rw (k, cancel_retry) refl
  | inr (info, k) ↦ elim (Bool-cases (cancellable info.status)) [
    | inr c ↦ rw (k, c, cancel_retry) (rw (k, update_retry_status) refl)
    | inl c ↦
        let old : RetryInfo = record info { status = cancelled; completed_at = t } in
        let found : lookup retry_id (store old m.retry_info) ≡ some old =
          ap (λ (i : Text). lookup i (store old m.retry_info))
            (sym (text_eq→eq info.id retry_id (lookup_id retry_id m.retry_info info k)))
          ∙ lookup-store old m.retry_info in
        rw (k, c, cancel_retry)
          (rw (found, k, update_retry_status)
            (ap (λ (l : List RetryInfo). record m { retry_info = l })
              (store-store old
                (record info {
                  status = status;
                  completed_at = now;
                  error = elim err [ none ↦ info.error | some e ↦ e ];
                })
                m.retry_info refl)))
  ]
]

record_unnoticed :
    (s : Services) (t now : ℕ) (retry_id : Text) (a : Attempt) (m : RetryManager)
    → record_attempt s now retry_id a (cancel_retry t retry_id m).0
      ≡ record_attempt s now retry_id a m
unfolding record_attempt
record_unnoticed s t now retry_id (stopped e) m =
    update_unnoticed t now retry_id failed (some (s.message e)) m
record_unnoticed s t now retry_id (executed w (some err)) m =
    update_unnoticed t now retry_id failed (some err) m
record_unnoticed s t now retry_id (executed w none) m =
    update_unnoticed t now retry_id succeeded none m

-- When an attempt is recorded, it makes no difference to the manager whether the retry was
-- cancelled before: its status, its error and the buffer are the same.
pub cancel_retry_unnoticed :
    (s : Services) (t recorded settled : ℕ) (retry_id : Text) (a : Attempt) (m : RetryManager)
    → finish_retry s recorded settled retry_id a (cancel_retry t retry_id m).0
      ≡ finish_retry s recorded settled retry_id a m
unfolding finish_retry
cancel_retry_unnoticed s t recorded settled retry_id a m =
    ap (settle_attempt settled a) (record_unnoticed s t recorded retry_id a m)
