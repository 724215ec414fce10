-- ===== src/Write/Retry/Interleaved/Rely.antt =====
-- retry.go: what the other calls leave of a retry.
use staravail.Common.{ℕ, ◌≡◌, refl, sym, ap, ◌∙◌, arith, List, Text, text_eq, text_eq→eq}
use staravail.Common.{true, false, Option, none, some, Option-cases, Bool-cases, inl, inr}
use staravail.Write.Retry.{
  RetryStatus, in_progress, cancelled, RetryInfo, RetryManager, lookup, store, cancellable,
  store_retry, cancel_retry, update_retry_status,
}
use staravail.Write.Retry.Execute.{begin_retry}
use staravail.Write.Retry.Store.{lookup-store, lookup_id, lookup_other-store}
use staravail.Write.Retry.Interleaved.{
  OtherCall, cancels, changes_buffer, schedules, begins_other, updates_other,
}

-- The later record of a retry: only its end can have been changed, and only by a cancellation, so
-- not behind an end.
pub record IsLater (old new : RetryInfo) : Type 0 where
  pub started_kept : new.started_at ≡ old.started_at
  pub attempt_kept : new.attempt_number ≡ old.attempt_number
  pub write_kept : new.write_id ≡ old.write_id
  pub end_kept : cancellable old.status ≡ false → new ≡ old

abbrev pub FindsLater : Text → RetryInfo → RetryManager → Type 0
FindsLater id old m = (new : RetryInfo) × (lookup id m.retry_info ≡ some new) × IsLater old new

IsLater-refl : (info : RetryInfo) → IsLater info info
IsLater-refl info = record {
  started_kept = refl;
  attempt_kept = refl;
  write_kept = refl;
  end_kept = λ h. refl;
}

same_lookup :
    (id : Text) (info : RetryInfo) (m m' : RetryManager)
    → lookup id m'.retry_info ≡ lookup id m.retry_info
    → lookup id m.retry_info ≡ some info
    → FindsLater id info m'
same_lookup id info m m' e k = (info, e ∙ k, IsLater-refl info)

update_lookup_other :
    (now : ℕ) (other id : Text) (status : RetryStatus) (err : Option Text) (m : RetryManager)
    → text_eq other id ≡ false
    → lookup id (update_retry_status now other status err m).retry_info ≡ lookup id m.retry_info
unfolding update_retry_status
update_lookup_other now other id status err m differs =
    elim (Option-cases (lookup other m.retry_info)) [
      | inl k ↦ rw (k, update_retry_status) refl
      | inr (info, k) ↦
          rw (k, update_retry_status)
            (lookup_other-store id
              (record info {
                status = status;
                completed_at = now;
                error = elim err [ none ↦ info.error | some e ↦ e ];
              })
              m.retry_info
              (ap (λ (i : Text). text_eq i id)
                  (text_eq→eq info.id other (lookup_id other m.retry_info info k))
                ∙ differs))
    ]

begin_lookup_other :
    (now : ℕ) (other id : Text) (m : RetryManager)
    → text_eq other id ≡ false
    → lookup id (begin_retry now other m).0.retry_info ≡ lookup id m.retry_info
unfolding begin_retry
begin_lookup_other now other id m differs = elim (Option-cases (lookup other m.retry_info)) [
  | inl k ↦ rw (k, begin_retry) refl
  | inr (info, k) ↦
      rw (k, begin_retry)
        (lookup_other-store id (record info { status = in_progress; started_at = now }) m.retry_info
          (ap (λ (i : Text). text_eq i id)
              (text_eq→eq info.id other (lookup_id other m.retry_info info k))
            ∙ differs))
]

-- The record that a cancellation stores, in the map of a retry that it cancels or of another.
stored_finds :
    (now : ℕ) (other id : Text) (info found : RetryInfo) (rs : List RetryInfo)
    → lookup id rs ≡ some info
    → lookup other rs ≡ some found
    → cancellable found.status ≡ true
    → let new : RetryInfo = record found { status = cancelled; completed_at = now } in
      (later : RetryInfo) × (lookup id (store new rs) ≡ some later) × IsLater info later
stored_finds now other id info found rs k l c =
    let new : RetryInfo = record found { status = cancelled; completed_at = now } in
    let found_id = text_eq→eq found.id other (lookup_id other rs found l) in
    elim (Bool-cases (text_eq found.id id)) [
      | inl h ↦
          let same_id = text_eq→eq found.id id h in
          let same : found ≡ info =
            ground (arith, sym l ∙ ap (λ (i : Text). lookup i rs) (sym found_id ∙ same_id) ∙ k) in
          (
            new,
            ap (λ (i : Text). lookup i (store new rs)) (sym same_id) ∙ lookup-store new rs,
            record {
              started_kept = ap RetryInfo.started_at same;
              attempt_kept = ap RetryInfo.attempt_number same;
              write_kept = ap RetryInfo.write_id same;
              end_kept = λ e. absurd (ground (arith, e, c, ap RetryInfo.status same));
            },
          )
      | inr h ↦ (info, lookup_other-store id new rs h ∙ k, IsLater-refl info)
    ]

cancel_finds :
    (now : ℕ) (other id : Text) (info : RetryInfo) (m : RetryManager)
    → lookup id m.retry_info ≡ some info
    → FindsLater id info (cancel_retry now other m).0
unfolding cancel_retry
cancel_finds now other id info m k = elim (Option-cases (lookup other m.retry_info)) [
  | inl l ↦ rw (l, cancel_retry) (info, k, IsLater-refl info)
  | inr (found, l) ↦ elim (Bool-cases (cancellable found.status)) [
    | inl c ↦ rw (l, c, cancel_retry) (stored_finds now other id info found m.retry_info k l c)
    | inr c ↦ rw (l, c, cancel_retry) (info, k, IsLater-refl info)
  ]
]

pub OtherCall-finds :
    {id : Text} {now : ℕ} {m m' : RetryManager} (info : RetryInfo)
    → OtherCall id now m m'
    → lookup id m.retry_info ≡ some info
    → FindsLater id info m'
unfolding store_retry
OtherCall-finds {id} {now} {m} info (cancels other) k = cancel_finds now other id info m k
OtherCall-finds {id} {m} info (changes_buffer b) k = (info, k, IsLater-refl info)
OtherCall-finds {id} {m} info (schedules new differs) k =
    (info, lookup_other-store id new m.retry_info differs ∙ k, IsLater-refl info)
OtherCall-finds {id} {now} {m} info (begins_other other differs) k =
    (info, begin_lookup_other now other id m differs ∙ k, IsLater-refl info)
OtherCall-finds {id} {now} {m} info (updates_other other status err differs) k =
    (info, update_lookup_other now other id status err m differs ∙ k, IsLater-refl info)

cancel-config :
    (now : ℕ) (other : Text) (m : RetryManager) → (cancel_retry now other m).0.config ≡ m.config
unfolding cancel_retry
cancel-config now other m = ground arith

pub begin-config :
    (now : ℕ) (other : Text) (m : RetryManager) → (begin_retry now other m).0.config ≡ m.config
unfolding begin_retry
begin-config now other m = ground arith

pub update-config :
    (now : ℕ) (other : Text) (status : RetryStatus) (err : Option Text) (m : RetryManager)
    → (update_retry_status now other status err m).config ≡ m.config
unfolding update_retry_status
update-config now other status err m = ground arith

pub OtherCall-config :
    {id : Text} {now : ℕ} {m m' : RetryManager} → OtherCall id now m m' → m'.config ≡ m.config
unfolding store_retry
OtherCall-config {now} {m} (cancels other) = cancel-config now other m
OtherCall-config (changes_buffer b) = refl
OtherCall-config (schedules new differs) = refl
OtherCall-config {now} {m} (begins_other other differs) = begin-config now other m
OtherCall-config {now} {m} (updates_other other status err differs) =
    update-config now other status err m
