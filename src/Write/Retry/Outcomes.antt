-- ===== src/Write/Retry/Outcomes.antt =====
-- retry.go: what an execution of a retry comes to.
use staravail.Common.{ℕ, ◌+◌, ◌≡◌, refl, sym, ap, ◌∙◌, arith, Text, text_eq→eq, true, false}
use staravail.Common.{Option, none, some, Option-cases, inl, inr}
use staravail.Write.Types.{BufferedWrite, WriteBuffer, key_of}
use staravail.Write.Buffer.{is_tablet_healthy, remove_buffered_write}
use staravail.Write.Retry.{
  RetryStatus, in_progress, succeeded, failed, RetryInfo, RetryManager, Services, lookup, store,
  buffered_write, check_health, update_retry_status,
}
use staravail.Write.Retry.Execute.{
  begin_retry, Attempt, stopped, executed, try_write, record_attempt, settle_attempt, finish_retry,
  delay, Timing, resume_retry, await_retry, execute_retry,
}
use staravail.Write.Retry.Backoff.{Arithmetic, calculate_backoff}
use staravail.Write.Retry.Store.{lookup-store, lookup_id}
use staravail.Write.Retry.Scheduling.{IsNewest, buffered_write_lem}

-- The retry as the execution leaves it.
unfoldable pub status_of : Attempt → RetryStatus
status_of (stopped e) = failed
status_of (executed w (some err)) = failed
status_of (executed w none) = succeeded

abbrev pub error_of : Services → Attempt → Text → Text
error_of s (stopped e) old = s.message e
error_of s (executed w (some err)) old = err
error_of s (executed w none) old = old

abbrev pub ended : ℕ → RetryStatus → Text → RetryInfo → RetryInfo
ended now status error info = record info { status = status; completed_at = now; error = error }

abbrev pub started : ℕ → RetryInfo → RetryInfo
started now info = record info { status = in_progress; started_at = now }

pub lookup-update :
    (now : ℕ) (id : Text) (status : RetryStatus) (err : Option Text) (m : RetryManager)
    (info : RetryInfo)
    → lookup id m.retry_info ≡ some info
    → lookup id (update_retry_status now id status err m).retry_info
      ≡ some (ended now status (elim err [ none ↦ info.error | some e ↦ e ]) info)
unfolding update_retry_status
lookup-update now id status err m info k =
    let new = ended now status (elim err [ none ↦ info.error | some e ↦ e ]) info in
    rw (k, update_retry_status)
      (ap (λ (i : Text). lookup i (store new m.retry_info))
          (sym (text_eq→eq info.id id (lookup_id id m.retry_info info k)))
        ∙ lookup-store new m.retry_info)

pub lookup-record :
    (s : Services) (now : ℕ) (id : Text) (a : Attempt) (m : RetryManager) (info : RetryInfo)
    → lookup id m.retry_info ≡ some info
    → lookup id (record_attempt s now id a m).retry_info
      ≡ some (ended now (status_of a) (error_of s a info.error) info)
unfolding record_attempt status_of
lookup-record s now id (stopped e) m info k =
    lookup-update now id failed (some (s.message e)) m info k
lookup-record s now id (executed w (some err)) m info k =
    lookup-update now id failed (some err) m info k
lookup-record s now id (executed w none) m info k = lookup-update now id succeeded none m info k

pub settle-retry_info :
    (now : ℕ) (a : Attempt) (m : RetryManager) → (settle_attempt now a m).retry_info ≡ m.retry_info
unfolding settle_attempt
settle-retry_info now (stopped e) m = refl
settle-retry_info now (executed w (some err)) m = refl
settle-retry_info now (executed w none) m = refl

lookup-finish :
    (s : Services) (recorded settled : ℕ) (id : Text) (a : Attempt) (m : RetryManager)
    (info : RetryInfo)
    → lookup id m.retry_info ≡ some info
    → lookup id (finish_retry s recorded settled id a m).retry_info
      ≡ some (ended recorded (status_of a) (error_of s a info.error) info)
unfolding finish_retry
lookup-finish s recorded settled id a m info k =
    ap (lookup id) (settle-retry_info settled a (record_attempt s recorded id a m))
    ∙ lookup-record s recorded id a m info k

abbrev pub marked : ℕ → RetryInfo → RetryManager → RetryManager
marked now info m = record m { retry_info = store (started now info) m.retry_info }

pub lookup-begin :
    (now : ℕ) (id : Text) (m : RetryManager) (info : RetryInfo)
    → lookup id m.retry_info ≡ some info
    → lookup id (marked now info m).retry_info ≡ some (started now info)
lookup-begin now id m info k =
    ap (λ (i : Text). lookup i (marked now info m).retry_info)
      (sym (text_eq→eq info.id id (lookup_id id m.retry_info info k)))
    ∙ lookup-store (started now info) m.retry_info

pub begin_known :
    (now : ℕ) (id : Text) (m : RetryManager) (info : RetryInfo)
    → lookup id m.retry_info ≡ some info
    → begin_retry now id m ≡ (marked now info m, some (started now info))
unfolding begin_retry
begin_known now id m info k = rw (k, begin_retry) refl

execute_unfolded :
    (s : Services) (a : Arithmetic) (t : Timing) (text id : Text) (m : RetryManager)
    (info : RetryInfo) (d : ℕ)
    → lookup id m.retry_info ≡ some info
    → calculate_backoff a m.config info.attempt_number ≡ some d
    → execute_retry s a t false text id m
      ≡ some (
          finish_retry s
            (t.started + delay d + t.working)
            (t.started + delay d + t.working + t.settling)
            id
            (try_write s (started t.started info) m.write_buffer)
            (marked t.started info m))
unfolding execute_retry await_retry resume_retry
execute_unfolded s a t text id m info d k c =
    ap (await_retry s a t false text id) (begin_known t.started id m info k)
    ∙ rw (c, await_retry) refl

-- An attempt that succeeds.
pub try_write_succeeded :
    (s : Services) (info : RetryInfo) (b : WriteBuffer)
    → status_of (try_write s info b) ≡ succeeded
    → (w : BufferedWrite) × (try_write s info b ≡ executed w none)
      × IsNewest w b
      × (w.id ≡ info.write_id)
      × (is_tablet_healthy s.health_checker (key_of w) ≡ some true)
      × (s.execute_write w ≡ none)
unfolding try_write status_of check_health
try_write_succeeded s info b h = elim (Option-cases (buffered_write s info.write_id b)) [
  | inl k ↦ absurd (ground (arith, h, k))
  | inr (w, k) ↦ elim (Option-cases (is_tablet_healthy s.health_checker (key_of w))) [
    | inl c ↦ absurd (ground (arith, h, k, c))
    | inr (false, c) ↦ absurd (ground (arith, h, k, c))
    | inr (true, c) ↦ elim (Option-cases (s.execute_write w)) [
      | inr (err, x) ↦ absurd (ground (arith, h, k, c, x))
      | inl x ↦
          let (newest, same) = buffered_write_lem s info.write_id b w k in
          (w, ground (arith, k, c, x), newest, same, c, x)
    ]
  ]
]

buffer_update :
    (now : ℕ) (id : Text) (status : RetryStatus) (err : Option Text) (m : RetryManager)
    → (update_retry_status now id status err m).write_buffer ≡ m.write_buffer
unfolding update_retry_status
buffer_update now id status err m = elim (Option-cases (lookup id m.retry_info)) [
  | inl k ↦ rw (k, update_retry_status) refl
  | inr (info, k) ↦ rw (k, update_retry_status) refl
]

buffer_finish :
    (s : Services) (recorded settled : ℕ) (id : Text) (w : BufferedWrite) (m : RetryManager)
    → (finish_retry s recorded settled id (executed w none) m).write_buffer
      ≡ (remove_buffered_write w.id m.write_buffer).0
unfolding finish_retry record_attempt settle_attempt
buffer_finish s recorded settled id w m =
    ap (λ (b : WriteBuffer). (remove_buffered_write w.id b).0)
      (buffer_update recorded id succeeded none m)

execute_panics :
    (s : Services) (a : Arithmetic) (t : Timing) (text id : Text) (m : RetryManager)
    (info : RetryInfo)
    → lookup id m.retry_info ≡ some info
    → calculate_backoff a m.config info.attempt_number ≡ none
    → execute_retry s a t false text id m ≡ none
unfolding execute_retry await_retry
execute_panics s a t text id m info k c =
    ap (await_retry s a t false text id) (begin_known t.started id m info k)
    ∙ rw (c, await_retry) refl

finish_succeeded :
    (s : Services) (begun recorded settled : ℕ) (id : Text) (m : RetryManager)
    (info final : RetryInfo)
    → lookup id m.retry_info ≡ some info
    → let m' =
        finish_retry s recorded settled id
          (try_write s (started begun info) m.write_buffer)
          (marked begun info m) in
      lookup id m'.retry_info ≡ some final
      → final.status ≡ succeeded
      → (w : BufferedWrite) × IsNewest w m.write_buffer
        × (w.id ≡ info.write_id)
        × (is_tablet_healthy s.health_checker (key_of w) ≡ some true)
        × (s.execute_write w ≡ none)
        × (m'.write_buffer ≡ (remove_buffered_write w.id m.write_buffer).0)
finish_succeeded s begun recorded settled id m info final k l h =
    let a = try_write s (started begun info) m.write_buffer in
    let same_info : ended recorded (status_of a) (error_of s a info.error) (started begun info)
        ≡ final =
      ground (
        arith,
        lookup-finish s recorded settled id a (marked begun info m) (started begun info)
            (lookup-begin begun id m info k),
        l,
      ) in
    let (w, made, newest, same, healthy, accepted) =
      try_write_succeeded s (started begun info) m.write_buffer
        (ap RetryInfo.status same_info ∙ h) in
    (
      w,
      newest,
      same,
      healthy,
      accepted,
      ap
            (λ (x : Attempt).
              (finish_retry s recorded settled id x (marked begun info m)).write_buffer)
            made
          ∙ buffer_finish s recorded settled id w (marked begun info m),
    )

-- When an execution of a known retry, whose wait is not cut short, ends with the status succeeded,
-- the retry's write was the newest of the buffer, its tablet was healthy, the executor accepted
-- it, and the buffer is what the removal of the write's id leaves.
pub execute_retry_succeeded :
    (s : Services) (a : Arithmetic) (t : Timing) (text id : Text) (m m' : RetryManager)
    (info final : RetryInfo)
    → lookup id m.retry_info ≡ some info
    → execute_retry s a t false text id m ≡ some m'
    → lookup id m'.retry_info ≡ some final
    → final.status ≡ succeeded
    → (w : BufferedWrite) × IsNewest w m.write_buffer
      × (w.id ≡ info.write_id)
      × (is_tablet_healthy s.health_checker (key_of w) ≡ some true)
      × (s.execute_write w ≡ none)
      × (m'.write_buffer ≡ (remove_buffered_write w.id m.write_buffer).0)
execute_retry_succeeded s a t text id m m' info final k x l h =
    elim (Option-cases (calculate_backoff a m.config info.attempt_number)) [
      | inl c ↦ absurd (ground (arith, execute_panics s a t text id m info k c, x))
      | inr (d, c) ↦
          let recorded = t.started + delay d + t.working in
          let m'' =
            finish_retry s recorded (recorded + t.settling) id
              (try_write s (started t.started info) m.write_buffer) (marked t.started info m) in
          let same : m'' ≡ m' = ground (arith, execute_unfolded s a t text id m info d k c, x) in
          let (w, newest, same_id, healthy, accepted, left) =
            finish_succeeded s t.started recorded (recorded + t.settling) id m info final k
              (ap (λ (n : RetryManager). lookup id n.retry_info) same ∙ l) h in
          (w, newest, same_id, healthy, accepted, ap RetryManager.write_buffer (sym same) ∙ left)
    ]
