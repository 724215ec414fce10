-- ===== src/Write/Retry/Interleaved/Progress.antt =====
-- retry.go: what holds of a retry at each stage of its execution, whatever is called meanwhile.
use staravail.Common.{ℕ, ◌+◌, ◌≤◌, ◌≡◌, refl, sym, ap, ◌∙◌, arith, Text, false}
use staravail.Common.{none, some}
use mathlib.Core.Path.{subst}
use staravail.Write.Types.{WriteBuffer}
use staravail.Write.Retry.{
  RetryInfo, RetryManagerConfig, RetryManager, Services, lookup, cancellable,
}
use staravail.Write.Retry.Backoff.{Arithmetic, calculate_backoff}
use staravail.Write.Retry.Execute.{
  Attempt, stopped, executed, try_write, begin_retry, record_attempt, settle_attempt, delay,
}
use staravail.Write.Retry.Outcomes.{
  status_of, error_of, ended, started, marked, lookup-begin, begin_known, lookup-record,
  settle-retry_info,
}
use staravail.Write.Retry.Interleaved.{
  Phase, idle, resting, awake, tried, recorded, settled, returned, panicked, System, OtherCall,
  Step, passes, calls, misses, begins, panics, wakes, context_ends, tries, records, settles, Run,
  start, later,
}
use staravail.Write.Retry.Interleaved.Rely.{OtherCall-finds, OtherCall-config}

-- The attempt of a retry, on some state of the buffer.
abbrev pub IsAttempt : Services → RetryInfo → Attempt → Type 0
IsAttempt s retry attempt =
    (b : WriteBuffer) × (info : RetryInfo) × (info.write_id ≡ retry.write_id)
    × (attempt ≡ try_write s info b)

-- Nothing was begun before `since`.
module _ (s : Services) (a : Arithmetic) (id : Text) (config : RetryManagerConfig)
    (retry : RetryInfo) (since : ℕ) where
  abbrev IsBackoff : ℕ → Type 0
  IsBackoff d = calculate_backoff a config retry.attempt_number ≡ some d

  -- The record of a retry whose backoff is over.
  abbrev HasWaited : ℕ → RetryManager → Type 0
  HasWaited clock m =
      (d : ℕ) × IsBackoff d
      × (info : RetryInfo) × (lookup id m.retry_info ≡ some info)
      × (since ≤ info.started_at)
      × (info.started_at + delay d ≤ clock)

  -- The record of a retry whose attempt is recorded.
  abbrev HasEnded : ℕ → Attempt → RetryManager → Type 0
  HasEnded clock attempt m =
      (d : ℕ) × IsBackoff d
      × (info : RetryInfo) × (lookup id m.retry_info ≡ some info)
      × (since ≤ info.started_at)
      × (info.started_at + delay d ≤ info.completed_at)
      × (info.completed_at ≤ clock)
      × (info.status ≡ status_of attempt)

  abbrev pub Progress : ℕ → RetryManager → Phase → Type 0
  Progress clock m idle =
      (since ≤ clock)
      × (m.config ≡ config)
      × (info : RetryInfo) × (lookup id m.retry_info ≡ some info)
      × (info.attempt_number ≡ retry.attempt_number)
      × (info.write_id ≡ retry.write_id)
  Progress clock m (resting begun d) =
      IsBackoff d
      × (since ≤ begun.started_at)
      × (begun.write_id ≡ retry.write_id)
      × (info : RetryInfo) × (lookup id m.retry_info ≡ some info)
      × (info.started_at ≡ begun.started_at)
  Progress clock m (awake begun) = (begun.write_id ≡ retry.write_id) × HasWaited clock m
  Progress clock m (tried attempt) = IsAttempt s retry attempt × HasWaited clock m
  Progress clock m (recorded attempt) = IsAttempt s retry attempt × HasEnded clock attempt m
  Progress clock m (settled attempt) = IsAttempt s retry attempt × HasEnded clock attempt m
  Progress clock m returned = Unit {0}
  Progress clock m panicked = Unit {0}

  waited_passes : (clock n : ℕ) (m : RetryManager) → HasWaited clock m → HasWaited (clock + n) m
  waited_passes clock n m (d, b, info, k, l, h) = (d, b, info, k, l, omega (arith, h))

  ended_passes :
      (clock n : ℕ) (attempt : Attempt) (m : RetryManager)
      → HasEnded clock attempt m
      → HasEnded (clock + n) attempt m
  ended_passes clock n attempt m (d, b, info, k, l, h, c, e) =
      (d, b, info, k, l, h, omega (arith, c), e)

  Progress-passes :
      (clock n : ℕ) (m : RetryManager) (p : Phase) → Progress clock m p → Progress (clock + n) m p
  Progress-passes clock n m idle (l, h, info, k, e, w) = (omega (arith, l), h, info, k, e, w)
  Progress-passes clock n m (resting begun d) h = h
  Progress-passes clock n m (awake begun) (w, h) = (w, waited_passes clock n m h)
  Progress-passes clock n m (tried attempt) (w, h) = (w, waited_passes clock n m h)
  Progress-passes clock n m (recorded attempt) (w, h) = (w, ended_passes clock n attempt m h)
  Progress-passes clock n m (settled attempt) (w, h) = (w, ended_passes clock n attempt m h)
  Progress-passes clock n m returned h = h
  Progress-passes clock n m panicked h = h

  waited_calls :
      (now : ℕ) {m m' : RetryManager} → OtherCall id now m m' → HasWaited now m → HasWaited now m'
  waited_calls now c (d, b, info, k, l, h) =
      let (new, found, same) = OtherCall-finds info c k in
      (d, b, new, found, omega (arith, l, same.started_kept), omega (arith, h, same.started_kept))

  status_of-ended : (attempt : Attempt) → cancellable (status_of attempt) ≡ false
  unfolding status_of
  status_of-ended (stopped e) = refl
  status_of-ended (executed w (some err)) = refl
  status_of-ended (executed w none) = refl

  ended_calls :
      (now : ℕ) {m m' : RetryManager} (attempt : Attempt)
      → OtherCall id now m m'
      → HasEnded now attempt m
      → HasEnded now attempt m'
  ended_calls now attempt c (d, b, info, k, l, h, f, e) =
      let (new, found, same) = OtherCall-finds info c k in
      let unchanged = same.end_kept (ap cancellable e ∙ status_of-ended attempt) in
      (d, b, info, found ∙ ap some unchanged, l, h, f, e)

  Progress-calls :
      (now : ℕ) {m m' : RetryManager} (p : Phase)
      → OtherCall id now m m'
      → Progress now m p
      → Progress now m' p
  Progress-calls now idle c (l, same_config, info, k, attempt, write) =
      let (new, found, same) = OtherCall-finds info c k in
      (
        l,
        OtherCall-config c ∙ same_config,
        new,
        found,
        same.attempt_kept ∙ attempt,
        same.write_kept ∙ write,
      )
  Progress-calls now (resting begun d) c (b, l, write, info, k, e) =
      let (new, found, same) = OtherCall-finds info c k in
      (b, l, write, new, found, same.started_kept ∙ e)
  Progress-calls now (awake begun) c (w, h) = (w, waited_calls now c h)
  Progress-calls now (tried attempt) c (w, h) = (w, waited_calls now c h)
  Progress-calls now (recorded attempt) c (w, h) = (w, ended_calls now attempt c h)
  Progress-calls now (settled attempt) c (w, h) = (w, ended_calls now attempt c h)
  Progress-calls now returned c h = tt
  Progress-calls now panicked c h = tt

  Progress-begins :
      (now : ℕ) (m m' : RetryManager) (begun : RetryInfo) (d : ℕ)
      → begin_retry now id m ≡ (m', some begun)
      → calculate_backoff a m'.config begun.attempt_number ≡ some d
      → Progress now m idle
      → Progress now m' (resting begun d)
  Progress-begins now m m' begun d e c (l, same_config, info, k, attempt, write) =
      let known = begin_known now id m info k in
      let same_manager : marked now info m ≡ m' = ap (λ p. p.0) (sym known ∙ e) in
      let same_begun : started now info ≡ begun = ground (arith, ap (λ p. p.1) (sym known ∙ e)) in
      let config_kept : config ≡ m'.config =
        sym same_config ∙ ap RetryManager.config same_manager in
      let attempt_kept : retry.attempt_number ≡ begun.attempt_number =
        sym attempt ∙ ap RetryInfo.attempt_number same_begun in
      (
        ap (λ (q : RetryManagerConfig). calculate_backoff a q retry.attempt_number) config_kept
            ∙ ap (calculate_backoff a m'.config) attempt_kept
            ∙ c,
        omega (arith, l, ap RetryInfo.started_at same_begun),
        sym (ap RetryInfo.write_id same_begun) ∙ write,
        started now info,
        ap (λ (n : RetryManager). lookup id n.retry_info) (sym same_manager)
            ∙ lookup-begin now id m info k,
        ap RetryInfo.started_at same_begun,
      )

  Progress-records :
      (now : ℕ) (m : RetryManager) (attempt : Attempt)
      → Progress now m (tried attempt)
      → Progress now (record_attempt s now id attempt m) (recorded attempt)
  Progress-records now m attempt (w, (d, b, info, k, l, h)) = (
    w,
    (
      d,
      b,
      ended now (status_of attempt) (error_of s attempt info.error) info,
      lookup-record s now id attempt m info k,
      l,
      h,
      omega arith,
      refl,
    ),
  )

  Progress-settles :
      (now : ℕ) (m : RetryManager) (attempt : Attempt)
      → Progress now m (recorded attempt)
      → Progress now (settle_attempt now attempt m) (settled attempt)
  Progress-settles now m attempt (w, (d, b, info, k, l, h, f, e)) =
      (w, (d, b, info, ap (lookup id) (settle-retry_info now attempt m) ∙ k, l, h, f, e))

  abbrev IsIn : System → Type 0
  IsIn x = Progress x.clock x.manager x.phase

  pub in_phase : (x : System) {p : Phase} → x.phase ≡ p → IsIn x → Progress x.clock x.manager p
  in_phase x e h = subst (Progress x.clock x.manager) e h

  Progress-wakes :
      (now : ℕ) (m : RetryManager) (begun : RetryInfo) (d : ℕ)
      → begun.started_at + delay d ≤ now
      → Progress now m (resting begun d)
      → Progress now m (awake begun)
  Progress-wakes now m begun d le (b, l, w, info, k, e) =
      (w, (d, b, info, k, omega (arith, l, e), omega (arith, le, e)))

  Progress-tries :
      (now : ℕ) (m : RetryManager) (begun : RetryInfo)
      → Progress now m (awake begun)
      → Progress now m (tried (try_write s begun m.write_buffer))
  Progress-tries now m begun (w, h) = ((m.write_buffer, begun, w, refl), h)

  Step_progress : {x y : System} → Step s a id x y → IsIn x → IsIn y
  Step_progress {x} (passes n) h = Progress-passes x.clock n x.manager x.phase h
  Step_progress {x} (calls c) h = Progress-calls x.clock x.phase c h
  Step_progress (misses e k) h = tt
  Step_progress {x} (begins {m} {info} {backoff} e k c) h =
      Progress-begins x.clock x.manager m info backoff k c (in_phase x e h)
  Step_progress (panics e k c) h = tt
  Step_progress {x} (wakes {info} {backoff} e le) h =
      Progress-wakes x.clock x.manager info backoff le (in_phase x e h)
  Step_progress (context_ends text e) h = tt
  Step_progress {x} (tries {info} e) h = Progress-tries x.clock x.manager info (in_phase x e h)
  Step_progress {x} (records {attempt} e) h =
      Progress-records x.clock x.manager attempt (in_phase x e h)
  Step_progress {x} (settles {attempt} e) h =
      Progress-settles x.clock x.manager attempt (in_phase x e h)

  pub Run_progress : {x y : System} → IsIn x → Run s a id x y → IsIn y
  Run_progress h start = h
  Run_progress h (later r st) = Step_progress st (Run_progress h r)
