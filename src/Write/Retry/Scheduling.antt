-- ===== src/Write/Retry/Scheduling.antt =====
-- retry.go: which writes `ScheduleRetry` takes.
use staravail.Common.{ℕ, ◌<◌, ◌≡◌, refl, sym, ap, ◌∙◌, arith}
use staravail.Common.{List, [], ◌∷◌, All, Text, text_eq, text_eq→eq}
use staravail.Common.{true, false, ltb, some}
use staravail.Common.{Bool-cases, Option-cases, ◌⊎◌, inl, inr}
use mathlib.Core.List.{Perm}
use staravail.Write.Types.{BufferedWrite, WriteBuffer, Entry, key_of}
use staravail.Write.Entries.Permutations.{any, any-perm}
use staravail.Write.Sort.{IsOrder, Sorted}
use staravail.Write.Buffer.{is_tablet_healthy, newer, paginate, get_buffered_writes}
use staravail.Write.Retry.{
  RetryTrigger, RetryInfo, RetryManagerConfig, RetryManager, Services, RetryError, Outcome, done,
  refused, lookup, find_write, buffered_write, may_retry, check_health, retry_info_of, store_retry,
  schedule_retry,
}
use staravail.Write.Retry.Store.{lookup-store}

newer-IsOrder : IsOrder newer
unfolding newer
newer-IsOrder = record {
  asymmetric = λ c d h. ground arith;
  negatively_transitive = λ c d e h k. ground arith;
}

none_newer :
    (e : Entry) (es : List Entry)
    → All (λ f. newer f e ≡ false) es
    → any (λ f. newer f e) es ≡ false
none_newer e [] a = refl
none_newer e (f ∷ fs) a = ground (arith, a.0, none_newer e fs a.1)

-- A listing of one write from offset 0 has the first of the sorted writes.
unfoldable pub head_of : List Entry → List BufferedWrite
head_of [] = []
head_of (e ∷ es) = e.write ∷ []

first_page : (es : List Entry) → paginate 1 0 es ≡ head_of es
unfolding paginate head_of
first_page [] = refl
first_page (e ∷ es) = ground arith

-- No write of the buffer is newer.
abbrev pub IsNewest : BufferedWrite → WriteBuffer → Type 0
IsNewest w b = any (λ f. ltb w.created_at f.write.created_at) b.entries ≡ false

found_head :
    (id : Text) (w : BufferedWrite) (es sorted : List Entry)
    → Perm es sorted
    → Sorted newer sorted
    → find_write id (head_of sorted) ≡ some w
    → (any (λ f. ltb w.created_at f.write.created_at) es ≡ false) × (text_eq w.id id ≡ true)
unfolding find_write head_of newer
found_head id w es [] p h k = absurd (ground arith)
found_head id w es (e ∷ rest) p h k = elim (Bool-cases (text_eq e.write.id id)) [
  | inl t ↦
      let same : e.write ≡ w = ground (arith, k, t) in
      (
        ap (λ (x : BufferedWrite). any (λ f. ltb x.created_at f.write.created_at) es) (sym same)
            ∙ any-perm (λ f. ltb e.write.created_at f.write.created_at) p
            ∙ ground (arith, none_newer e rest h.0),
        ap (λ (x : BufferedWrite). text_eq x.id id) (sym same) ∙ t,
      )
  | inr t ↦ absurd (ground (arith, k, t))
]

-- What the manager finds is the newest write of the buffer, or nothing.
pub buffered_write_lem :
    (s : Services) (id : Text) (b : WriteBuffer) (w : BufferedWrite)
    → buffered_write s id b ≡ some w
    → IsNewest w b × (w.id ≡ id)
unfolding buffered_write get_buffered_writes
buffered_write_lem s id b w h =
    let sorted = s.sorting.sort newer b.entries in
    let (newest, t) =
      found_head id w b.entries sorted (s.sorting.sort_perm newer b.entries)
        (s.sorting.sort_sorted newer newer-IsOrder b.entries)
        (ap (find_write id) (sym (first_page sorted)) ∙ h) in
    (newest, text_eq→eq w.id id t)

-- The conditions under which a retry was scheduled.
pub record Scheduled (s : Services) (now : ℕ) (write_id : Text) (trigger : RetryTrigger)
    (m : RetryManager) (retry_id : Text) (m' : RetryManager) (w : BufferedWrite) : Type 0 where
  pub the_write : w.id ≡ write_id
  pub newest : IsNewest w m.write_buffer
  pub attempts_left : w.retry_count < m.config.max_retry_attempts
  pub healthy : is_tablet_healthy s.health_checker (key_of w) ≡ some true
  pub named : retry_id ≡ s.retry_id write_id now
  pub recorded : lookup retry_id m'.retry_info ≡ some (retry_info_of s now trigger w)

may_retry_lem :
    (s : Services) (config : RetryManagerConfig) (w : BufferedWrite) (u : Unit)
    → may_retry s config w ≡ done u
    → (w.retry_count < config.max_retry_attempts)
      × (is_tablet_healthy s.health_checker (key_of w) ≡ some true)
unfolding may_retry check_health
may_retry_lem s config w u h = elim (Option-cases (is_tablet_healthy s.health_checker (key_of w))) [
  | inl k ↦ absurd (ground (arith, h, k))
  | inr (true, k) ↦ (ground (arith, h, k), k)
  | inr (false, k) ↦ absurd (ground (arith, h, k))
]

pub Outcome-cases :
    {A : Type 0} (o : Outcome A) → ((a : A) × (o ≡ done a)) ⊎ ((e : RetryError) × (o ≡ refused e))
Outcome-cases (done a) = inl (a, refl)
Outcome-cases (refused e) = inr (e, refl)

store_retry_lem :
    (now : ℕ) (info : RetryInfo) (m : RetryManager) (retry_id : Text)
    → (store_retry now info m).1 ≡ done retry_id
    → (retry_id ≡ info.id) × (lookup retry_id (store_retry now info m).0.retry_info ≡ some info)
unfolding store_retry
store_retry_lem now info m retry_id h =
    let same : retry_id ≡ info.id = ground (arith, h) in
    (same, rw same (lookup-store info m.retry_info))

-- When a retry was scheduled, its write has the id that was asked for, no write of the buffer is
-- newer, attempts are left, and its tablet is healthy; and the retry is recorded as waiting under
-- the id that is returned, which is made from the write's id and the time.
pub schedule_retry_lem :
    (s : Services) (now : ℕ) (write_id retry_id : Text) (trigger : RetryTrigger) (m : RetryManager)
    → (schedule_retry s now write_id trigger m).1 ≡ done retry_id
    → (w : BufferedWrite) × Scheduled s now write_id trigger m retry_id
        (schedule_retry s now write_id trigger m).0
        w
unfolding schedule_retry retry_info_of
schedule_retry_lem s now write_id retry_id trigger m h =
    elim (Option-cases (buffered_write s write_id m.write_buffer)) [
      | inl k ↦ absurd (ground (arith, h, k))
      | inr (w, k) ↦ elim (Outcome-cases (may_retry s m.config w)) [
        | inr (e, r) ↦ absurd (ground (arith, h, k, r))
        | inl (u, r) ↦
            let (newest, the_write) = buffered_write_lem s write_id m.write_buffer w k in
            let (attempts_left, healthy) = may_retry_lem s m.config w u r in
            let stored =
              store_retry_lem now (retry_info_of s now trigger w) m retry_id
                (rw (k, r, schedule_retry) at h) in
            (
              w,
              record {
                the_write = the_write;
                newest = newest;
                attempts_left = attempts_left;
                healthy = healthy;
                named = stored.0 ∙ ap (λ (i : Text). s.retry_id i now) the_write;
                recorded = rw (k, r, schedule_retry) stored.1;
              },
            )
      ]
    ]
