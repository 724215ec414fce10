-- ===== src/Batch/Aggregator/Limits.antt =====
-- aggregator.go: the numbers of the batch and the statistics, and the limits that they keep.
use staravail.Common.{
  ℕ, ◌+◌, ◌≤◌, ◌<◌, ◌≡◌, refl, sym, ap, ◌∙◌, arith, List, [], ◌∷◌, ◌++◌, length, length-append,
}
use staravail.Common.{Bool, true, ltb, Bool-cases, inl, inr, if-both}
use mathlib.Core.Path.{subst}
use staravail.Batch.Aggregator.{
  Message, BatchConfig, BatchAggregator, new_batch_aggregator, fill_config, with_default,
  is_building, is_ready, create_new_batch, limits_size, limits_count, message_size, append_message,
  check_size, check_count, add_message, Answer, take_batch, get_batch, mark_forced, force_batch,
  timer_fires, is_expired, check_expired_batch, close,
}
use staravail.Batch.Aggregator.Conservation.{
  Call, adds, gets, forces, fires, checks, closes, step, run, add_message-building,
  add_message-sealed,
}

abbrev pub total_size : List Message → ℕ
total_size [] = 0
total_size (m ∷ ms) = message_size m + total_size ms

-- The batch counts its messages and their bytes, the statistics repeat its numbers, and while it is
-- being built, it is below the limits that its strategy sets.
pub record IsConsistent (a : BatchAggregator) : Type 0 where
  pub same_length : a.current_batch.count ≡ length a.current_batch.messages
  pub sized : a.current_batch.size ≡ total_size a.current_batch.messages
  pub same_count : a.stats.current_batch_count ≡ a.current_batch.count
  pub same_size : a.stats.current_batch_size ≡ a.current_batch.size
  pub positive_count : 0 < a.config.max_batch_count
  pub positive_size : 0 < a.config.max_batch_size
  pub below_count :
      is_building a.current_batch.status ≡ true
      → limits_count a.config.strategy ≡ true
      → a.current_batch.count < a.config.max_batch_count
  pub below_size :
      is_building a.current_batch.status ≡ true
      → limits_size a.config.strategy ≡ true
      → a.current_batch.size < a.config.max_batch_size
  pub at_most_count :
      limits_count a.config.strategy ≡ true → a.current_batch.count ≤ a.config.max_batch_count

create-IsConsistent :
    (now : ℕ) (a : BatchAggregator) → IsConsistent a → IsConsistent (create_new_batch now a)
unfolding create_new_batch
create-IsConsistent now a v = record {
  same_length = refl;
  sized = refl;
  same_count = refl;
  same_size = refl;
  positive_count = v.positive_count;
  positive_size = v.positive_size;
  below_count = λ b l. v.positive_count;
  below_size = λ b l. v.positive_size;
  at_most_count = λ l. omega arith;
}

total_size-append : (ms ns : List Message) → total_size (ms ++ ns) ≡ total_size ms + total_size ns
total_size-append [] ns = omega arith
total_size-append (m ∷ ms) ns = omega (arith, total_size-append ms ns)

fresh_builds :
    (now : ℕ) (a : BatchAggregator)
    → is_building (create_new_batch now a).current_batch.status ≡ true
unfolding create_new_batch
fresh_builds now a = refl

added-IsConsistent :
    (now : ℕ) (m : Message) (a : BatchAggregator)
    → IsConsistent a
    → is_building a.current_batch.status ≡ true
    → IsConsistent (check_count now (check_size now (append_message m a)))
unfolding append_message check_count check_size
added-IsConsistent now m a v e = record {
  same_length = ground (arith, v.same_length, length-append a.current_batch.messages (m ∷ []));
  sized = ground (arith, v.sized, total_size-append a.current_batch.messages (m ∷ []));
  same_count = ground (arith, v.same_count);
  same_size = ground (arith, v.same_size);
  positive_count = ground (arith, v.positive_count);
  positive_size = ground (arith, v.positive_size);
  below_count = λ b l. ground (arith, b, l);
  below_size = λ b l. ground (arith, b, l);
  at_most_count = λ l. ground (arith, l, v.below_count e);
}

add-IsConsistent :
    (now : ℕ) (m : Message) (a : BatchAggregator)
    → IsConsistent a
    → IsConsistent (add_message now m a).0
unfolding add_message
add-IsConsistent now m a v = elim (Bool-cases a.closed) [
  | inl c ↦ simp c v
  | inr c ↦ elim (Bool-cases (is_building a.current_batch.status)) [
    | inl b ↦
        subst (λ (x : BatchAggregator × Bool). IsConsistent x.0)
          (sym (add_message-building now m a c b)) (added-IsConsistent now m a v b)
    | inr b ↦
        subst (λ (x : BatchAggregator × Bool). IsConsistent x.0)
          (sym (add_message-sealed now m a c b))
          (added-IsConsistent now m (create_new_batch now a) (create-IsConsistent now a v)
            (fresh_builds now a))
  ]
]

-- A change of the status that does not open the batch again.
sealed-IsConsistent :
    (a b : BatchAggregator)
    → IsConsistent a
    → b.config ≡ a.config
    → b.current_batch.messages ≡ a.current_batch.messages
    → b.current_batch.count ≡ a.current_batch.count
    → b.current_batch.size ≡ a.current_batch.size
    → b.stats.current_batch_count ≡ a.stats.current_batch_count
    → b.stats.current_batch_size ≡ a.stats.current_batch_size
    → (is_building b.current_batch.status ≡ true → is_building a.current_batch.status ≡ true)
    → IsConsistent b
sealed-IsConsistent a b v c m n s sn ss w = record {
  same_length = n ∙ v.same_length ∙ ap (length {A = Message}) (sym m);
  sized = s ∙ v.sized ∙ ap total_size (sym m);
  same_count = sn ∙ v.same_count ∙ sym n;
  same_size = ss ∙ v.same_size ∙ sym s;
  positive_count = rw c v.positive_count;
  positive_size = rw c v.positive_size;
  below_count = λ t l.
      rw (n, c)
        (v.below_count (w t) (ap (λ (x : BatchConfig). limits_count x.strategy) (sym c) ∙ l));
  below_size = λ t l.
      rw (s, c) (v.below_size (w t) (ap (λ (x : BatchConfig). limits_size x.strategy) (sym c) ∙ l));
  at_most_count = λ l.
      rw (n, c) (v.at_most_count (ap (λ (x : BatchConfig). limits_count x.strategy) (sym c) ∙ l));
}

timer-IsConsistent :
    (now : ℕ) (a : BatchAggregator) → IsConsistent a → IsConsistent (timer_fires now a)
unfolding timer_fires
timer-IsConsistent now a v =
    sealed-IsConsistent a (timer_fires now a) v (ground arith) (ground arith) (ground arith)
      (ground arith) (ground arith) (ground arith) (λ t. ground (arith, t))

close-IsConsistent : (now : ℕ) (a : BatchAggregator) → IsConsistent a → IsConsistent (close now a)
unfolding close
close-IsConsistent now a v =
    sealed-IsConsistent a (close now a) v (ground arith) (ground arith) (ground arith)
      (ground arith) (ground arith) (ground arith) (λ t. ground (arith, t))

taken-IsConsistent :
    (now : ℕ) (a b : BatchAggregator)
    → IsConsistent a
    → b.config ≡ a.config
    → IsConsistent (take_batch now b).0
unfolding take_batch create_new_batch
taken-IsConsistent now a b v c = record {
  same_length = refl;
  sized = refl;
  same_count = refl;
  same_size = refl;
  positive_count = rw c v.positive_count;
  positive_size = rw c v.positive_size;
  below_count = λ t l. rw c v.positive_count;
  below_size = λ t l. rw c v.positive_size;
  at_most_count = λ l. omega arith;
}

step-IsConsistent : (c : Call) (a : BatchAggregator) → IsConsistent a → IsConsistent (step c a)
unfolding step get_batch force_batch check_expired_batch
step-IsConsistent (adds now m) a v = add-IsConsistent now m a v
step-IsConsistent (gets now) a v =
    if-both (λ (x : BatchAggregator × Answer). IsConsistent x.0) a.closed _ _ v
      (if-both (λ (x : BatchAggregator × Answer). IsConsistent x.0)
        (is_ready a.current_batch.status) _ _ (taken-IsConsistent now a a v refl) v)
step-IsConsistent (forces now) a v =
    if-both (λ (x : BatchAggregator × Answer). IsConsistent x.0) a.closed _ _ v
      (if-both (λ (x : BatchAggregator × Answer). IsConsistent x.0) (ltb 0 a.current_batch.count) _
        _ (taken-IsConsistent now a (mark_forced now a) v refl) v)
step-IsConsistent (fires now) a v = timer-IsConsistent now a v
step-IsConsistent (checks now) a v =
    if-both IsConsistent (is_expired now a) _ _ (create-IsConsistent now a v) v
step-IsConsistent (closes now) a v = close-IsConsistent now a v

run_from-IsConsistent :
    (cs : List Call) (a : BatchAggregator) → IsConsistent a → IsConsistent (run cs a)
unfolding run
run_from-IsConsistent [] a v = v
run_from-IsConsistent (c ∷ cs) a v = run_from-IsConsistent cs (step c a) (step-IsConsistent c a v)

with_default-pos : (d n : ℕ) → 0 < d → 0 < with_default d n
unfolding with_default
with_default-pos d n h = ground arith

-- After any sequence of calls on a new aggregator, the count and the size of the current batch are
-- those of its messages, the statistics repeat them, and with a strategy that limits them a batch
-- that is being built is below its limits, and no batch has more messages than its limit.
pub run-IsConsistent :
    (now : ℕ) (config : BatchConfig) (cs : List Call)
    → IsConsistent (run cs (new_batch_aggregator now config))
unfolding new_batch_aggregator create_new_batch fill_config
run-IsConsistent now config cs =
    let size = with_default-pos 10485760 config.max_batch_size (omega arith) in
    let count = with_default-pos 1000 config.max_batch_count (omega arith) in
    run_from-IsConsistent cs (new_batch_aggregator now config) (record {
      same_length = refl;
      sized = refl;
      same_count = refl;
      same_size = refl;
      positive_count = count;
      positive_size = size;
      below_count = λ b l. count;
      below_size = λ b l. size;
      at_most_count = λ l. omega arith;
    })
