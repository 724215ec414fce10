-- ===== src/Batch/Partitions/Separation.antt =====
-- aggregator.go: the aggregators of different keys do not meet.
use staravail.Common.{
  ℕ, ◌≡◌, refl, sym, ap, ◌∙◌, arith, List, [], ◌∷◌, ◌++◌, Text, text_eq, text_eq→eq, text_eq_refl,
  Option, none, some,
}
use staravail.Common.{
  Bool, false, not, ◌&&◌, if◌then◌else◌, if-true, if-false, Bool-cases, inl, inr,
}
use mathlib.Core.Path.{subst}
use staravail.Batch.Aggregator.{
  Message, Batch, BatchAggregator, add_message, Answer, get_batch, is_ready, is_batch_ready,
  force_batch,
}
use staravail.Batch.Aggregator.Conservation.{Call, adds, gets, forces, step, run}
use staravail.Batch.Partitions.{
  TablePartitionAggregator, key_for, find_aggregator, put_aggregator, found_or, give_message,
  add_to_partition, take_ready, get_ready_batches, force_all, force_batches,
}

pub data PartitionCall : Type 0 where
  puts : ℕ → Text → Text → Message → PartitionCall
  takes flushes : ℕ → PartitionCall

-- What the calls are for the aggregator of a key.
abbrev calls_for : Text → PartitionCall → List Call
calls_for key (puts now table partition m) =
    if text_eq (key_for table partition) key then adds now m ∷ [] else []
calls_for key (takes now) = gets now ∷ []
calls_for key (flushes now) = forces now ∷ []

unfoldable pub project : Text → List PartitionCall → List Call
project key [] = []
project key (c ∷ cs) = calls_for key c ++ project key cs

find-put_same :
    (key : Text) (a : BatchAggregator) (es : List (Text × BatchAggregator))
    → find_aggregator key (put_aggregator key a es) ≡ some a
unfolding find_aggregator put_aggregator
find-put_same key a [] = if-true _ _ _ (text_eq_refl key)
find-put_same key a ((k, b) ∷ es) = elim (Bool-cases (text_eq k key)) [
  | inl e ↦ ap (find_aggregator key) (if-true _ _ _ e) ∙ if-true _ _ _ (text_eq_refl key)
  | inr e ↦ ap (find_aggregator key) (if-false _ _ _ e) ∙ if-false _ _ _ e ∙ find-put_same key a es
]

find-put_other :
    (key other : Text) (a : BatchAggregator) (es : List (Text × BatchAggregator))
    → text_eq key other ≡ false
    → find_aggregator other (put_aggregator key a es) ≡ find_aggregator other es
unfolding find_aggregator put_aggregator
find-put_other key other a [] h = if-false _ _ _ h
find-put_other key other a ((k, b) ∷ es) h = elim (Bool-cases (text_eq k key)) [
  | inl e ↦
      ap (find_aggregator other) (if-true _ _ _ e)
      ∙ if-false _ _ _ h
      ∙ sym (if-false _ _ _ (ap (λ (x : Text). text_eq x other) (text_eq→eq k key e) ∙ h))
  | inr e ↦
      ap (find_aggregator other) (if-false _ _ _ e)
      ∙ ap (λ (o : Option BatchAggregator). if text_eq k other then some b else o)
          (find-put_other key other a es h)
]

not_ready : (now : ℕ) (a : BatchAggregator) → is_batch_ready a ≡ false → (get_batch now a).0 ≡ a
unfolding is_batch_ready get_batch
not_ready now a h = elim (Bool-cases a.closed) [
  | inl c ↦ ap (λ (r : BatchAggregator × Answer). r.0) (if-true _ _ _ c)
  | inr c ↦
      ap (λ (r : BatchAggregator × Answer). r.0)
        (if-false _ _ _ c
          ∙ if-false _ _ _
              (sym (ap (λ (b : Bool). not b && is_ready a.current_batch.status) c) ∙ h))
]

-- A step of every aggregator.
abbrev each :
    (BatchAggregator → BatchAggregator)
    → List (Text × BatchAggregator)
    → List (Text × BatchAggregator)
each g [] = []
each g ((k, a) ∷ es) = (k, g a) ∷ each g es

some_eq : (a b : BatchAggregator) → some a ≡ some b → a ≡ b
some_eq a b h = ap (λ (o : Option BatchAggregator). found a o) h
  where
    found : BatchAggregator → Option BatchAggregator → BatchAggregator
    found x none = x
    found x (some y) = y

find-each :
    (g : BatchAggregator → BatchAggregator) (key : Text) (a : BatchAggregator)
    (es : List (Text × BatchAggregator))
    → find_aggregator key es ≡ some a
    → find_aggregator key (each g es) ≡ some (g a)
unfolding find_aggregator
find-each g key a [] h = absurd (ground arith)
find-each g key a ((k, b) ∷ es) h = elim (Bool-cases (text_eq k key)) [
  | inl e ↦
      if-true _ _ _ e
      ∙ ap (λ (x : BatchAggregator). some (g x))
          (some_eq b a (sym (if-true _ _ (find_aggregator key es) e) ∙ h))
  | inr e ↦ if-false _ _ _ e ∙ find-each g key a es (sym (if-false _ (some b) _ e) ∙ h)
]

take-each :
    (now : ℕ) (es : List (Text × BatchAggregator))
    → (take_ready now es).0 ≡ each (step (gets now)) es
unfolding take_ready step
take-each now [] = refl
take-each now ((k, a) ∷ es) = elim (Bool-cases (is_batch_ready a)) [
  | inl e ↦
      ap (λ (r : List (Text × BatchAggregator) × List Batch). r.0) (if-true _ _ _ e)
      ∙ ap (λ (l : List (Text × BatchAggregator)). (k, (get_batch now a).0) ∷ l) (take-each now es)
  | inr e ↦
      ap (λ (r : List (Text × BatchAggregator) × List Batch). r.0) (if-false _ _ _ e)
      ∙ ap (λ (x : BatchAggregator). (k, x) ∷ (take_ready now es).0) (sym (not_ready now a e))
      ∙ ap (λ (l : List (Text × BatchAggregator)). (k, (get_batch now a).0) ∷ l) (take-each now es)
]

force-each :
    (now : ℕ) (es : List (Text × BatchAggregator))
    → (force_all now es).0 ≡ each (step (forces now)) es
unfolding force_all step
force-each now [] = refl
force-each now ((k, a) ∷ es) =
    ap (λ (l : List (Text × BatchAggregator)). (k, (force_batch now a).0) ∷ l) (force-each now es)

module _ (factory : Text → Text → Option BatchAggregator) where
  unfoldable pub step_partition :
      PartitionCall → TablePartitionAggregator → TablePartitionAggregator
  step_partition (puts now table partition m) t =
      (add_to_partition factory now table partition m t).0
  step_partition (takes now) t = (get_ready_batches now t).0
  step_partition (flushes now) t = (force_batches now t).0

  unfoldable pub run_partitions :
      List PartitionCall → TablePartitionAggregator → TablePartitionAggregator
  run_partitions [] t = t
  run_partitions (c ∷ cs) t = run_partitions cs (step_partition c t)

  -- Still open, and an aggregator stands under the key.
  pub record Has (key : Text) (a : BatchAggregator) (t : TablePartitionAggregator) : Type 0 where
    pub unclosed : t.closed ≡ false
    pub holds : find_aggregator key t.aggregators ≡ some a

  give-Has :
      (now : ℕ) (other key : Text) (m : Message) (o : Option BatchAggregator) (a : BatchAggregator)
      (t : TablePartitionAggregator)
      → text_eq other key ≡ false
      → Has key a t
      → Has key a (give_message now other m o t).0
  give-Has now other key m none a t d h = h
  give-Has now other key m (some b) a t d h = record {
    unclosed = h.unclosed;
    holds = find-put_other other key (add_message now m b).0 t.aggregators d ∙ h.holds;
  }

  put-Has :
      (now : ℕ) (table partition key : Text) (m : Message) (a : BatchAggregator)
      (t : TablePartitionAggregator)
      → Has key a t
      → Has key
          (run (calls_for key (puts now table partition m)) a)
          (add_to_partition factory now table partition m t).0
  unfolding add_to_partition run step
  put-Has now table partition key m a t h =
      let own = key_for table partition in
      let gives =
        give_message now own m
          (found_or (find_aggregator own t.aggregators) (factory table partition)) t in
      subst
        (λ (r : TablePartitionAggregator × Bool).
          Has key (run (calls_for key (puts now table partition m)) a) r.0)
        (sym (if-false _ _ gives h.unclosed))
        (elim (Bool-cases (text_eq own key)) [
          | inl e ↦
              let k = text_eq→eq own key e in
              let found = ap (λ (x : Text). find_aggregator x t.aggregators) k ∙ h.holds in
              subst (λ (cs : List Call). Has key (run cs a) gives.0) (sym (if-true _ _ _ e))
                (subst
                  (λ (o : Option BatchAggregator).
                    Has key (add_message now m a).0
                      (give_message now own m (found_or o (factory table partition)) t).0)
                  (sym found)
                  (record {
                    unclosed = h.unclosed;
                    holds =
                        ap
                          (λ (x : Text).
                            find_aggregator key
                              (put_aggregator x (add_message now m a).0 t.aggregators))
                          k
                        ∙ find-put_same key (add_message now m a).0 t.aggregators;
                  }))
          | inr e ↦
              subst (λ (cs : List Call). Has key (run cs a) gives.0) (sym (if-false _ _ _ e))
                (give-Has now own key m _ a t e h)
        ])

  step-Has :
      (key : Text) (c : PartitionCall) (a : BatchAggregator) (t : TablePartitionAggregator)
      → Has key a t
      → Has key (run (calls_for key c) a) (step_partition c t)
  unfolding step_partition get_ready_batches force_batches run
  step-Has key (puts now table partition m) a t h = put-Has now table partition key m a t h
  step-Has key (takes now) a t h =
      subst
        (λ (r : TablePartitionAggregator × Option (List Batch)). Has key (step (gets now) a) r.0)
        (sym (if-false _ _ _ h.unclosed))
        (record {
          unclosed = h.unclosed;
          holds =
              ap (find_aggregator key) (take-each now t.aggregators)
              ∙ find-each (step (gets now)) key a t.aggregators h.holds;
        })
  step-Has key (flushes now) a t h =
      subst
        (λ (r : TablePartitionAggregator × Option (List Batch)). Has key (step (forces now) a) r.0)
        (sym (if-false _ _ _ h.unclosed))
        (record {
          unclosed = h.unclosed;
          holds =
              ap (find_aggregator key) (force-each now t.aggregators)
              ∙ find-each (step (forces now)) key a t.aggregators h.holds;
        })

  run_calls : (cs ds : List Call) (a : BatchAggregator) → run (cs ++ ds) a ≡ run ds (run cs a)
  unfolding run
  run_calls [] ds a = refl
  run_calls (c ∷ cs) ds a = run_calls cs ds (step c a)

  -- In an aggregator for tables and partitions that is not closed and has an aggregator under a
  -- key, any sequence of additions, requests and forced batches leaves under the key what the
  -- additions of that key, the requests and the forced batches alone make of its aggregator,
  -- whatever the factory gives.
  pub run_partitions-Has :
      (key : Text) (cs : List PartitionCall) (a : BatchAggregator) (t : TablePartitionAggregator)
      → Has key a t
      → Has key (run (project key cs) a) (run_partitions cs t)
  unfolding run_partitions project run
  run_partitions-Has key [] a t h = h
  run_partitions-Has key (c ∷ cs) a t h =
      subst (λ (b : BatchAggregator). Has key b (run_partitions cs (step_partition c t)))
        (sym (run_calls (calls_for key c) (project key cs) a))
        (run_partitions-Has key cs (run (calls_for key c) a) (step_partition c t)
          (step-Has key c a t h))
