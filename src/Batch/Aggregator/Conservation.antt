-- ===== src/Batch/Aggregator/Conservation.antt =====
-- aggregator.go: where the messages of the aggregator go.
use staravail.Common.{ℕ, ◌≡◌, refl, sym, ap, ◌∙◌, arith, List, [], ◌∷◌, ◌++◌}
use staravail.Common.{
  true, false, ◌||◌, ltb, if◌then◌else◌, Bool-cases, inl, inr, if-true, if-false,
}
use mathlib.Core.List.{append_assoc, append-nil}
use staravail.Batch.Aggregator.{
  Message, BatchConfig, BatchAggregator, new_batch_aggregator, is_building, is_ready,
  create_new_batch, append_message, check_size, check_count, add_message, Answer, given, take_batch,
  get_batch, force_batch, timer_fires, is_expired, check_expired_batch, close,
}

-- The calls, the batch timer and the expiration task.
pub data Call : Type 0 where
  adds : ℕ → Message → Call
  gets forces fires checks closes : ℕ → Call

unfoldable pub step : Call → BatchAggregator → BatchAggregator
step (adds now m) a = (add_message now m a).0
step (gets now) a = (get_batch now a).0
step (forces now) a = (force_batch now a).0
step (fires now) a = timer_fires now a
step (checks now) a = check_expired_batch now a
step (closes now) a = close now a

-- What a call hands to its caller, what it drops, and what it takes in.
pub data Event : Type 0 where
  gave lost : List Message → Event

abbrev pub answered : Answer → List Event
answered (given b) = gave b.messages ∷ []
answered _ = []

unfoldable pub events : Call → BatchAggregator → List Event
events (adds now m) a =
    if a.closed || is_building a.current_batch.status
    then []
    else lost a.current_batch.messages ∷ []
events (gets now) a = answered (get_batch now a).1
events (forces now) a = answered (force_batch now a).1
events (fires now) a = []
events (checks now) a = if is_expired now a then lost a.current_batch.messages ∷ [] else []
events (closes now) a = []

abbrev pub accepted : Call → BatchAggregator → List Message
accepted (adds now m) a = if a.closed then [] else m ∷ []
accepted _ a = []

abbrev pub messages_of : List Event → List Message
messages_of [] = []
messages_of (gave ms ∷ es) = ms ++ messages_of es
messages_of (lost ms ∷ es) = ms ++ messages_of es

messages_of-append :
    (es fs : List Event) → messages_of (es ++ fs) ≡ messages_of es ++ messages_of fs
messages_of-append [] fs = refl
messages_of-append (gave ms ∷ es) fs =
    ap (λ (l : List Message). ms ++ l) (messages_of-append es fs)
    ∙ sym (append_assoc ms (messages_of es) (messages_of fs))
messages_of-append (lost ms ∷ es) fs =
    ap (λ (l : List Message). ms ++ l) (messages_of-append es fs)
    ∙ sym (append_assoc ms (messages_of es) (messages_of fs))

unfoldable pub run : List Call → BatchAggregator → BatchAggregator
run [] a = a
run (c ∷ cs) a = run cs (step c a)

unfoldable pub trace : List Call → BatchAggregator → List Event
trace [] a = []
trace (c ∷ cs) a = events c a ++ trace cs (step c a)

unfoldable pub all_accepted : List Call → BatchAggregator → List Message
all_accepted [] a = []
all_accepted (c ∷ cs) a = accepted c a ++ all_accepted cs (step c a)

-- The two ways of an addition.
pub add_message-building :
    (now : ℕ) (m : Message) (a : BatchAggregator)
    → a.closed ≡ false
    → is_building a.current_batch.status ≡ true
    → add_message now m a ≡ (check_count now (check_size now (append_message m a)), true)
unfolding add_message
add_message-building now m a c b =
    if-false a.closed _ _ c
    ∙ ap (λ (x : BatchAggregator). (check_count now (check_size now (append_message m x)), true))
        (if-true (is_building a.current_batch.status) _ _ b)

pub add_message-sealed :
    (now : ℕ) (m : Message) (a : BatchAggregator)
    → a.closed ≡ false
    → is_building a.current_batch.status ≡ false
    → add_message now m a
      ≡ (check_count now (check_size now (append_message m (create_new_batch now a))), true)
unfolding add_message
add_message-sealed now m a c b =
    if-false a.closed _ _ c
    ∙ ap (λ (x : BatchAggregator). (check_count now (check_size now (append_message m x)), true))
        (if-false (is_building a.current_batch.status) _ _ b)

-- The checks behind an addition leave the messages alone.
checks_messages :
    (now : ℕ) (a : BatchAggregator)
    → (check_count now (check_size now a)).current_batch.messages ≡ a.current_batch.messages
unfolding check_count check_size
checks_messages now a = ground arith

add_messages :
    (now : ℕ) (m : Message) (a : BatchAggregator)
    → messages_of (events (adds now m) a) ++ (add_message now m a).0.current_batch.messages
      ≡ a.current_batch.messages ++ accepted (adds now m) a
unfolding add_message events append_message create_new_batch
add_messages now m a = elim (Bool-cases a.closed) [
  | inl c ↦ rw c (sym (append-nil a.current_batch.messages))
  | inr c ↦ elim (Bool-cases (is_building a.current_batch.status)) [
    | inl b ↦ rw (c, b, add_message) (checks_messages now _)
    | inr b ↦
        rw (c, b, add_message)
          (append_assoc a.current_batch.messages [] _
            ∙ ap (λ (l : List Message). a.current_batch.messages ++ l) (checks_messages now _))
  ]
]

get_messages :
    (now : ℕ) (a : BatchAggregator)
    → messages_of (answered (get_batch now a).1) ++ (get_batch now a).0.current_batch.messages
      ≡ a.current_batch.messages ++ []
unfolding get_batch take_batch create_new_batch
get_messages now a = elim (Bool-cases a.closed) [
  | inl c ↦ rw c (sym (append-nil a.current_batch.messages))
  | inr c ↦ elim (Bool-cases (is_ready a.current_batch.status)) [
    | inl r ↦ rw (c, r) (append-nil (a.current_batch.messages ++ []))
    | inr r ↦ rw (c, r) (sym (append-nil a.current_batch.messages))
  ]
]

force_messages :
    (now : ℕ) (a : BatchAggregator)
    → messages_of (answered (force_batch now a).1) ++ (force_batch now a).0.current_batch.messages
      ≡ a.current_batch.messages ++ []
unfolding force_batch take_batch create_new_batch
force_messages now a = elim (Bool-cases a.closed) [
  | inl c ↦ rw c (sym (append-nil a.current_batch.messages))
  | inr c ↦ elim (Bool-cases (ltb 0 a.current_batch.count)) [
    | inl r ↦ rw (c, r) (append-nil (a.current_batch.messages ++ []))
    | inr r ↦ rw (c, r) (sym (append-nil a.current_batch.messages))
  ]
]

timer_messages :
    (now : ℕ) (a : BatchAggregator)
    → (timer_fires now a).current_batch.messages ≡ a.current_batch.messages
unfolding timer_fires
timer_messages now a = ground arith

close_messages :
    (now : ℕ) (a : BatchAggregator)
    → (close now a).current_batch.messages ≡ a.current_batch.messages
unfolding close
close_messages now a = ground arith

step_messages :
    (c : Call) (a : BatchAggregator)
    → messages_of (events c a) ++ (step c a).current_batch.messages
      ≡ a.current_batch.messages ++ accepted c a
unfolding step events check_expired_batch create_new_batch
step_messages (adds now m) a = add_messages now m a
step_messages (gets now) a = get_messages now a
step_messages (forces now) a = force_messages now a
step_messages (fires now) a = timer_messages now a ∙ sym (append-nil a.current_batch.messages)
step_messages (checks now) a = elim (Bool-cases (is_expired now a)) [
  | inl e ↦ rw e (append-nil (a.current_batch.messages ++ []))
  | inr e ↦ rw e (sym (append-nil a.current_batch.messages))
]
step_messages (closes now) a = close_messages now a ∙ sym (append-nil a.current_batch.messages)

trace_messages :
    (cs : List Call) (a : BatchAggregator)
    → messages_of (trace cs a) ++ (run cs a).current_batch.messages
      ≡ a.current_batch.messages ++ all_accepted cs a
unfolding trace run all_accepted
trace_messages [] a = sym (append-nil a.current_batch.messages)
trace_messages (c ∷ cs) a =
    let now = messages_of (events c a) in
    let later = messages_of (trace cs (step c a)) in
    ap (λ (l : List Message). l ++ (run cs (step c a)).current_batch.messages)
      (messages_of-append (events c a) (trace cs (step c a)))
    ∙ append_assoc now later (run cs (step c a)).current_batch.messages
    ∙ ap (λ (l : List Message). now ++ l) (trace_messages cs (step c a))
    ∙ sym (append_assoc now (step c a).current_batch.messages (all_accepted cs (step c a)))
    ∙ ap (λ (l : List Message). l ++ all_accepted cs (step c a)) (step_messages c a)
    ∙ append_assoc a.current_batch.messages (accepted c a) (all_accepted cs (step c a))

-- After any sequence of calls, timer events and expiry checks on a new aggregator, the messages of
-- the batches that it gave to a caller or dropped, in their order, followed by those of its
-- current batch, are exactly the messages that it accepted, each once and in order.
pub trace-accepted :
    (now : ℕ) (config : BatchConfig) (cs : List Call)
    → let a = new_batch_aggregator now config in
      messages_of (trace cs a) ++ (run cs a).current_batch.messages ≡ all_accepted cs a
unfolding new_batch_aggregator create_new_batch
trace-accepted now config cs = trace_messages cs (new_batch_aggregator now config)
