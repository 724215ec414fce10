-- ===== src/Batch/Aggregator/Prompt.antt =====
-- aggregator.go: a client that asks for a batch behind every call.
use staravail.Common.{ℕ, ◌≡◌, refl, sym, ap, arith, List, [], ◌∷◌, ◌++◌, All}
use staravail.Common.{Bool, true, false, ◌||◌, ltb, Bool-cases, inl, inr}
use mathlib.Core.Path.{subst}
use staravail.Batch.Aggregator.{
  Message, BatchConfig, BatchAggregator, new_batch_aggregator, is_building, is_ready,
  create_new_batch, append_message, check_size, check_count, add_message, take_batch, get_batch,
  force_batch, timer_fires,
}
use staravail.Batch.Aggregator.Conservation.{
  Call, adds, gets, forces, fires, step, add_message-building, Event, gave, lost, answered, events,
  trace, all_accepted,
}

-- A call of the client, or the timer; the batch is taken behind it when it is ready.
pub data ClientCall : Type 0 where
  puts : ℕ → Message → ClientCall
  flushes waits : ℕ → ClientCall

unfoldable pub promptly : List ClientCall → List Call
promptly [] = []
promptly (puts now m ∷ cs) = adds now m ∷ gets now ∷ promptly cs
promptly (flushes now ∷ cs) = forces now ∷ gets now ∷ promptly cs
promptly (waits now ∷ cs) = fires now ∷ gets now ∷ promptly cs

unfoldable pub put_messages : List ClientCall → List Message
put_messages [] = []
put_messages (puts now m ∷ cs) = m ∷ put_messages cs
put_messages (flushes now ∷ cs) = put_messages cs
put_messages (waits now ∷ cs) = put_messages cs

abbrev pub Gave : Event → Type 0
Gave (gave ms) = Unit
Gave (lost ms) = ⊥

record IsOpen (a : BatchAggregator) : Type 0 where
  unclosed : a.closed ≡ false
  builds : is_building a.current_batch.status ≡ true

record IsLive (a : BatchAggregator) : Type 0 where
  unclosed : a.closed ≡ false
  live : (is_building a.current_batch.status || is_ready a.current_batch.status) ≡ true

checks-IsLive :
    (now : ℕ) (a : BatchAggregator) → IsLive a → IsLive (check_count now (check_size now a))
unfolding check_count check_size
checks-IsLive now a v = record {
  unclosed = ground (arith, v.unclosed);
  live = ground (arith, v.live);
}

add-IsLive :
    (now : ℕ) (m : Message) (a : BatchAggregator) → IsOpen a → IsLive (add_message now m a).0
unfolding append_message
add-IsLive now m a o =
    subst (λ (x : BatchAggregator × Bool). IsLive x.0)
      (sym (add_message-building now m a o.unclosed o.builds))
      (checks-IsLive now (append_message m a)
        (record { unclosed = o.unclosed; live = ground (arith, o.builds) }))

get-IsOpen :
    (now : ℕ) (a : BatchAggregator)
    → IsLive a
    → IsOpen (get_batch now a).0 × All Gave (answered (get_batch now a).1)
unfolding get_batch take_batch create_new_batch
get-IsOpen now a v = elim (Bool-cases (is_ready a.current_batch.status)) [
  | inl r ↦ simp (v.unclosed, r) (record { unclosed = refl; builds = refl }, (tt, tt))
  | inr r ↦
      simp (v.unclosed, r)
        (record { unclosed = v.unclosed; builds = ground (arith, v.live, r) }, tt)
]

force-IsLive :
    (now : ℕ) (a : BatchAggregator)
    → IsOpen a
    → IsLive (force_batch now a).0 × All Gave (answered (force_batch now a).1)
unfolding force_batch take_batch create_new_batch
force-IsLive now a o = elim (Bool-cases (ltb 0 a.current_batch.count)) [
  | inl r ↦ simp (o.unclosed, r) (record { unclosed = refl; live = refl }, (tt, tt))
  | inr r ↦
      simp (o.unclosed, r) (record { unclosed = o.unclosed; live = ground (arith, o.builds) }, tt)
]

timer-IsLive : (now : ℕ) (a : BatchAggregator) → IsOpen a → IsLive (timer_fires now a)
unfolding timer_fires
timer-IsLive now a o = record {
  unclosed = ground (arith, o.unclosed);
  live = ground (arith, o.builds);
}

All-append : (es fs : List Event) → All Gave es → All Gave fs → All Gave (es ++ fs)
All-append [] fs h k = k
All-append (e ∷ es) fs h k = (h.0, All-append es fs h.1 k)

-- Both hold from any open aggregator.
prompt_trace :
    (cs : List ClientCall) (a : BatchAggregator)
    → IsOpen a
    → All Gave (trace (promptly cs) a) × (all_accepted (promptly cs) a ≡ put_messages cs)
unfolding trace promptly put_messages all_accepted step events
prompt_trace [] a o = (tt, refl)
prompt_trace (puts now m ∷ cs) a o =
    let a' = (add_message now m a).0 in
    let (o', g) = get-IsOpen now a' (add-IsLive now m a o) in
    let (rest, all) = prompt_trace cs (get_batch now a').0 o' in
    (
      simp (o.unclosed, o.builds) (All-append _ _ g rest),
      simp (o.unclosed) (ap (λ (l : List Message). m ∷ l) all),
    )
prompt_trace (flushes now ∷ cs) a o =
    let a' = (force_batch now a).0 in
    let (live, f) = force-IsLive now a o in
    let (o', g) = get-IsOpen now a' live in
    let (rest, all) = prompt_trace cs (get_batch now a').0 o' in
    (All-append _ _ f (All-append _ _ g rest), all)
prompt_trace (waits now ∷ cs) a o =
    let a' = timer_fires now a in
    let (o', g) = get-IsOpen now a' (timer-IsLive now a o) in
    let (rest, all) = prompt_trace cs (get_batch now a').0 o' in (All-append _ _ g rest, all)

-- When a client asks a new aggregator for a batch behind every message that it adds, every forced
-- batch and every timer event, and no batch expires, no batch is dropped, and every message is
-- accepted.
pub promptly-Gave :
    (now : ℕ) (config : BatchConfig) (cs : List ClientCall)
    → let a = new_batch_aggregator now config in
      All Gave (trace (promptly cs) a) × (all_accepted (promptly cs) a ≡ put_messages cs)
unfolding new_batch_aggregator create_new_batch
promptly-Gave now config cs =
    prompt_trace cs (new_batch_aggregator now config) (record { unclosed = refl; builds = refl })
