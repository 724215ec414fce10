-- ===== src/Protocol/Packet/Loop.antt =====
-- The loops of `writePacket` and `readPacket` over a payload whose last packet is not full.
use staravail.Common.{ℕ, zero, suc, ◌+◌, ◌-◌, ◌%◌, ◌^◌, ◌≤◌, ◌<◌, ◌≡◌, ◌≢◌, refl, ◌∙◌, arith}
use staravail.Common.{List, ◌++◌, length, take, drop, length-append}
use staravail.Common.{take-all, take-append-drop, length-take, length-drop}
use staravail.Common.{none}
use staravail.Protocol.Base.{ok, ◌>>=◌}
use staravail.Protocol.Packet.{MySqlProtocol, next_sequence, read_packet_loop, write_packet_loop}
use staravail.Protocol.Packet.Framing.{
  packet, length-packet, written, write_chunk-eq, read_header-packet,
}
use mathlib.Core.List.{append_assoc}
use native.Mathlib.Nat.{mod-eq-sub-mod, mod-eq_of_lt, mod_self}
use native.Mathlib.Decide.{dec_lt, ℕ_discrete}

-- The last packet: the writer stops, and the reader too.
write_last :
    (full fuel : ℕ) (left : List ℕ) (p : MySqlProtocol)
    → ((i : ℕ) → p.outcome i ≡ none)
    → length left ≤ full
    → write_packet_loop full (suc fuel) left p ≡ (written 2 (packet p.sequence left) p, ok tt)
unfolding write_packet_loop
write_last full fuel left p sent h =
    ground (arith, take-all (length left) left, write_chunk-eq left p sent)

read_last :
    (full fuel : ℕ) (left rest : List ℕ) (p : MySqlProtocol)
    → 0 < length left
    → length left < full
    → full ≤ 2 ^ 24
    → length left ≤ p.max_packet_size
    → read_packet_loop full (suc fuel) (record p { incoming = packet p.sequence left ++ rest })
      ≡ (record p { incoming = rest; sequence = next_sequence p.sequence }, ok left)
unfolding read_packet_loop
read_last full fuel left rest p filled h small allowed = ground (
  arith,
  read_header-packet full left rest (record p { incoming = packet p.sequence left ++ rest }) filled,
)

-- A full packet: both go on with what follows.
write_more :
    (full fuel : ℕ) (left : List ℕ) (p : MySqlProtocol)
    → ((i : ℕ) → p.outcome i ≡ none)
    → full < length left
    → write_packet_loop full (suc fuel) left p
      ≡ write_packet_loop full fuel
          (drop full left)
          (written 2 (packet p.sequence (take full left)) p)
unfolding write_packet_loop
write_more full fuel left p sent h =
    ground (arith, length-take full left, write_chunk-eq (take full left) p sent)

pub read_more :
    (full fuel : ℕ) (chunk rest : List ℕ) (p : MySqlProtocol)
    → 0 < full
    → length chunk ≡ full
    → full < 2 ^ 24
    → full ≤ p.max_packet_size
    → read_packet_loop full (suc fuel) (record p { incoming = packet p.sequence chunk ++ rest }) ≡ (
        let (p', r) =
          read_packet_loop full fuel
            (record p { incoming = rest; sequence = next_sequence p.sequence }) in
        (p', (do more ← r; ok (chunk ++ more))))
unfolding read_packet_loop
read_more full fuel chunk rest p filled e small allowed = ground (
  arith,
  read_header-packet full chunk rest (record p { incoming = packet p.sequence chunk ++ rest }),
)

-- `w` is what the writer sends for `left`, and `s` the sequence number that it ends with.
unfoldable pub Sends : ℕ → ℕ → List ℕ → MySqlProtocol → List ℕ → ℕ → ℕ → Type 0
Sends full fuel left p w n s =
    write_packet_loop full fuel left p
    ≡ (record p { outgoing = p.outgoing ++ w; writes = n; sequence = s }, ok tt)

pub Sends-last :
    (full fuel : ℕ) (left : List ℕ) (p : MySqlProtocol)
    → ((i : ℕ) → p.outcome i ≡ none)
    → length left ≤ full
    → Sends full
        (suc fuel)
        left
        p
        (packet p.sequence left)
        (p.writes + 2)
        (next_sequence p.sequence)
unfolding Sends written
Sends-last full fuel left p sent h = write_last full fuel left p sent h

pub Sends-more :
    (full fuel : ℕ) (left : List ℕ) (p : MySqlProtocol) (w : List ℕ) (n s : ℕ)
    → ((i : ℕ) → p.outcome i ≡ none)
    → full < length left
    → Sends full fuel (drop full left) (written 2 (packet p.sequence (take full left)) p) w n s
    → Sends full (suc fuel) left p (packet p.sequence (take full left) ++ w) n s
unfolding Sends written
Sends-more full fuel left p w n s sent h rest =
    write_more full fuel left p sent h ∙ rest ∙ rw append_assoc refl

-- Both loops over a payload whose last packet is not full.
unfoldable pub Crosses : ℕ → ℕ → List ℕ → MySqlProtocol → MySqlProtocol → Type 0
Crosses full fuel left p q =
    (w : List ℕ) × (n : ℕ) × (s : ℕ) × (length left ≤ length w)
    × Sends full fuel left p w n s
    × ((more : ℕ) (rest : List ℕ)
        → length left ≤ more
        → read_packet_loop full (suc more)
            (record q { incoming = w ++ rest; sequence = p.sequence })
          ≡ (record q { incoming = rest; sequence = s }, ok left))

drop-mod : (full l : ℕ) → full < l → l % full ≢ 0 → (l - full) % full ≢ 0
drop-mod full l h ne e = ne (mod-eq-sub-mod (omega arith) ∙ e)

Crosses-last :
    (full fuel : ℕ) (left : List ℕ) (p q : MySqlProtocol)
    → full < 2 ^ 24
    → full ≤ q.max_packet_size
    → ((i : ℕ) → p.outcome i ≡ none)
    → length left < full
    → 0 < length left
    → Crosses full (suc fuel) left p q
unfolding Crosses packet
Crosses-last full fuel left p q small allowed sent h filled = (
  packet p.sequence left,
  p.writes + 2,
  next_sequence p.sequence,
  omega arith,
  Sends-last full fuel left p sent (omega arith),
  λ more rest le.
      read_last full more left rest (record q { sequence = p.sequence }) filled h (omega arith)
        (omega arith),
)

Crosses-more_read :
    (full : ℕ) (left w : List ℕ) (p q : MySqlProtocol) (s : ℕ)
    → 0 < full
    → full < 2 ^ 24
    → full ≤ q.max_packet_size
    → full < length left
    → ((more : ℕ) (rest : List ℕ)
        → length (drop full left) ≤ more
        → read_packet_loop full
            (suc more)
            (record q { incoming = w ++ rest; sequence = next_sequence p.sequence })
          ≡ (record q { incoming = rest; sequence = s }, ok (drop full left)))
    → (more : ℕ) (rest : List ℕ) → length left ≤ more
    → read_packet_loop full (suc more) (record q {
      incoming = (packet p.sequence (take full left) ++ w) ++ rest;
      sequence = p.sequence;
    })
      ≡ (record q { incoming = rest; sequence = s }, ok left)
Crosses-more_read full left w p q s pos small allowed h inner zero rest le = absurd (omega arith)
Crosses-more_read full left w p q s pos small allowed h inner (suc more) rest le =
    rw (append_assoc (packet p.sequence (take full left)) w rest) (
      read_more full (suc more) (take full left) (w ++ rest) (record q { sequence = p.sequence })
        pos (omega (arith, length-take full left)) small allowed
      ∙ rw (inner more rest (omega (arith, length-drop full left)), take-append-drop full left))

Crosses-more :
    (full fuel : ℕ) (left : List ℕ) (p q : MySqlProtocol)
    → 0 < full
    → full < 2 ^ 24
    → full ≤ q.max_packet_size
    → ((i : ℕ) → p.outcome i ≡ none)
    → full < length left
    → Crosses full fuel (drop full left) (written 2 (packet p.sequence (take full left)) p) q
    → Crosses full (suc fuel) left p q
unfolding Crosses written
Crosses-more full fuel left p q pos small allowed sent h (w, n, s, long, sends, inner) = (
  packet p.sequence (take full left) ++ w,
  n,
  s,
  (omega (
    arith,
    length-append (packet p.sequence (take full left)) w,
    length-packet p.sequence (take full left),
    length-take full left,
    length-drop full left,
  )),
  Sends-more full fuel left p w n s sent h sends,
  Crosses-more_read full left w p q s pos small allowed h inner,
)

pub Crosses-loop :
    (full fuel : ℕ) (left : List ℕ) (p q : MySqlProtocol)
    → 0 < full
    → full < 2 ^ 24
    → full ≤ q.max_packet_size
    → ((i : ℕ) → p.outcome i ≡ none)
    → length left % full ≢ 0
    → length left < fuel
    → Crosses full fuel left p q
Crosses-loop full zero left p q pos small allowed sent ne enough = absurd (omega arith)
Crosses-loop full (suc fuel) left p q pos small allowed sent ne enough =
    elim (dec_lt full (length left)) [
      | yes more ↦ Crosses-more full fuel left p q pos small allowed sent more (
          Crosses-loop full fuel (drop full left) _ q pos small allowed (unfold written in sent)
            (rw (length-drop full left) (drop-mod full (length left) more ne))
            (omega (arith, length-drop full left)))
      | no last ↦
          let lt : length left < full = below full (length left) ne last in
          Crosses-last full fuel left p q small allowed sent lt (positive full (length left) pos ne)
    ]
  where
    positive : (f l : ℕ) → 0 < f → l % f ≢ 0 → 0 < l
    positive f zero pos ne = absurd (ne (mod-eq_of_lt pos))
    positive f (suc l) pos ne = omega arith

    below : (f l : ℕ) → l % f ≢ 0 → ¬ (f < l) → l < f
    below f l ne h = elim (ℕ_discrete l f) [
      | yes e ↦ absurd (ne (rw e (mod_self f)))
      | no d ↦ omega arith
    ]
