-- ===== src/Protocol/Packet/FullPackets.antt =====
-- A payload that fills its last packet: the writer sends no empty packet behind it, and the reader
-- waits for one.
use staravail.Common.{ℕ, zero, suc, ◌+◌, ◌%◌, ◌^◌, ◌≤◌, ◌<◌, ◌≡◌, refl, sym, ◌∙◌, arith, none}
use staravail.Common.{List, [], ◌++◌, length, take, drop, length-append, length-drop, length-take}
use staravail.Common.{take-all}
use staravail.Protocol.Base.{ok, err, connection_closed}
use staravail.Protocol.Packet.{
  MySqlProtocol, full_packet, next_sequence, read_packet_loop, read_packet, read_header,
  write_packet,
}
use staravail.Protocol.Packet.Framing.{packet, length-packet, written}
use staravail.Protocol.Packet.Loop.{Sends, Sends-last, Sends-more, read_more}
use mathlib.Core.List.{append-nil}
use native.Mathlib.Nat.{mod-eq-sub-mod, mod-eq_of_lt}
use native.Mathlib.Decide.{dec_lt}

-- The writer succeeds, and the reader of just these bytes finds the connection closed.
Stalls : ℕ → ℕ → List ℕ → MySqlProtocol → MySqlProtocol → Type 0
Stalls full fuel left p q =
    (w : List ℕ) × (n : ℕ) × (s : ℕ) × (length left ≤ length w)
    × Sends full fuel left p w n s
    × ((more : ℕ)
        → length left ≤ more
        → (read_packet_loop full (suc more) (record q { incoming = w; sequence = p.sequence })).1
          ≡ err connection_closed)

read_end :
    (full more : ℕ) (q : MySqlProtocol)
    → (read_packet_loop full (suc more) (record q { incoming = [] })).1 ≡ err connection_closed
unfolding read_packet_loop read_header
read_end full more q = refl

read_more_fails :
    (full more : ℕ) (left w : List ℕ) (p q : MySqlProtocol)
    → 0 < full
    → full < 2 ^ 24
    → full ≤ q.max_packet_size
    → full ≤ length left
    → (read_packet_loop full more
        (record q { incoming = w; sequence = next_sequence p.sequence })).1
      ≡ err connection_closed
    → (read_packet_loop full
        (suc more)
        (record q { incoming = packet p.sequence (take full left) ++ w; sequence = p.sequence })).1
      ≡ err connection_closed
read_more_fails full more left w p q pos small allowed h e = rw (
  read_more full more (take full left) w (record q { sequence = p.sequence }) pos
      (omega (arith, length-take full left)) small allowed,
  e,
)

Stalls-last :
    (full fuel : ℕ) (left : List ℕ) (p q : MySqlProtocol)
    → 0 < full
    → full < 2 ^ 24
    → full ≤ q.max_packet_size
    → ((i : ℕ) → p.outcome i ≡ none)
    → length left ≡ full
    → Stalls full (suc fuel) left p q
unfolding Stalls
Stalls-last full fuel left p q pos small allowed sent e = (
  packet p.sequence left,
  p.writes + 2,
  next_sequence p.sequence,
  omega (arith, length-packet p.sequence left),
  Sends-last full fuel left p sent (omega arith),
  λ more le. at_end more le,
)
  where
    at_end :
        (more : ℕ)
        → length left ≤ more
        → (read_packet_loop full
            (suc more)
            (record q { incoming = packet p.sequence left; sequence = p.sequence })).1
          ≡ err connection_closed
    at_end zero le = absurd (omega arith)
    at_end (suc more) le =
        rw (append-nil, take-all full left (omega arith)) at
          (read_more_fails full (suc more) left [] p q pos small allowed (omega arith)
            (read_end full more (record q { sequence = next_sequence p.sequence })))

Stalls-more :
    (full fuel : ℕ) (left : List ℕ) (p q : MySqlProtocol)
    → 0 < full
    → full < 2 ^ 24
    → full ≤ q.max_packet_size
    → ((i : ℕ) → p.outcome i ≡ none)
    → full < length left
    → Stalls full fuel (drop full left) (written 2 (packet p.sequence (take full left)) p) q
    → Stalls full (suc fuel) left p q
unfolding Stalls written
Stalls-more full fuel left p q pos small allowed sent h (w, n, s, long, sends, inner) = (
  packet p.sequence (take full left) ++ w,
  n,
  s,
  (omega (
    arith,
    length-append (packet p.sequence (take full left)) w,
    length-packet p.sequence (take full left),
    length-take full left,
    length-drop full left,
  )),
  Sends-more full fuel left p w n s sent h sends,
  onward,
)
  where
    onward :
        (more : ℕ)
        → length left ≤ more
        → (read_packet_loop full (suc more) (record q {
          incoming = packet p.sequence (take full left) ++ w;
          sequence = p.sequence;
        })).1
          ≡ err connection_closed
    onward zero le = absurd (omega arith)
    onward (suc more) le =
        read_more_fails full (suc more) left w p q pos small allowed (omega arith)
          (inner more (omega (arith, length-drop full left)))

Stalls-loop :
    (full fuel : ℕ) (left : List ℕ) (p q : MySqlProtocol)
    → 0 < full
    → full < 2 ^ 24
    → full ≤ q.max_packet_size
    → ((i : ℕ) → p.outcome i ≡ none)
    → length left % full ≡ 0
    → 0 < length left
    → length left < fuel
    → Stalls full fuel left p q
Stalls-loop full zero left p q pos small allowed sent e filled enough = absurd (omega arith)
Stalls-loop full (suc fuel) left p q pos small allowed sent e filled enough =
    elim (dec_lt full (length left)) [
      | yes more ↦ Stalls-more full fuel left p q pos small allowed sent more (
          Stalls-loop full fuel (drop full left) _ q pos small allowed (unfold written in sent)
            (rw (length-drop full left) (sym (mod-eq-sub-mod (omega arith)) ∙ e))
            (omega (arith, length-drop full left)) (omega (arith, length-drop full left)))
      | no last ↦
          Stalls-last full fuel left p q pos small allowed sent
            (whole full (length left) e filled last)
    ]
  where
    whole : (f l : ℕ) → l % f ≡ 0 → 0 < l → ¬ (f < l) → l ≡ f
    whole f l e filled h = elim (dec_lt l f) [
      | yes below ↦ absurd (rest_zero l (sym (mod-eq_of_lt below) ∙ e) filled)
      | no above ↦ omega arith
    ]
      where
        rest_zero : (l : ℕ) → l ≡ 0 → 0 < l → ⊥
        rest_zero l e h = omega arith

-- Over a connection that takes every write, a payload whose length is a positive multiple of
-- 0xffffff is sent without an error; and a reader whose limit allows full packets, and which gets
-- exactly the bytes that were sent, reports a closed connection: it waits for one more packet.
pub read_packet_after_full_packets :
    (bytes : List ℕ) (p q : MySqlProtocol)
    → ((i : ℕ) → p.outcome i ≡ none)
    → full_packet ≤ q.max_packet_size
    → length bytes % full_packet ≡ 0
    → 0 < length bytes
    → (w : List ℕ) × (n : ℕ) × (s : ℕ) × (write_packet bytes p
        ≡ (record p { outgoing = p.outgoing ++ w; writes = n; sequence = s }, ok tt))
      × ((read_packet (record q { incoming = w; sequence = p.sequence })).1 ≡ err connection_closed)
unfolding read_packet write_packet Stalls Sends
read_packet_after_full_packets bytes p q sent allowed e filled =
    let (w, n, s, long, sends, back) =
      Stalls-loop full_packet (suc (length bytes)) bytes p q (omega arith) (omega arith) allowed
        sent e filled (omega arith) in
    (w, n, s, sends, back (length w) long)
