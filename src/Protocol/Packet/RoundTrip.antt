-- ===== src/Protocol/Packet/RoundTrip.antt =====
-- A payload goes through `writePacket` and `readPacket` unchanged, however many packets it takes.
use staravail.Common.{ℕ, suc, ◌%◌, ◌≤◌, ◌≡◌, ◌≢◌, arith, none}
use staravail.Common.{List, ◌++◌, length, length-append}
use staravail.Protocol.Base.{ok}
use staravail.Protocol.Packet.{MySqlProtocol, full_packet, read_packet, write_packet}
use staravail.Protocol.Packet.Loop.{Sends, Crosses, Crosses-loop}

-- Over a connection that takes every write, a payload whose length is no multiple of 0xffffff (so
-- it is not empty) is sent as some bytes `w` without an error; and a reader whose limit allows
-- full packets and which expects the writer's sequence number, at the start of `w`, returns the
-- payload, stops behind `w` whatever follows, and expects the sequence number that the writer goes
-- on with.
pub read_packet-write_packet :
    (bytes : List ℕ) (p q : MySqlProtocol)
    → ((i : ℕ) → p.outcome i ≡ none)
    → full_packet ≤ q.max_packet_size
    → length bytes % full_packet ≢ 0
    → (w : List ℕ) × (n : ℕ) × (s : ℕ) × (write_packet bytes p
        ≡ (record p { outgoing = p.outgoing ++ w; writes = n; sequence = s }, ok tt))
      × ((rest : List ℕ)
          → read_packet (record q { incoming = w ++ rest; sequence = p.sequence })
            ≡ (record q { incoming = rest; sequence = s }, ok bytes))
unfolding read_packet write_packet Crosses Sends
read_packet-write_packet bytes p q sent allowed ne =
    let (w, n, s, long, sends, back) =
      Crosses-loop full_packet (suc (length bytes)) bytes p q (omega arith) (omega arith) allowed
        sent ne (omega arith) in
    (w, n, s, sends, λ rest. back (length (w ++ rest)) rest (omega (arith, length-append w rest)))
