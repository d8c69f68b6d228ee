-- ===== src/Protocol/Packet/RoundTrip.antt =====
-- `ReadPacket` and `WritePacket` undo one another on the stream.
use transisi_db.Prelude.{
  ℕ, ◌+◌, ◌-◌, ◌≤◌, ◌≡◌, refl, List, [], ◌∷◌, ◌++◌, length, arith, append_assoc, length-append,
  take-length-append, drop-length-append, length-take_le, take-append-drop,
}
use transisi_db.Protocol.Bytes.{IsByte, IsBytes, uint24, uint24_digits}
use transisi_db.Protocol.Packet.{
  Packet, Conn, ok, header, max_payload, read_full, read_packet, write_packet,
}

-- The bytes of a packet on the wire.
abbrev pub encoding : Packet → List ℕ
encoding p = header (length p.payload) p.sequence_id ++ p.payload

abbrev pub packet : ℕ → List ℕ → Packet
packet seq payload = record { packet_length = length payload; sequence_id = seq; payload = payload }

-- A packet that is not too large goes out whole, header first, if two more writes are accepted.
pub write_packet_sends :
    (seq : ℕ) (payload : List ℕ) (c : Conn)
    → length payload ≤ max_payload
    → 2 ≤ c.writes_left
    → write_packet seq payload c
      ≡ ok tt (record c {
        sent = c.sent ++ encoding (packet seq payload);
        writes_left = c.writes_left - 2;
      })
unfolding write_packet
write_packet_sends seq payload c h w =
    ground (arith, append_assoc c.sent (header (length payload) seq) payload)

read_full_exact :
    (bytes rest : List ℕ) (c : Conn)
    → c.incoming ≡ bytes ++ rest
    → read_full (length bytes) c ≡ ok bytes (record c { incoming = rest })
unfolding read_full
read_full_exact bytes rest c h =
    ground (
      arith,
      length-append bytes rest,
      take-length-append bytes rest,
      drop-length-append bytes rest,
    )

pub read_packet-encoding :
    (seq : ℕ) (payload rest : List ℕ) (c : Conn)
    → length payload ≤ max_payload
    → c.incoming ≡ encoding (packet seq payload) ++ rest
    → read_packet c ≡ ok (packet seq payload) (record c { incoming = rest })
unfolding read_packet
read_packet-encoding seq payload rest c h e = ground (
  arith,
  uint24_digits (length payload),
  length-append payload rest,
  take-length-append payload rest,
  drop-length-append payload rest,
)

-- For a packet that is not too large and a connection that takes two more writes, `WritePacket`
-- succeeds and adds some bytes to those sent; from any connection on which these bytes arrive,
-- whatever follows them, `ReadPacket` reads the packet back and leaves what follows.
pub write-read_packet :
    (seq : ℕ) (payload rest : List ℕ) (w r : Conn)
    → length payload ≤ max_payload
    → 2 ≤ w.writes_left
    → (bytes : List ℕ) × (write_packet seq payload w
        ≡ ok tt (record w { sent = w.sent ++ bytes; writes_left = w.writes_left - 2 }))
      × (read_packet (record r { incoming = bytes ++ rest })
          ≡ ok (packet seq payload) (record r { incoming = rest }))
write-read_packet seq payload rest w r h two =
    let bytes = encoding (packet seq payload) in
    (
      bytes,
      write_packet_sends seq payload w h two,
      read_packet-encoding seq payload rest (record r { incoming = bytes ++ rest }) h refl,
    )

-- What `read_packet c ≡ ok p c'` says of the stream.
pub record Reads (c : Conn) (p : Packet) (c' : Conn) : Type 0 where
  pub consumed : c.incoming ≡ encoding p ++ c'.incoming
  pub declared : p.packet_length ≡ length p.payload
  pub fits : length p.payload ≤ max_payload
  pub same_sent : c'.sent ≡ c.sent
  pub same_writes : c'.writes_left ≡ c.writes_left

header_digits :
    (b0 b1 b2 seq : ℕ)
    → IsByte b0
    → IsByte b1
    → IsByte b2
    → header (uint24 b0 b1 b2) seq ≡ b0 ∷ b1 ∷ b2 ∷ seq ∷ []
header_digits b0 b1 b2 seq h0 h1 h2 = ground arith

Reads-of_bytes :
    (bs : List ℕ) (c : Conn) {p : Packet} {c' : Conn}
    → c.incoming ≡ bs
    → IsBytes bs
    → read_packet c ≡ ok p c'
    → Reads c p c'
unfolding read_packet
Reads-of_bytes [] c e v h = absurd (ground arith)
Reads-of_bytes (b0 ∷ []) c e v h = absurd (ground arith)
Reads-of_bytes (b0 ∷ b1 ∷ []) c e v h = absurd (ground arith)
Reads-of_bytes (b0 ∷ b1 ∷ b2 ∷ []) c e v h = absurd (ground arith)
Reads-of_bytes (b0 ∷ b1 ∷ b2 ∷ seq ∷ bs) c e v h = ground (
  arith,
  header_digits b0 b1 b2 seq,
  length-take_le (uint24 b0 b1 b2) bs,
  take-append-drop (uint24 b0 b1 b2) bs,
)

-- A packet that `ReadPacket` returns from a stream of bytes is exactly what it took from the stream:
-- writing it again would give the same bytes. It writes nothing.
pub read_packet-Reads :
    (c : Conn) {p : Packet} {c' : Conn}
    → IsBytes c.incoming
    → read_packet c ≡ ok p c'
    → Reads c p c'
read_packet-Reads c v h = Reads-of_bytes c.incoming c refl v h

-- What `write_packet seq payload c ≡ ok tt c'` says of the stream.
pub record Writes (seq : ℕ) (payload : List ℕ) (c c' : Conn) : Type 0 where
  pub added : c'.sent ≡ c.sent ++ encoding (packet seq payload)
  pub same_incoming : c'.incoming ≡ c.incoming
  pub used : c'.writes_left + 2 ≡ c.writes_left

-- A successful write puts the whole packet on the stream, in two writes.
pub write_packet-Writes :
    (seq : ℕ) (payload : List ℕ) (c : Conn) {c' : Conn}
    → write_packet seq payload c ≡ ok tt c'
    → Writes seq payload c c'
unfolding write_packet
write_packet-Writes seq payload c h =
    ground (arith, append_assoc c.sent (header (length payload) seq) payload)
