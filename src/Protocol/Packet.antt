-- ===== src/Protocol/Packet.antt =====
-- pkg/protocol/packet.go: packets with a header of four bytes, and the small writers.
pub mod RoundTrip
use transisi_db.Prelude.{
  ℕ, zero, suc, ◌+◌, ◌-◌, ◌/◌, ◌%◌, ◌^◌, Bool, true, false, Option, none, some, List, [], ◌∷◌, ◌++◌,
  leb, ltb, if◌then◌else◌, take, drop, length,
}
use transisi_db.Protocol.Bytes.{
  Error, eof, unexpected_eof, write_failed, packet_too_large, uint24, put_uint16, put_uint32,
}

pub record Packet : Type 0 where
  pub packet_length : ℕ
  pub sequence_id : ℕ
  pub payload : List ℕ

-- An end of a connection: the bytes that the peer will still send before it closes, the bytes
-- written to it so far, and the number of writes that it will still accept.
pub record Conn : Type 0 where
  pub incoming : List ℕ
  pub sent : List ℕ
  pub writes_left : ℕ

-- A Go call that changes a connection and returns (value, error).
pub data Reply {ℓ} (A : Type ℓ) : Type ℓ where
  ok : A → Conn → Reply A
  err : Error → Conn → Reply A

-- `io.ReadFull(r, buf)` with `len(buf) = n`: a stream that ends early is used up.
unfoldable pub read_full : ℕ → Conn → Reply (List ℕ)
read_full n c =
    if leb n (length c.incoming)
    then ok (take n c.incoming) (record c { incoming = drop n c.incoming })
    else err (if ltb 0 (length c.incoming) then unexpected_eof else eof)
        (record c { incoming = [] })

-- `w.Write(b)`: all of `b`, or an error.
unfoldable pub write : List ℕ → Conn → Reply (Unit {0})
write b c =
    if ltb 0 c.writes_left
    then ok tt (record c { sent = c.sent ++ b; writes_left = c.writes_left - 1 })
    else err write_failed c

read_payload : ℕ → ℕ → Reply (List ℕ) → Reply Packet
read_payload length seq (ok payload c) =
    ok (record { packet_length = length; sequence_id = seq; payload = payload }) c
read_payload length seq (err e c) = err e c

read_body : Reply (List ℕ) → Reply Packet
unfolding read_full read_payload
read_body (ok (b0 ∷ b1 ∷ b2 ∷ seq ∷ _) c) =
    let n = uint24 b0 b1 b2 in read_payload n seq (read_full n c)
read_body (ok _ c) = err unexpected_eof c
read_body (err e c) = err e c

-- The header has four bytes whenever it was read, so the second clause of `read_body` is not met.
unfoldable pub read_packet : Conn → Reply Packet
unfolding read_full read_body
read_packet c = read_body (read_full 4 c)

abbrev pub max_payload : ℕ
max_payload = 16777215

abbrev pub header : ℕ → ℕ → List ℕ
header length seq = (length % 256) ∷ (length / 2 ^ 8 % 256) ∷ (length / 2 ^ 16 % 256) ∷ seq ∷ []

write_payload : List ℕ → Reply (Unit {0}) → Reply (Unit {0})
unfolding write
write_payload payload (ok _ c) = write payload c
write_payload payload (err e c) = err e c

unfoldable pub write_packet : ℕ → List ℕ → Conn → Reply (Unit {0})
unfolding write write_payload
write_packet seq payload c =
    if ltb max_payload (length payload)
    then err (packet_too_large (length payload)) c
    else write_payload payload (write (header (length payload) seq) c)

unfoldable pub write_string : List ℕ → List ℕ → List ℕ
write_string buf s = (buf ++ s) ++ 0x00 ∷ []

unfoldable pub write_uint16 : List ℕ → ℕ → List ℕ
write_uint16 buf n = buf ++ put_uint16 n

unfoldable pub write_uint32 : List ℕ → ℕ → List ℕ
write_uint32 buf n = buf ++ put_uint32 n
