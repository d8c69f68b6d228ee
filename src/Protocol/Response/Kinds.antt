-- ===== src/Protocol/Response/Kinds.antt =====
-- How the three tests of a payload stand to one another and to the parsers.
use transisi_db.Prelude.{ℕ, ◌+◌, ◌*◌, ◌^◌, ◌≡◌, true, false, ◌&&◌, List, [], ◌∷◌, arith}
use transisi_db.Protocol.Bytes.{ok}
use transisi_db.Protocol.Response.{
  EofPacket, parse_eof_packet, is_ok_packet, is_eof_packet, is_err_packet,
}

-- No payload passes two of the tests.
pub kinds_exclusive :
    (payload : List ℕ)
    → ((is_ok_packet payload && is_err_packet payload) ≡ false)
      × ((is_ok_packet payload && is_eof_packet payload) ≡ false)
      × ((is_err_packet payload && is_eof_packet payload) ≡ false)
unfolding is_ok_packet is_err_packet is_eof_packet
kinds_exclusive payload = ground arith

-- A payload that passes the test for EOF is parsed as one.
pub is_eof-parse :
    (payload : List ℕ)
    → is_eof_packet payload ≡ true
    → (p : EofPacket) × (parse_eof_packet payload ≡ ok p)
unfolding is_eof_packet parse_eof_packet
is_eof-parse (b0 ∷ b1 ∷ b2 ∷ b3 ∷ b4 ∷ bs) h =
    (record { warnings = b1 + b2 * 2 ^ 8; status_flags = b3 + b4 * 2 ^ 8 }, ground arith)
is_eof-parse [] h = absurd (ground arith)
is_eof-parse (b0 ∷ []) h = absurd (ground arith)
is_eof-parse (b0 ∷ b1 ∷ []) h = absurd (ground arith)
is_eof-parse (b0 ∷ b1 ∷ b2 ∷ []) h = absurd (ground arith)
is_eof-parse (b0 ∷ b1 ∷ b2 ∷ b3 ∷ []) h = absurd (ground arith)
