-- ===== src/Protocol/Response.antt =====
-- OK, ERR and EOF packets: the parsers and the three tests of pkg/protocol/resultset.go.
pub mod Parse
pub mod Kinds
use transisi_db.Prelude.{
  ℕ, zero, suc, ◌+◌, Bool, true, false, ◌&&◌, List, [], ◌∷◌, leb, ltb, ◌==◌, if◌then◌else◌, length,
  not,
}
use transisi_db.Protocol.Bytes.{
  Result, ok, err, panic, ok_too_short, not_ok, unexpected_end, err_too_short, not_err,
  eof_too_short, not_eof, slice, slice_from, get_uint16, ◌>>=◌,
}
use transisi_db.Protocol.Lenenc.{read_length_encoded_int}

pub record OkPacket : Type 0 where
  pub affected_rows : ℕ
  pub last_insert_id : ℕ
  pub status_flags : ℕ
  pub warnings : ℕ
  pub info : List ℕ

pub record ErrPacket : Type 0 where
  pub error_code : ℕ
  pub sql_state : List ℕ
  pub error_message : List ℕ

pub record EofPacket : Type 0 where
  pub warnings : ℕ
  pub status_flags : ℕ

-- `payload[0]` where the length was tested before: 0 stands for the panic that cannot happen.
abbrev pub first : List ℕ → ℕ
first [] = 0
first (b ∷ bs) = b

abbrev pub ok_packet : ℕ
ok_packet = 0x00

abbrev pub eof_packet : ℕ
eof_packet = 0xfe

abbrev pub err_packet : ℕ
err_packet = 0xff

-- The flags, the warnings and the text at `pos`, for `pos+4 <= len(payload)`.
ok_tail : List ℕ → ℕ → ℕ → ℕ → Result OkPacket
ok_tail payload rows id pos = do
  flags ← (slice_from payload pos >>= get_uint16)
  warnings ← (slice_from payload (pos + 2) >>= get_uint16)
  info ← (if ltb (pos + 4) (length payload) then slice_from payload (pos + 4) else ok [])
  ok (record {
    affected_rows = rows;
    last_insert_id = id;
    status_flags = flags;
    warnings = warnings;
    info = info;
  })

-- The second integer starts at `pos`.
ok_body : List ℕ → ℕ → ℕ → Result OkPacket
unfolding ok_tail
ok_body payload rows pos = do
  b ← slice_from payload pos
  let id = (read_length_encoded_int b).0
  let end = pos + (read_length_encoded_int b).1
  if ltb (length payload) (end + 4) then err unexpected_end else ok_tail payload rows id end

unfoldable pub parse_ok_packet : List ℕ → Result OkPacket
unfolding ok_body
parse_ok_packet payload =
    if ltb (length payload) 7
    then err ok_too_short
    else if not (first payload == ok_packet)
    then err not_ok
    else (slice_from payload 1 >>= λ b.
        ok_body payload (read_length_encoded_int b).0 (1 + (read_length_encoded_int b).1))

-- Behind the error code, with or without the marker `#` and a state of five characters.
err_body : List ℕ → ℕ → Result ErrPacket
err_body payload code = do
  rest ← slice_from payload 3
  if first rest == b'#'
      then (slice payload 4 9 >>= λ state. slice_from payload 9 >>= λ message.
          ok (record { error_code = code; sql_state = state; error_message = message }))
      else ok (record { error_code = code; sql_state = []; error_message = rest })

unfoldable pub parse_err_packet : List ℕ → Result ErrPacket
unfolding err_body
parse_err_packet payload =
    if ltb (length payload) 9
    then err err_too_short
    else if not (first payload == err_packet)
    then err not_err
    else (slice payload 1 3 >>= get_uint16 >>= err_body payload)

unfoldable pub parse_eof_packet : List ℕ → Result EofPacket
parse_eof_packet payload =
    if ltb (length payload) 5
    then err eof_too_short
    else if not (first payload == eof_packet)
    then err not_eof
    else (slice payload 1 3 >>= get_uint16 >>= λ warnings.
        slice payload 3 5 >>= get_uint16 >>= λ flags.
        ok (record { warnings = warnings; status_flags = flags }))

unfoldable pub is_ok_packet : List ℕ → Bool
is_ok_packet payload = if ltb (length payload) 7 then false else first payload == ok_packet

unfoldable pub is_eof_packet : List ℕ → Bool
is_eof_packet payload =
    if ltb (length payload) 5 then false else first payload == eof_packet && ltb (length payload) 9

unfoldable pub is_err_packet : List ℕ → Bool
is_err_packet payload = if ltb (length payload) 3 then false else first payload == err_packet
