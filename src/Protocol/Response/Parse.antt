-- ===== src/Protocol/Response/Parse.antt =====
-- What the parsers of OK and ERR packets make of a payload.
use transisi_db.Prelude.{
  ℕ, ◌+◌, ◌^◌, ◌≤◌, ◌<◌, ◌≡◌, ◌≢◌, List, [], ◌∷◌, ◌++◌, length, arith, length-append, length-drop,
  drop, drop-length-append, drop-add-append, take-length-append, append_assoc,
}
use transisi_db.Protocol.Bytes.{ok, panic, IsBytes, get_uint16, put_uint16, IsBytes-drop}
use transisi_db.Protocol.Lenenc.{read_length_encoded_int, write_length_encoded_int}
use transisi_db.Protocol.Lenenc.RoundTrip.{read-write_int, int_width}
use transisi_db.Protocol.Lenenc.Overflow.{read_int-Fits}
use transisi_db.Protocol.Response.{
  OkPacket, ErrPacket, ok_tail, ok_body, parse_ok_packet, parse_err_packet, parse_eof_packet,
}

uint16-ne-panic : (b : List ℕ) → 2 ≤ length b → get_uint16 b ≢ panic
uint16-ne-panic [] h e = absurd (omega arith)
uint16-ne-panic (b0 ∷ []) h e = absurd (omega arith)
uint16-ne-panic (b0 ∷ b1 ∷ bs) h e = cc

ok_tail-ne-panic :
    (payload : List ℕ) (rows id pos : ℕ)
    → pos + 4 ≤ length payload
    → ok_tail payload rows id pos ≢ panic
unfolding ok_tail
ok_tail-ne-panic payload rows id pos h = ground (
  arith,
  uint16-ne-panic (drop pos payload),
  uint16-ne-panic (drop (pos + 2) payload),
  length-drop pos payload,
  length-drop (pos + 2) payload,
)

ok_body-ne-panic :
    (payload : List ℕ) (rows pos : ℕ)
    → IsBytes payload
    → pos ≤ length payload
    → ok_body payload rows pos ≢ panic
unfolding ok_body
ok_body-ne-panic payload rows pos v h = ground (
  arith,
  ok_tail-ne-panic payload rows (read_length_encoded_int (drop pos payload)).0
      (pos + (read_length_encoded_int (drop pos payload)).1),
)

pub parse_ok-ne-panic : (payload : List ℕ) → IsBytes payload → parse_ok_packet payload ≢ panic
unfolding parse_ok_packet
parse_ok-ne-panic payload v =
    let b : List ℕ = drop 1 payload in
    ground (
      arith,
      length-drop 1 payload,
      (read_int-Fits b (IsBytes-drop 1 payload v)).within,
      ok_body-ne-panic payload (read_length_encoded_int b).0 (1 + (read_length_encoded_int b).1) v,
    )

pub parse_err-ne-panic : (payload : List ℕ) → parse_err_packet payload ≢ panic
unfolding parse_err_packet
parse_err-ne-panic (b0 ∷ b1 ∷ b2 ∷ b3 ∷ bs) = ground arith
parse_err-ne-panic _ = ground arith

pub parse_eof-ne-panic : (payload : List ℕ) → parse_eof_packet payload ≢ panic
unfolding parse_eof_packet
parse_eof-ne-panic (b0 ∷ b1 ∷ b2 ∷ b3 ∷ b4 ∷ bs) = ground arith
parse_eof-ne-panic _ = ground arith

-- None of the three parsers indexes or slices out of bounds, whatever bytes the server sends.
pub parsers_never_panic :
    (payload : List ℕ)
    → IsBytes payload
    → (parse_ok_packet payload ≢ panic)
      × (parse_err_packet payload ≢ panic)
      × (parse_eof_packet payload ≢ panic)
parsers_never_panic payload v =
    (parse_ok-ne-panic payload v, parse_err-ne-panic payload, parse_eof-ne-panic payload)

-- The bytes of an OK packet in the order of the MySQL protocol.
abbrev pub ok_layout : OkPacket → List ℕ
ok_layout p =
    0x00
    ∷ (write_length_encoded_int [] p.affected_rows
        ++ (write_length_encoded_int [] p.last_insert_id
            ++ (put_uint16 p.status_flags ++ (put_uint16 p.warnings ++ p.info))))

pub record OkRanges (p : OkPacket) : Type 0 where
  pub rows : p.affected_rows < 2 ^ 64
  pub id : p.last_insert_id < 2 ^ 64
  pub flags : p.status_flags < 2 ^ 16
  pub warns : p.warnings < 2 ^ 16

tail_found :
    (front : List ℕ) (rows id flags warns : ℕ) (info : List ℕ)
    → flags < 2 ^ 16
    → warns < 2 ^ 16
    → ok_tail (front ++ (put_uint16 flags ++ (put_uint16 warns ++ info))) rows id (length front)
      ≡ ok (record {
        affected_rows = rows;
        last_insert_id = id;
        status_flags = flags;
        warnings = warns;
        info = info;
      })
unfolding ok_tail
tail_found front rows id flags warns [] h k =
    let rest : List ℕ = put_uint16 flags ++ (put_uint16 warns ++ []) in
    ground (
      arith,
      length-append front rest,
      drop-length-append front rest,
      drop-add-append front rest 2,
      drop-add-append front rest 4,
    )
tail_found front rows id flags warns (x ∷ info) h k =
    let rest : List ℕ = put_uint16 flags ++ (put_uint16 warns ++ x ∷ info) in
    ground (
      arith,
      length-append front rest,
      drop-length-append front rest,
      drop-add-append front rest 2,
      drop-add-append front rest 4,
    )

body_found :
    (front : List ℕ) (p : OkPacket)
    → OkRanges p
    → ok_body
        (front
          ++ (write_length_encoded_int [] p.last_insert_id
              ++ (put_uint16 p.status_flags ++ (put_uint16 p.warnings ++ p.info))))
        p.affected_rows
        (length front)
      ≡ ok p
unfolding ok_body
body_found front p r =
    let w : List ℕ = write_length_encoded_int [] p.last_insert_id in
    let rest : List ℕ = put_uint16 p.status_flags ++ (put_uint16 p.warnings ++ p.info) in
    ground (
      arith,
      length-append front (w ++ rest),
      length-append w rest,
      length-append front w,
      drop-length-append front (w ++ rest),
      append_assoc front w rest,
      read-write_int p.last_insert_id rest,
      tail_found (front ++ w) p.affected_rows p.last_insert_id p.status_flags p.warnings p.info,
    )

-- An OK packet laid out as the protocol says, its numbers in range, is parsed into its fields.
pub parse_ok-layout : (p : OkPacket) → OkRanges p → parse_ok_packet (ok_layout p) ≡ ok p
unfolding parse_ok_packet
parse_ok-layout p r =
    let w : List ℕ = write_length_encoded_int [] p.affected_rows in
    let w' : List ℕ = write_length_encoded_int [] p.last_insert_id in
    let tail : List ℕ = put_uint16 p.status_flags ++ (put_uint16 p.warnings ++ p.info) in
    ground (
      arith,
      length-append w (w' ++ tail),
      length-append w' tail,
      int_width p.affected_rows,
      int_width p.last_insert_id,
      read-write_int p.affected_rows (w' ++ tail),
      body_found (0x00 ∷ w) p,
    )

-- The bytes of an ERR packet: with a state of five characters behind `#`, or with none.
abbrev pub err_layout : ErrPacket → List ℕ
err_layout p = 0xff ∷ put_uint16 p.error_code ++ b'#' ∷ p.sql_state ++ p.error_message

-- An ERR packet with a state of five characters is parsed into its fields.
pub parse_err-layout :
    (p : ErrPacket)
    → p.error_code < 2 ^ 16
    → length p.sql_state ≡ 5
    → parse_err_packet (err_layout p) ≡ ok p
unfolding parse_err_packet
parse_err-layout p h k = ground (
  arith,
  length-append p.sql_state p.error_message,
  take-length-append p.sql_state p.error_message,
  drop-length-append p.sql_state p.error_message,
)
