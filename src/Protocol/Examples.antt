-- ===== src/Protocol/Examples.antt =====
-- Packets and payloads, and the theorems about the protocol at them.
use Prim.Native.Nat.{ℕ, ◌+◌, ◌≤◌, ◌-◌, ◌^◌}
use transisi_db.Prelude.{◌≡◌, ◌≢◌, ◌↔◌, refl, List, [], ◌∷◌, ◌++◌, arith, codes}
use transisi_db.Protocol.Bytes
use transisi_db.Protocol.Bytes.{panic}
use transisi_db.Protocol.Packet.{Packet, Conn, read_packet, write_packet}
use transisi_db.Protocol.Packet
use transisi_db.Protocol.Packet.RoundTrip.{packet, write-read_packet}
use transisi_db.Protocol.Lenenc.{read_length_encoded_int, read_length_encoded_string}
use transisi_db.Protocol.Lenenc.Overflow.{read_string_panics}
use transisi_db.Protocol.Response.{
  OkPacket, ErrPacket, parse_ok_packet, parse_err_packet, parse_eof_packet,
}
use transisi_db.Protocol.Response.Parse.{ok_layout, parse_ok-layout, parsers_never_panic}
use transisi_db.Protocol.Commands.{get_command_name}
use transisi_db.Protocol.Handshake.{HandshakeV10, new_handshake_v10}

abbrev line : Conn
line = record { incoming = []; sent = 9 ∷ []; writes_left = 5 }

abbrev hello : List ℕ
hello = codes "hello"

write-read_packet_example :
    (bytes : List ℕ) × (write_packet 3 hello line
      ≡ Packet.ok tt (record line { sent = line.sent ++ bytes; writes_left = 3 }))
    × (read_packet (record line { incoming = bytes ++ 7 ∷ 8 ∷ [] })
        ≡ Packet.ok (packet 3 hello) (record line { incoming = 7 ∷ 8 ∷ [] }))
write-read_packet_example =
    write-read_packet 3 hello (7 ∷ 8 ∷ []) line line (omega arith) (omega arith)

-- A declared length of 2 ^ 64 - 1.
abbrev hostile : List ℕ
hostile = 0xfe ∷ 255 ∷ 255 ∷ 255 ∷ 255 ∷ 255 ∷ 255 ∷ 255 ∷ 255 ∷ []

read_string_panics_example :
    (read_length_encoded_string hostile ≡ panic) ↔ (2 ^ 64 ≤ 9 + (2 ^ 64 - 1))
unfolding read_length_encoded_int
read_string_panics_example = read_string_panics hostile (omega arith)

abbrev inserted : OkPacket
inserted = record {
  affected_rows = 1;
  last_insert_id = 70000;
  status_flags = 2;
  warnings = 0;
  info = hello;
}

parse_ok-layout_example : parse_ok_packet (ok_layout inserted) ≡ Bytes.ok inserted
parse_ok-layout_example = parse_ok-layout inserted (omega arith)

abbrev denied : ErrPacket
denied = record { error_code = 1045; sql_state = codes "28000"; error_message = hello }

parsers_never_panic_example :
    (parse_ok_packet hostile ≢ panic)
    × (parse_err_packet hostile ≢ panic)
    × (parse_eof_packet hostile ≢ panic)
parsers_never_panic_example = parsers_never_panic hostile (omega arith)

abbrev eof_payload : List ℕ
eof_payload = 0xfe ∷ 1 ∷ 0 ∷ 2 ∷ 0 ∷ []

abbrev salt1 : List ℕ
salt1 = 1 ∷ 2 ∷ 3 ∷ 4 ∷ 5 ∷ 6 ∷ 7 ∷ 8 ∷ []

abbrev salt2 : List ℕ
salt2 = 9 ∷ 10 ∷ 11 ∷ 12 ∷ 13 ∷ 14 ∷ 15 ∷ 16 ∷ 17 ∷ 18 ∷ 19 ∷ 20 ∷ []

abbrev greeting : HandshakeV10
greeting = new_handshake_v10 (salt1 ++ salt2) 77

names_example : get_command_name 3 ≡ "COM_QUERY"
unfolding get_command_name
names_example = refl
