-- ===== src/Protocol/Handshake.antt =====
-- pkg/protocol/handshake.go: the initial handshake packet. The salt comes from `crypto/rand`, and is
-- an argument. Strings are lists of bytes.
pub mod Layout
use transisi_db.Prelude.{
  ℕ, zero, suc, ◌+◌, ◌-◌, ◌*◌, ◌/◌, ◌%◌, ◌^◌, ◌≤◌, ◌<◌, ◌≡◌, refl, inl, inr, Bool, true, false,
  ◌&&◌, List, [], ◌∷◌, ◌++◌, ltb, leb, ◌==◌, if◌then◌else◌, arith, ap, length, take, drop,
  replicate, append_assoc, length-append, take-length-append, drop-length-append, length-take_le,
  length-drop, take-append-drop, All, codes,
}
use transisi_db.Protocol.Bytes.{
  Result, ok, panic, slice, ◌>>=◌, uint32, put_uint16, put_uint32, uint16_digits, uint32_digits,
}
use transisi_db.Protocol.Packet.{write_string, write_uint16, write_uint32}

pub record HandshakeV10 : Type 0 where
  pub protocol_version : ℕ
  pub server_version : List ℕ
  pub connection_id : ℕ
  pub auth_plugin_data : List ℕ
  pub capability_flags : ℕ
  pub character_set : ℕ
  pub status_flags : ℕ
  pub auth_plugin_name : List ℕ

unfoldable pub new_handshake_v10 : List ℕ → ℕ → HandshakeV10
new_handshake_v10 salt id = record {
  protocol_version = 10;
  server_version = codes "8.0.30-TransisiDB";
  connection_id = id;
  auth_plugin_data = salt;
  capability_flags = 65535;
  character_set = 45;
  status_flags = 2;
  auth_plugin_name = codes "mysql_native_password";
}

-- Up to the first part of the auth data, and from there to its second part.
encode_head : HandshakeV10 → List ℕ → List ℕ
unfolding write_string write_uint32
encode_head h part1 =
    let buf = [] ++ h.protocol_version ∷ [] in
    let buf = write_string buf h.server_version in
    let buf = write_uint32 buf h.connection_id in (buf ++ part1) ++ 0x00 ∷ []

encode_flags : HandshakeV10 → List ℕ → List ℕ
unfolding write_uint16
encode_flags h buf =
    let buf = write_uint16 buf (h.capability_flags % 2 ^ 16) in
    let buf = buf ++ h.character_set ∷ [] in
    let buf = write_uint16 buf h.status_flags in
    let buf = write_uint16 buf (h.capability_flags / 2 ^ 16 % 2 ^ 16) in
    let buf = buf ++ 21 ∷ [] in buf ++ replicate 10 0

unfoldable pub encode : HandshakeV10 → Result (List ℕ)
unfolding encode_head encode_flags write_string
encode h = do
  part1 ← slice h.auth_plugin_data 0 8
  part2 ← slice h.auth_plugin_data 8 20
  let buf = encode_flags h (encode_head h part1)
  ok (write_string ((buf ++ part2) ++ 0x00 ∷ []) h.auth_plugin_name)
