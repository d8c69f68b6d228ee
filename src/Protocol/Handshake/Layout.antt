-- ===== src/Protocol/Handshake/Layout.antt =====
-- The bytes of the initial handshake packet against the MySQL protocol's description of it.
use transisi_db.Prelude.{
  ℕ, ◌/◌, ◌%◌, ◌^◌, ◌<◌, ◌≡◌, ◌↔◌, List, [], ◌∷◌, ◌++◌, arith, length, replicate, append_assoc,
  append-nil, length-append, take-length-append, drop-length-append,
}
use transisi_db.Protocol.Bytes.{ok, panic, put_uint16, put_uint32}
use transisi_db.Protocol.Handshake.{HandshakeV10, encode, encode_head, encode_flags}

-- The packet as the protocol lays it out, for an auth plugin data in two parts.
abbrev pub layout : HandshakeV10 → List ℕ → List ℕ → List ℕ
layout h part1 part2 =
    (h.protocol_version ∷ (h.server_version ++ 0 ∷ []))
    ++ (put_uint32 h.connection_id
        ++ ((part1 ++ 0 ∷ [])
            ++ (put_uint16 (h.capability_flags % 2 ^ 16)
                ++ ((h.character_set ∷ put_uint16 h.status_flags)
                    ++ (put_uint16 (h.capability_flags / 2 ^ 16 % 2 ^ 16)
                        ++ ((21 ∷ replicate 10 0)
                            ++ ((part2 ++ 0 ∷ []) ++ (h.auth_plugin_name ++ 0 ∷ []))))))))

pieces :
    (h : HandshakeV10) (part1 part2 : List ℕ)
    → ((encode_flags h (encode_head h part1) ++ part2) ++ 0 ∷ []) ++ (h.auth_plugin_name ++ 0 ∷ [])
      ≡ layout h part1 part2
unfolding encode_flags encode_head
pieces h part1 part2 = simp append_assoc

-- A handshake whose auth data are 20 bytes, 8 and 12, is encoded as the protocol lays it out.
pub encode-layout :
    (h : HandshakeV10) (part1 part2 : List ℕ)
    → h.auth_plugin_data ≡ part1 ++ part2
    → length part1 ≡ 8
    → length part2 ≡ 12
    → encode h ≡ ok (layout h part1 part2)
unfolding encode
encode-layout h part1 part2 e l1 l2 = ground (
  arith,
  pieces h part1 part2,
  length-append part1 part2,
  take-length-append part1 part2,
  drop-length-append part1 part2,
  take-length-append part2 [],
  append-nil part2,
  append_assoc ((encode_flags h (encode_head h part1) ++ part2) ++ 0 ∷ []) h.auth_plugin_name
      (0 ∷ []),
)

encode_short : (h : HandshakeV10) → length h.auth_plugin_data < 20 → encode h ≡ panic
unfolding encode
encode_short h k = ground arith

encode_panic : (h : HandshakeV10) → encode h ≡ panic → length h.auth_plugin_data < 20
unfolding encode
encode_panic h e = ground arith

-- `Encode` panics exactly when the auth plugin data has fewer than 20 bytes.
pub encode_panics : (h : HandshakeV10) → (encode h ≡ panic) ↔ (length h.auth_plugin_data < 20)
encode_panics h = (encode_panic h, encode_short h)
