-- ===== src/Session/Query.antt =====
-- `handleQuery`: the transaction state is tracked, and the query or its rewritten form is forwarded.
-- `rewritten query` is the new text where parsing, conversion and rewriting give one, and `none`
-- where the original packet is forwarded; the program's is that of Parser/Rewrite. Trimming and
-- upper-casing are those of ASCII text.
use transisi_db.Prelude.{
  ℕ, Bool, true, false, ◌&&◌, ◌||◌, Option, none, some, List, [], ◌∷◌, leb, ◌==◌, drop,
  if◌then◌else◌, codes, bytes_eq,
}
use mathlib.Core.List.{reverse}
use transisi_db.Protocol.Packet.{Packet}
use transisi_db.Protocol.Commands.{to_upper, com_query}
use transisi_db.Session.Io.{Session, Io}
use transisi_db.Session.Forward.{forward_command}

-- Tab, line feed, vertical tab, form feed, carriage return, blank.
abbrev is_space : ℕ → Bool
is_space b = (leb 9 b && leb b 13) || b == 32

trim_left : List ℕ → List ℕ
trim_left [] = []
trim_left (b ∷ bs) = if is_space b then trim_left bs else b ∷ bs

unfoldable pub trim_space : List ℕ → List ℕ
unfolding trim_left
trim_space s = reverse (trim_left (reverse (trim_left s)))

unfoldable pub begins_tx : List ℕ → Bool
begins_tx upper = bytes_eq upper (codes "BEGIN") || bytes_eq upper (codes "START TRANSACTION")

unfoldable pub ends_tx : List ℕ → Bool
ends_tx upper = bytes_eq upper (codes "COMMIT") || bytes_eq upper (codes "ROLLBACK")

abbrev set_tx : Bool → Session → Session
set_tx b s = record s { in_tx = b; conn_in_tx = b }

unfoldable pub track_tx : List ℕ → Session → Session
unfolding begins_tx ends_tx
track_tx upper s =
    if begins_tx upper then set_tx true s else if ends_tx upper then set_tx false s else s

-- The packet that is sent on: `Length` is left at its zero value, and `WritePacket` does not read it.
unfoldable pub outgoing : (List ℕ → Option (List ℕ)) → Packet → Packet
outgoing rewritten cmd = elim (rewritten (drop 1 cmd.payload)) [
  | none ↦ cmd
  | some query ↦ record {
    packet_length = 0;
    sequence_id = cmd.sequence_id;
    payload = com_query ∷ query;
  }
]

unfoldable pub handle_query : (List ℕ → Option (List ℕ)) → Packet → Session → Io (Unit {0})
unfolding track_tx outgoing trim_space
handle_query rewritten cmd s =
    forward_command (outgoing rewritten cmd)
      (track_tx (to_upper (trim_space (drop 1 cmd.payload))) s)
