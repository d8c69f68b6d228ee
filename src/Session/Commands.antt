-- ===== src/Session/Commands.antt =====
-- `handleCommands`: one command after another until the client quits or a stream fails.
pub mod Laws
pub mod Run
use transisi_db.Prelude.{
  ℕ, zero, suc, Bool, true, false, Option, List, [], ◌∷◌, ◌==◌, length, if◌then◌else◌,
}
use transisi_db.Protocol.Packet.{Packet}
use transisi_db.Protocol.Commands.{com_quit, com_ping, com_init_db, com_query, com_stmt_prepare}
use transisi_db.Session.Io.{Session, Io, ok, err, stuck, ◌>>=◌, read_client, read_command}
use transisi_db.Session.Forward.{forward_command, handle_prepare}
use transisi_db.Session.Query.{handle_query}

-- The name behind the command byte, if there is one.
track_database : List ℕ → Session → Session
track_database [] s = s
track_database (b ∷ bs) s = record s { database = b ∷ bs; conn_database = b ∷ bs }

unfoldable pub handle_init_db : List ℕ → Packet → Session → Io (Unit {0})
unfolding track_database
handle_init_db name cmd s = forward_command cmd (track_database name s)

-- The `switch` of the loop, for all commands but COM_QUIT.
unfoldable pub handle_command :
    (List ℕ → Option (List ℕ)) → ℕ → List ℕ → Packet → Session → Io (Unit {0})
unfolding handle_init_db
handle_command rewritten code name cmd s =
    if code == com_ping
    then forward_command cmd s
    else if code == com_init_db
    then handle_init_db name cmd s
    else if code == com_query
    then handle_query rewritten cmd s
    else if code == com_stmt_prepare
    then handle_prepare cmd s
    else forward_command cmd s

-- What one round does with the command: go on, or return nil.
pub data Round : Type 0 where
  go_on quit : Round

round : (List ℕ → Option (List ℕ)) → List ℕ → Packet → Session → Io Round
unfolding handle_command
round rewritten [] cmd s = ok go_on s
round rewritten (code ∷ name) cmd s =
    if code == com_quit
    then ok quit s
    else (handle_command rewritten code name cmd s >>= λ _ s. ok go_on s)

loop : (List ℕ → Option (List ℕ)) → ℕ → Session → Io (Unit {0})
unfolding round
loop rewritten zero s = stuck
loop rewritten (suc fuel) s = read_client read_command s >>= λ cmd s.
    round rewritten cmd.payload cmd s >>= λ r s. elim r [
      | quit ↦ ok tt s
      | go_on ↦ loop rewritten fuel s
    ]

-- Each round takes four bytes of the client's stream at least.
unfoldable pub handle_commands : (List ℕ → Option (List ℕ)) → Session → Io (Unit {0})
unfolding loop
handle_commands rewritten s = loop rewritten (suc (length s.client.incoming)) s
