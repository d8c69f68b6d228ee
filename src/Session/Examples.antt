-- ===== src/Session/Examples.antt =====
-- A short session, and the theorems about sessions at it.
use transisi_db.Prelude.{
  Bool, some, ℕ, ◌≡◌, refl, true, false, Option, none, List, [], ◌∷◌, ◌++◌, arith,
}
use transisi_db.Protocol.Packet.{read_packet, write_packet}
use transisi_db.Protocol.Packet.RoundTrip.{packet}
use transisi_db.Protocol.Response.{is_ok_packet, is_err_packet, is_eof_packet}
use transisi_db.Pool.{BackendConn, BackendPool, new_backend_pool}
use transisi_db.Session.Serve.{serve, Ending}
use transisi_db.Session.Serve.Laws.{serve-IsClosedAt, HasNoIdle, IsClosedAt}
use transisi_db.Session.Io.{Session, read_client, ok, err, authentication_failed}
use transisi_db.Session.Forward.{forward_command, read_response}
use transisi_db.Session.Forward.Transparent.{Forwarded, forward_command-Forwarded}
use transisi_db.Session.Forward.Response.{
  Sent, wire, after, packets, Response, table, read_response_exact,
}
use transisi_db.Protocol.Commands.{to_upper}
use transisi_db.Session.Query.{handle_query}
use transisi_db.Session.Commands.{handle_commands}
use transisi_db.Session.Commands.Laws.{Proxied}
use transisi_db.Session.Commands.Run.{Ready, handle_commands-Proxied}
use transisi_db.Session.Auth.{handle}
use transisi_db.Session.Auth.Laws.{refused_client, refused_session}

-- No query is rewritten.
abbrev unchanged : List ℕ → Option (List ℕ)
unchanged query = none

abbrev ping : Sent
ping = (0, 0x0e ∷ [])

abbrev begin_query : Sent
begin_query = (0, 0x03 ∷ b'b' ∷ b'e' ∷ b'g' ∷ b'i' ∷ b'n' ∷ [])

abbrev quit : Sent
quit = (0, 0x01 ∷ [])

abbrev fine : Sent
fine = (1, 0x00 ∷ 0 ∷ 0 ∷ 2 ∷ 0 ∷ 0 ∷ 0 ∷ [])

abbrev failing : Sent
failing = (2, 0xff ∷ 0x15 ∷ 0x04 ∷ b'#' ∷ b'2' ∷ b'8' ∷ b'0' ∷ b'0' ∷ b'0' ∷ [])

abbrev eof : Sent
eof = (3, 0xfe ∷ 0 ∷ 0 ∷ 2 ∷ 0 ∷ [])

abbrev session : List Sent → List Sent → Session
session from_client from_backend = record {
  client = record { incoming = wire from_client; sent = []; writes_left = 20 };
  backend = record { incoming = wire from_backend; sent = []; writes_left = 20 };
  in_tx = false;
  database = [];
  conn_in_tx = false;
  conn_database = [];
}

-- The client pings, begins a transaction and quits.
abbrev short : Session
short = session (ping ∷ begin_query ∷ quit ∷ []) (fine ∷ fine ∷ [])

abbrev short_end : Session
short_end = record {
  client = record { incoming = []; sent = wire (fine ∷ fine ∷ []); writes_left = 16 };
  backend = record { incoming = []; sent = wire (ping ∷ begin_query ∷ []); writes_left = 16 };
  in_tx = true;
  database = [];
  conn_in_tx = true;
  conn_database = [];
}

short-Ready : Ready short
short-Ready = record {
  agrees = record { tx = refl; db = refl };
  client_bytes = omega arith;
  backend_bytes = omega arith;
}

short_runs : handle_commands unchanged short ≡ ok tt short_end
unfolding handle_commands forward_command read_packet write_packet is_ok_packet is_err_packet
    read_client handle_query to_upper
short_runs = refl

handle_commands-Proxied_example : Proxied short short_end
handle_commands-Proxied_example = handle_commands-Proxied unchanged short short-Ready short_runs

ping_forwarded :
    forward_command (packet 0 (0x0e ∷ [])) short
    ≡ ok tt (record short {
      backend = record (short.backend) {
        incoming = wire (fine ∷ []);
        sent = wire (ping ∷ []);
        writes_left = 18;
      };
      client = record (short.client) { sent = wire (fine ∷ []); writes_left = 18 };
    })
unfolding forward_command read_packet write_packet is_ok_packet is_err_packet
ping_forwarded = refl

forward_command-Forwarded_example : Forwarded (packet 0 (0x0e ∷ [])) short (record short {
  backend = record (short.backend) {
    incoming = wire (fine ∷ []);
    sent = wire (ping ∷ []);
    writes_left = 18;
  };
  client = record (short.client) { sent = wire (fine ∷ []); writes_left = 18 };
})
forward_command-Forwarded_example =
    forward_command-Forwarded (packet 0 (0x0e ∷ [])) short (omega arith) ping_forwarded

-- One column, two rows, and the response to the next command behind them.
abbrev rows : Response
rows =
    table (1, 1 ∷ []) ((2, 3 ∷ b'd' ∷ b'e' ∷ b'f' ∷ []) ∷ []) eof
      ((4, 1 ∷ b'7' ∷ []) ∷ (5, 1 ∷ b'8' ∷ []) ∷ []) eof

abbrev queried : Session
queried = record (session [] []) {
  backend = record {
    incoming = wire (packets rows) ++ wire (fine ∷ []);
    sent = [];
    writes_left = 20;
  };
}

read_response_exact_example :
    read_response queried ≡ ok tt (after (packets rows) (wire (fine ∷ [])) queried)
unfolding is_ok_packet is_err_packet is_eof_packet
read_response_exact_example =
    read_response_exact rows (wire (fine ∷ [])) queried
      (
        omega arith,
        refl,
        record { go_on = ((omega arith, refl), tt); last_fits = omega arith; stops = refl },
        record {
          go_on = ((omega arith, refl), ((omega arith, refl), tt));
          last_fits = omega arith;
          stops = refl;
        },
      )
      (omega arith) refl

-- The client sends a query behind its handshake response, and is refused.
abbrev intruder : Session
intruder = session ((1, 9 ∷ []) ∷ begin_query ∷ []) ((0, 10 ∷ []) ∷ failing ∷ [])

refused_client_example :
    handle unchanged intruder
    ≡ err authentication_failed
        (refused_session (0, 10 ∷ []) (1, 9 ∷ []) failing [] (wire (begin_query ∷ [])) intruder)
unfolding is_err_packet
refused_client_example =
    refused_client unchanged (0, 10 ∷ []) (1, 9 ∷ []) failing [] (wire (begin_query ∷ [])) intruder
      (omega arith) (omega arith) (omega arith) refl (omega arith) (omega arith) refl refl

abbrev healthy : BackendConn → Bool
healthy bc = true

abbrev small_pool : BackendPool
small_pool = new_backend_pool 0 2

abbrev visit : Option BackendPool × Ending ℕ
visit = serve unchanged short.client (λ _. short.backend) healthy 4 5 none 9 (some small_pool)

-- The session ends at 9, on a connection that was dialed at 5.
serve-IsClosedAt_example : HasNoIdle visit.0 × IsClosedAt 9 visit.1
unfolding new_backend_pool
serve-IsClosedAt_example =
    serve-IsClosedAt {E = ℕ} unchanged short.client (λ _. short.backend) healthy 4 5 none 9
      (some small_pool) refl short-Ready.client_bytes (λ _. short-Ready.backend_bytes)
