-- ===== src/Session/Io/Relay.antt =====
-- What passes through the session from the backend to the client.
use mathlib.Core.Path.{subst}
use transisi_db.Prelude.{
  ℕ, ◌+◌, ◌≤◌, ◌≡◌, refl, sym, ap, ◌∙◌, List, [], ◌++◌, append_assoc, append-nil, length,
  length-append, arith,
}
use transisi_db.Protocol.Bytes.{IsBytes, IsBytes-append_right}
use transisi_db.Protocol.Packet.{Packet, Conn, Reply, read_packet, write_packet}
use transisi_db.Protocol.Packet
use transisi_db.Protocol.Packet.RoundTrip.{
  encoding, Reads, Writes, read_packet-Reads, write_packet-Writes,
}
use transisi_db.Session.Io.{Session, Stage, ok, relay}

-- The bytes taken from the backend are exactly those handed to the client, in order; nothing else is
-- read or written, and the session's own fields stay.
pub record Relayed (s t : Session) : Type 0 where
  pub moved : List ℕ
  pub taken : s.backend.incoming ≡ moved ++ t.backend.incoming
  pub given : t.client.sent ≡ s.client.sent ++ moved
  pub client_unread : t.client.incoming ≡ s.client.incoming
  pub backend_unsent : t.backend.sent ≡ s.backend.sent
  pub same_tx : t.in_tx ≡ s.in_tx
  pub same_conn_tx : t.conn_in_tx ≡ s.conn_in_tx
  pub same_database : t.database ≡ s.database
  pub same_conn_database : t.conn_database ≡ s.conn_database

pub Relayed-refl : (s : Session) → Relayed s s
Relayed-refl s = record {
  moved = [];
  taken = refl;
  given = sym (append-nil s.client.sent);
  client_unread = refl;
  backend_unsent = refl;
  same_tx = refl;
  same_conn_tx = refl;
  same_database = refl;
  same_conn_database = refl;
}

pub Relayed-trans : {s t u : Session} → Relayed s t → Relayed t u → Relayed s u
Relayed-trans {s} {t} {u} r q = record {
  moved = r.moved ++ q.moved;
  taken =
      r.taken
      ∙ ap (λ bs. r.moved ++ bs) q.taken
      ∙ sym (append_assoc r.moved q.moved u.backend.incoming);
  given = q.given ∙ ap (λ bs. bs ++ q.moved) r.given ∙ append_assoc s.client.sent r.moved q.moved;
  client_unread = q.client_unread ∙ r.client_unread;
  backend_unsent = q.backend_unsent ∙ r.backend_unsent;
  same_tx = q.same_tx ∙ r.same_tx;
  same_conn_tx = q.same_conn_tx ∙ r.same_conn_tx;
  same_database = q.same_database ∙ r.same_database;
  same_conn_database = q.same_conn_database ∙ r.same_conn_database;
}

pub Relayed-IsBytes :
    {s t : Session} → Relayed s t → IsBytes s.backend.incoming → IsBytes t.backend.incoming
Relayed-IsBytes {s} {t} r v = IsBytes-append_right r.moved _ (subst IsBytes r.taken v)

Relayed_of_parts :
    (s : Session) {p : Packet} {c d : Conn}
    → Reads s.backend p c
    → Writes p.sequence_id p.payload s.client d
    → Relayed s (record s { backend = c; client = d })
Relayed_of_parts s {p} r w = record {
  moved = encoding p;
  taken = r.consumed;
  given = w.added;
  client_unread = w.same_incoming;
  backend_unsent = r.same_sent;
  same_tx = refl;
  same_conn_tx = refl;
  same_database = refl;
  same_conn_database = refl;
}

-- One packet passes: its bytes are moved, and the backend's stream is shorter by four at least.
pub record Passed (s : Session) (p : Packet) (t : Session) : Type 0 where
  pub relayed : Relayed s t
  pub whole : relayed.moved ≡ encoding p
  pub shorter : length t.backend.incoming + 4 ≤ length s.backend.incoming

relay_cases :
    (reading writing : Stage) (s : Session) {p : Packet} {t : Session}
    → relay reading writing s ≡ ok p t
    → (c : Conn) × (d : Conn) × (read_packet s.backend ≡ Packet.ok p c)
      × (write_packet p.sequence_id p.payload s.client ≡ Packet.ok tt d)
      × (t ≡ record s { backend = c; client = d })
unfolding relay
relay_cases reading writing s {p} {t} h =
    (t.backend, t.client, ground arith, ground arith, ground arith)

pub relay-Passed :
    (reading writing : Stage) (s : Session) {p : Packet} {t : Session}
    → IsBytes s.backend.incoming
    → relay reading writing s ≡ ok p t
    → Passed s p t
unfolding Relayed_of_parts
relay-Passed reading writing s {p} {t} v h =
    let (c, d, hr, hw, e) = relay_cases reading writing s h in
    let r = read_packet-Reads s.backend v hr in
    let w = write_packet-Writes p.sequence_id p.payload s.client hw in
    subst (Passed s p) (sym e) (record {
      relayed = Relayed_of_parts s r w;
      whole = refl;
      shorter = omega (arith, ap length r.consumed, length-append (encoding p) c.incoming);
    })
