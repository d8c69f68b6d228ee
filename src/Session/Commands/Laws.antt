-- ===== src/Session/Commands/Laws.antt =====
-- The command loop.
use transisi_db.Prelude.{
  ℕ, ◌≡◌, refl, sym, ap, subst, ◌∙◌, inl, inr, Option, List, [], ◌∷◌, ◌++◌, arith, Bool-cases, ◌==◌,
  drop,
}
use transisi_db.Protocol.Bytes.{IsBytes}
use transisi_db.Protocol.Packet.{Packet, Conn}
use transisi_db.Protocol.Commands.{to_upper, com_ping, com_init_db, com_query, com_stmt_prepare}
use transisi_db.Session.Io.{Session, ok}
use transisi_db.Session.Forward.{forward_command}
use transisi_db.Session.Forward.Transparent.{
  Forwarded, forward_command-Forwarded, handle_prepare-Forwarded,
}
use transisi_db.Session.Query.{handle_query, outgoing, track_tx, trim_space}
use transisi_db.Session.Commands.{handle_command, handle_init_db}

-- What has come from the backend is what went to the client, and the session agrees with its
-- `BackendConn` on the transaction and the database.
pub record Proxied (s t : Session) : Type 0 where
  pub moved : List ℕ
  pub taken : s.backend.incoming ≡ moved ++ t.backend.incoming
  pub given : t.client.sent ≡ s.client.sent ++ moved
  pub same_tx : t.in_tx ≡ t.conn_in_tx
  pub same_database : t.database ≡ t.conn_database

-- The agreement itself.
pub record Agrees (s : Session) : Type 0 where
  pub tx : s.in_tx ≡ s.conn_in_tx
  pub db : s.database ≡ s.conn_database

pub record Handled (s t : Session) : Type 0 where
  pub proxied : Proxied s t
  pub client_unread : t.client.incoming ≡ s.client.incoming

Handled-of_Forwarded : (cmd : Packet) (s t : Session) → Agrees s → Forwarded cmd s t → Handled s t
Handled-of_Forwarded cmd s t a f = record {
  proxied = record {
    moved = f.response;
    taken = f.taken;
    given = f.given;
    same_tx = f.same_tx ∙ a.tx ∙ sym f.same_conn_tx;
    same_database = f.same_database ∙ a.db ∙ sym f.same_conn_database;
  };
  client_unread = f.client_unread;
}

-- Tracking changes nothing but the two fields that it keeps in step.
pub track_tx-same :
    (upper : List ℕ) (s : Session)
    → let t = track_tx upper s in
      (t.backend ≡ s.backend)
      × (t.client ≡ s.client)
      × (t.database ≡ s.database)
      × (t.conn_database ≡ s.conn_database)
unfolding track_tx
track_tx-same upper s = ground arith

track_tx-Agrees : (upper : List ℕ) (s : Session) → Agrees s → Agrees (track_tx upper s)
unfolding track_tx
track_tx-Agrees upper s a = ground arith

Handled-from :
    (s u t : Session) → u.backend ≡ s.backend → u.client ≡ s.client → Handled u t → Handled s t
Handled-from s u t b c h = record {
  proxied = record {
    moved = h.proxied.moved;
    taken = ap (λ (x : Conn). x.incoming) (sym b) ∙ h.proxied.taken;
    given = h.proxied.given ∙ ap (λ (x : Conn). x.sent ++ h.proxied.moved) c;
    same_tx = h.proxied.same_tx;
    same_database = h.proxied.same_database;
  };
  client_unread = h.client_unread ∙ ap (λ (x : Conn). x.incoming) c;
}

-- A command forwarded from a session that differs only in its own fields.
forwarded-Handled :
    (cmd : Packet) (s u : Session) {t : Session}
    → u.backend ≡ s.backend
    → u.client ≡ s.client
    → Agrees u
    → IsBytes s.backend.incoming
    → forward_command cmd u ≡ ok tt t
    → Handled s t
forwarded-Handled cmd s u {t} b c a v h = Handled-from s u t b c (
    Handled-of_Forwarded cmd u t a
      (forward_command-Forwarded cmd u (subst (λ (x : Conn). IsBytes x.incoming) (sym b) v) h))

handle_query-Handled :
    (rewritten : List ℕ → Option (List ℕ)) (cmd : Packet) (s : Session) {t : Session}
    → Agrees s
    → IsBytes s.backend.incoming
    → handle_query rewritten cmd s ≡ ok tt t
    → Handled s t
unfolding handle_query
handle_query-Handled rewritten cmd s a v h =
    let upper : List ℕ = to_upper (trim_space (drop 1 cmd.payload)) in
    let same = track_tx-same upper s in
    forwarded-Handled (outgoing rewritten cmd) s (track_tx upper s) same.0 same.1
      (track_tx-Agrees upper s a) v h

handle_init_db-Handled :
    (name : List ℕ) (cmd : Packet) (s : Session) {t : Session}
    → Agrees s
    → IsBytes s.backend.incoming
    → handle_init_db name cmd s ≡ ok tt t
    → Handled s t
unfolding handle_init_db
handle_init_db-Handled [] cmd s a v h = forwarded-Handled cmd s s refl refl a v h
handle_init_db-Handled (b ∷ bs) cmd s a v h =
    forwarded-Handled cmd s _ refl refl (record { tx = a.tx; db = refl }) v h

pub handle_command-Handled :
    (rewritten : List ℕ → Option (List ℕ)) (code : ℕ) (name : List ℕ) (cmd : Packet) (s : Session)
    {t : Session}
    → Agrees s
    → IsBytes s.backend.incoming
    → handle_command rewritten code name cmd s ≡ ok tt t
    → Handled s t
unfolding handle_command
handle_command-Handled rewritten code name cmd s {t} a v h = elim (Bool-cases (code == com_ping)) [
  | inl e ↦ forwarded-Handled cmd s s refl refl a v (rw e at h)
  | inr e ↦ elim (Bool-cases (code == com_init_db)) [
    | inl f ↦ handle_init_db-Handled name cmd s a v (rw (e, f) at h)
    | inr f ↦ elim (Bool-cases (code == com_query)) [
      | inl g ↦ handle_query-Handled rewritten cmd s a v (rw (e, f, g) at h)
      | inr g ↦ elim (Bool-cases (code == com_stmt_prepare)) [
        | inl k ↦
            Handled-of_Forwarded cmd s t a (handle_prepare-Forwarded cmd s v (rw (e, f, g, k) at h))
        | inr k ↦ forwarded-Handled cmd s s refl refl a v (rw (e, f, g, k) at h)
      ]
    ]
  ]
]
