-- ===== src/Session/Forward/Transparent.antt =====
-- A forwarded command and its response pass unchanged.
use transisi_db.Prelude.{
  ℕ, zero, suc, ◌≡◌, sym, subst, ◌∙◌, inl, inr, Bool, ◌||◌, List, ◌++◌, length, arith, Bool-cases,
  ltb,
}
use transisi_db.Protocol.Bytes.{IsBytes}
use transisi_db.Protocol.Packet.{Packet, Conn}
use transisi_db.Protocol.Response.{is_ok_packet, is_err_packet, is_eof_packet}
use transisi_db.Protocol.Packet.RoundTrip.{encoding, packet, Writes, write_packet-Writes}
use transisi_db.Session.Io.{
  Session, Io, Stage, prepare_response, prepare_to_client, ok, relay, ◌>>=◌, >>=-eq-ok,
  write_backend,
}
use transisi_db.Session.Io.Relay.{
  Relayed, Relayed-refl, Relayed-trans, Relayed-IsBytes, relay-Passed,
}
use transisi_db.Session.Forward.{
  relay_until, relay_times, definitions, result_set, read_response, forward_command,
  prepare_response_body, handle_prepare, ends_rows, rounds, count_at,
}

pub relay_until-Relayed :
    (stop : List ℕ → Bool) (r w : Stage) (fuel : ℕ) (s : Session) {t : Session}
    → IsBytes s.backend.incoming
    → relay_until stop r w fuel s ≡ ok tt t
    → Relayed s t
unfolding relay_until
relay_until-Relayed stop r w zero s v h = cc
relay_until-Relayed stop r w (suc fuel) s {t} v h =
    let (p, u, e, k) = >>=-eq-ok (relay r w s) _ h in
    let passed = relay-Passed r w s v e in
    elim (Bool-cases (stop p.payload)) [
      | inl b ↦ let same : t ≡ u = ground arith in subst (Relayed s) (sym same) passed.relayed
      | inr b ↦
          Relayed-trans passed.relayed
            (relay_until-Relayed stop r w fuel u (Relayed-IsBytes passed.relayed v) (ground arith))
    ]

relay_times-Relayed :
    (r w : Stage) (n : ℕ) (s : Session) {t : Session}
    → IsBytes s.backend.incoming
    → relay_times r w n s ≡ ok tt t
    → Relayed s t
unfolding relay_times
relay_times-Relayed r w zero s {t} v h =
    let same : s ≡ t = ground arith in subst (Relayed s) same (Relayed-refl s)
relay_times-Relayed r w (suc n) s v h =
    let (p, u, e, k) = >>=-eq-ok (relay r w s) _ h in
    let passed = relay-Passed r w s v e in
    Relayed-trans passed.relayed (relay_times-Relayed r w n u (Relayed-IsBytes passed.relayed v) k)

result_set-Relayed :
    (s : Session) {t : Session} → IsBytes s.backend.incoming → result_set s ≡ ok tt t → Relayed s t
unfolding result_set
result_set-Relayed s v h =
    let (_, u, e, k) = >>=-eq-ok _ _ h in
    let columns = relay_until-Relayed is_eof_packet _ _ (rounds s) s v e in
    Relayed-trans columns
      (relay_until-Relayed ends_rows _ _ (rounds u) u (Relayed-IsBytes columns v) k)

read_response-Relayed :
    (s : Session) {t : Session}
    → IsBytes s.backend.incoming
    → read_response s ≡ ok tt t
    → Relayed s t
unfolding read_response
read_response-Relayed s {t} v h =
    let (p, u, e, k) = >>=-eq-ok _ _ h in
    let passed = relay-Passed _ _ s v e in
    elim (Bool-cases (is_ok_packet p.payload || is_err_packet p.payload)) [
      | inl b ↦ let same : t ≡ u = ground arith in subst (Relayed s) (sym same) passed.relayed
      | inr b ↦
          Relayed-trans passed.relayed
            (result_set-Relayed u (Relayed-IsBytes passed.relayed v) (ground arith))
    ]

-- A command went to the backend and its response came back: the backend was sent the command's
-- packet and no more, the client was sent exactly the bytes that were taken from the backend, in
-- order, nothing was read from the client, and the session's own fields stay.
pub record Forwarded (cmd : Packet) (s t : Session) : Type 0 where
  pub response : List ℕ
  pub asked : t.backend.sent ≡ s.backend.sent ++ encoding (packet cmd.sequence_id cmd.payload)
  pub taken : s.backend.incoming ≡ response ++ t.backend.incoming
  pub given : t.client.sent ≡ s.client.sent ++ response
  pub client_unread : t.client.incoming ≡ s.client.incoming
  pub same_tx : t.in_tx ≡ s.in_tx
  pub same_conn_tx : t.conn_in_tx ≡ s.conn_in_tx
  pub same_database : t.database ≡ s.database
  pub same_conn_database : t.conn_database ≡ s.conn_database

Forwarded-of_parts :
    (cmd : Packet) (s : Session) (c : Conn) {t : Session}
    → Writes cmd.sequence_id cmd.payload s.backend c
    → Relayed (record s { backend = c }) t
    → Forwarded cmd s t
Forwarded-of_parts cmd s c w r = record {
  response = r.moved;
  asked = r.backend_unsent ∙ w.added;
  taken = sym w.same_incoming ∙ r.taken;
  given = r.given;
  client_unread = r.client_unread;
  same_tx = r.same_tx;
  same_conn_tx = r.same_conn_tx;
  same_database = r.same_database;
  same_conn_database = r.same_conn_database;
}

-- The write that comes first.
pub write_backend-Writes :
    (stage : Stage) (cmd : Packet) (s : Session) {u : Session}
    → write_backend stage cmd s ≡ ok tt u
    → Writes cmd.sequence_id cmd.payload s.backend u.backend
      × (u ≡ record s { backend = u.backend })
unfolding write_backend
write_backend-Writes stage cmd s h =
    (write_packet-Writes cmd.sequence_id cmd.payload s.backend (ground arith), ground arith)

Forwarded-by :
    (stage : Stage) (cmd : Packet) (s : Session) (body : Session → Io (Unit {0})) {t : Session}
    → ((u : Session) → IsBytes u.backend.incoming → body u ≡ ok tt t → Relayed u t)
    → IsBytes s.backend.incoming
    → (write_backend stage cmd s >>= λ _ u. body u) ≡ ok tt t
    → Forwarded cmd s t
Forwarded-by stage cmd s body {t} relays v h =
    let (_, u, e, k) = >>=-eq-ok (write_backend stage cmd s) (λ _ u. body u) h in
    let (w, same) = write_backend-Writes stage cmd s e in
    Forwarded-of_parts cmd s u.backend w
      (subst (λ x. Relayed x t) same (relays u (subst IsBytes (sym w.same_incoming) v) k))

-- When `forwardCommand` succeeds on a backend stream of bytes, command and response have passed unchanged.
pub forward_command-Forwarded :
    (cmd : Packet) (s : Session) {t : Session}
    → IsBytes s.backend.incoming
    → forward_command cmd s ≡ ok tt t
    → Forwarded cmd s t
unfolding forward_command
forward_command-Forwarded cmd s v h =
    Forwarded-by _ cmd s read_response (λ u. read_response-Relayed u) v h

definitions-Relayed :
    (r w r' w' : Stage) (n : ℕ) (s : Session) {t : Session}
    → IsBytes s.backend.incoming
    → definitions r w r' w' n s ≡ ok tt t
    → Relayed s t
unfolding definitions
definitions-Relayed r w r' w' n s {t} v h = elim (Bool-cases (ltb 0 n)) [
  | inl b ↦
      let (_, u, e, k) = >>=-eq-ok (relay_times r w n s) _ (rw b at h) in
      let params = relay_times-Relayed r w n s v e in
      let (p, x, e', k') = >>=-eq-ok (relay r' w' u) _ k in
      let same : x ≡ t = ground arith in
      let eof = relay-Passed r' w' u (Relayed-IsBytes params v) e' in
      subst (Relayed s) same (Relayed-trans params eof.relayed)
  | inr b ↦ let same : s ≡ t = ground arith in subst (Relayed s) same (Relayed-refl s)
]

prepare_response_body-Relayed :
    (p : Packet) (s : Session) {t : Session}
    → IsBytes s.backend.incoming
    → prepare_response_body p s ≡ ok tt t
    → Relayed s t
unfolding prepare_response_body
prepare_response_body-Relayed p s {t} v h = elim (Bool-cases (is_err_packet p.payload)) [
  | inl b ↦ let same : s ≡ t = ground arith in subst (Relayed s) same (Relayed-refl s)
  | inr b ↦ elim (Bool-cases (ltb (length p.payload) 9)) [
    | inl d ↦ let same : s ≡ t = ground arith in subst (Relayed s) same (Relayed-refl s)
    | inr d ↦
        let (_, u, e, k) = >>=-eq-ok _ _ (rw (b, d) at h) in
        let params = definitions-Relayed _ _ _ _ (count_at 7 p.payload) s v e in
        Relayed-trans params
          (definitions-Relayed _ _ _ _ (count_at 5 p.payload) u (Relayed-IsBytes params v) k)
  ]
]

-- When `handlePrepare` succeeds, command and response have passed unchanged.
pub handle_prepare-Forwarded :
    (cmd : Packet) (s : Session) {t : Session}
    → IsBytes s.backend.incoming
    → handle_prepare cmd s ≡ ok tt t
    → Forwarded cmd s t
unfolding handle_prepare
handle_prepare-Forwarded cmd s {t} v h = Forwarded-by _ cmd s _ (λ u v' k. rest u v' k) v h
  where
    rest :
        (u : Session)
        → IsBytes u.backend.incoming
        → (relay prepare_response prepare_to_client u >>= λ p s. prepare_response_body p s)
          ≡ ok tt t
        → Relayed u t
    rest u v' k =
        let (p, x, e, j) = >>=-eq-ok (relay prepare_response prepare_to_client u) _ k in
        let passed = relay-Passed _ _ u v' e in
        Relayed-trans passed.relayed
          (prepare_response_body-Relayed p x (Relayed-IsBytes passed.relayed v') j)
