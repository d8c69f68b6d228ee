-- ===== src/Session/Commands/Run.antt =====
-- The command loop as a whole: what it leaves behind when the client quits, and that it ends.
use transisi_db.Prelude.{
  ℕ, zero, suc, ◌<◌, ◌≡◌, ◌≢◌, refl, sym, ap, subst, ◌∙◌, inl, inr, ◌⊎◌, Option, List, [], ◌∷◌,
  ◌++◌, length, arith, Bool-cases, append_assoc, append-nil, ◌==◌, length-append, drop,
}
use transisi_db.Protocol.Bytes.{IsBytes, IsBytes-append_right}
use transisi_db.Protocol.Packet.{Packet, Conn}
use transisi_db.Protocol.Commands.{to_upper, com_quit}
use transisi_db.Protocol.Packet.RoundTrip.{Reads, read_packet-Reads, encoding}
use transisi_db.Session.Io.{Session, ok, stuck, >>=-eq-ok, >>=-ne-stuck, read_client, read_command}
use transisi_db.Session.Query.{handle_query, outgoing, track_tx, trim_space}
use transisi_db.Session.Commands.{
  handle_command, handle_init_db, handle_commands, loop, round, Round, go_on, quit,
}
use transisi_db.Session.Commands.Laws.{
  Proxied, Agrees, Handled, handle_command-Handled, track_tx-same,
}
use transisi_db.Session.Forward.Ends.{forwarding_ends}

pub Proxied-refl : (s : Session) → Agrees s → Proxied s s
Proxied-refl s a = record {
  moved = [];
  taken = refl;
  given = sym (append-nil s.client.sent);
  same_tx = a.tx;
  same_database = a.db;
}

pub Proxied-trans : (s t u : Session) → Proxied s t → Proxied t u → Proxied s u
Proxied-trans s t u p q = record {
  moved = p.moved ++ q.moved;
  taken =
      p.taken
      ∙ ap (λ bs. p.moved ++ bs) q.taken
      ∙ sym (append_assoc p.moved q.moved u.backend.incoming);
  given = q.given ∙ ap (λ bs. bs ++ q.moved) p.given ∙ append_assoc s.client.sent p.moved q.moved;
  same_tx = q.same_tx;
  same_database = q.same_database;
}

-- The session after one more packet of the client was read.
pub read_client-Handled :
    (s : Session) {cmd : Packet} {u : Session}
    → IsBytes s.client.incoming
    → read_client read_command s ≡ ok cmd u
    → Reads s.client cmd u.client × (u ≡ record s { client = u.client })
unfolding read_client
read_client-Handled s v h = (read_packet-Reads s.client v (ground arith), ground arith)

-- A round that succeeds: nothing is read from the client behind the command.
round-Handled :
    (rewritten : List ℕ → Option (List ℕ)) (payload : List ℕ) (cmd : Packet) (s : Session)
    {r : Round} {t : Session}
    → Agrees s
    → IsBytes s.backend.incoming
    → round rewritten payload cmd s ≡ ok r t
    → Handled s t
unfolding round
round-Handled rewritten [] cmd s {t = t} a v h =
    let same : s ≡ t = ground arith in
    subst (Handled s) same (record { proxied = Proxied-refl s a; client_unread = refl })
round-Handled rewritten (code ∷ name) cmd s {t = t} a v h = elim (Bool-cases (code == com_quit)) [
  | inl e ↦
      let same : s ≡ t = ground arith in
      subst (Handled s) same (record { proxied = Proxied-refl s a; client_unread = refl })
  | inr e ↦
      let (_, u, k, j) = >>=-eq-ok (handle_command rewritten code name cmd s) _ (rw e at h) in
      let same : u ≡ t = ground arith in
      subst (Handled s) same (handle_command-Handled rewritten code name cmd s a v k)
]

Handled-Agrees : {s t : Session} → Handled s t → Agrees t
Handled-Agrees h = record { tx = h.proxied.same_tx; db = h.proxied.same_database }

Handled-IsBytes :
    {s t : Session} → Handled s t → IsBytes s.backend.incoming → IsBytes t.backend.incoming
Handled-IsBytes h v = IsBytes-append_right h.proxied.moved _ (subst IsBytes h.proxied.taken v)

-- What the loop needs of the session at the start of a round.
pub record Ready (s : Session) : Type 0 where
  pub agrees : Agrees s
  pub client_bytes : IsBytes s.client.incoming
  pub backend_bytes : IsBytes s.backend.incoming

record Advance (s t : Session) : Type 0 where
  proxied : Proxied s t
  ready : Ready t
  shorter : length t.client.incoming < length s.client.incoming

-- One round: a command is read, and the round succeeds.
round-Advance :
    (rewritten : List ℕ → Option (List ℕ)) (s u t : Session) (cmd : Packet) (r : Round)
    → Ready s
    → read_client read_command s ≡ ok cmd u
    → round rewritten cmd.payload cmd u ≡ ok r t
    → Advance s t
round-Advance rewritten s u t cmd r d e k =
    let (reads, same) = read_client-Handled s d.client_bytes e in
    let backend : u.backend ≡ s.backend = ap (λ (x : Session). x.backend) same in
    let agrees : Agrees u =
      subst Agrees (sym same) (record { tx = d.agrees.tx; db = d.agrees.db }) in
    let bytes : IsBytes u.backend.incoming =
      subst (λ (x : Conn). IsBytes x.incoming) (sym backend) d.backend_bytes in
    let h = round-Handled rewritten cmd.payload cmd u agrees bytes k in
    let p = h.proxied in
    record {
      proxied = record {
        moved = p.moved;
        taken = ap (λ (x : Conn). x.incoming) (sym backend) ∙ p.taken;
        given = p.given ∙ ap (λ bs. bs ++ p.moved) reads.same_sent;
        same_tx = p.same_tx;
        same_database = p.same_database;
      };
      ready = record {
        agrees = Handled-Agrees h;
        client_bytes =
            subst IsBytes (sym h.client_unread)
              (IsBytes-append_right (encoding cmd) _ (subst IsBytes reads.consumed d.client_bytes));
        backend_bytes = Handled-IsBytes h bytes;
      };
      shorter = omega (
        arith,
        ap length h.client_unread,
        ap length reads.consumed,
        length-append (encoding cmd) u.client.incoming,
      );
    }

Round-cases : (r : Round) → (r ≡ go_on) ⊎ (r ≡ quit)
Round-cases go_on = inl refl
Round-cases quit = inr refl

loop-Proxied :
    (rewritten : List ℕ → Option (List ℕ)) (fuel : ℕ) (s : Session) {t : Session}
    → Ready s
    → loop rewritten fuel s ≡ ok tt t
    → Proxied s t
unfolding loop
loop-Proxied rewritten zero s d h = cc
loop-Proxied rewritten (suc fuel) s {t} d h =
    let (cmd, u, e, k) = >>=-eq-ok (read_client read_command s) _ h in
    let (r, w, e', k') = >>=-eq-ok (round rewritten cmd.payload cmd u) _ k in
    let adv = round-Advance rewritten s u w cmd r d e e' in
    elim (Round-cases r) [
      | inl g ↦
          Proxied-trans s w t adv.proxied (loop-Proxied rewritten fuel w adv.ready (rw g at k'))
      | inr q ↦ let same : w ≡ t = ground arith in subst (Proxied s) same adv.proxied
    ]

-- When the client of a ready session quits (both streams are bytes, and the session agrees with its
-- `BackendConn`), the bytes that it was sent are exactly those taken from the backend, in
-- order, whatever commands were served and whatever queries were rewritten; and the session and its
-- `BackendConn` agree on whether a transaction is open and which database is current.
pub handle_commands-Proxied :
    (rewritten : List ℕ → Option (List ℕ)) (s : Session) {t : Session}
    → Ready s
    → handle_commands rewritten s ≡ ok tt t
    → Proxied s t
unfolding handle_commands
handle_commands-Proxied rewritten s d h =
    loop-Proxied rewritten (suc (length s.client.incoming)) s d h

handle_init_db-ne-stuck :
    (name : List ℕ) (cmd : Packet) (s : Session)
    → IsBytes s.backend.incoming
    → handle_init_db name cmd s ≢ stuck
unfolding handle_init_db
handle_init_db-ne-stuck [] cmd s v = (forwarding_ends cmd s v).0
handle_init_db-ne-stuck (b ∷ bs) cmd s v = (forwarding_ends cmd _ v).0

handle_query-ne-stuck :
    (rewritten : List ℕ → Option (List ℕ)) (cmd : Packet) (s : Session)
    → IsBytes s.backend.incoming
    → handle_query rewritten cmd s ≢ stuck
unfolding handle_query
handle_query-ne-stuck rewritten cmd s v =
    let upper : List ℕ = to_upper (trim_space (drop 1 cmd.payload)) in
    (forwarding_ends (outgoing rewritten cmd) (track_tx upper s)
      (subst (λ (x : Conn). IsBytes x.incoming) (sym (track_tx-same upper s).0) v)).0

handle_command-ne-stuck :
    (rewritten : List ℕ → Option (List ℕ)) (code : ℕ) (name : List ℕ) (cmd : Packet) (s : Session)
    → IsBytes s.backend.incoming
    → handle_command rewritten code name cmd s ≢ stuck
unfolding handle_command
handle_command-ne-stuck rewritten code name cmd s v = ground (
  arith,
  forwarding_ends cmd s v,
  handle_init_db-ne-stuck name cmd s v,
  handle_query-ne-stuck rewritten cmd s v,
)

round-ne-stuck :
    (rewritten : List ℕ → Option (List ℕ)) (payload : List ℕ) (cmd : Packet) (s : Session)
    → IsBytes s.backend.incoming
    → round rewritten payload cmd s ≢ stuck
unfolding round
round-ne-stuck rewritten [] cmd s v = λ q. cc
round-ne-stuck rewritten (code ∷ name) cmd s v = elim (Bool-cases (code == com_quit)) [
  | inl e ↦ rw e (λ q. cc)
  | inr e ↦ rw e (
      >>=-ne-stuck (handle_command rewritten code name cmd s) _
        (handle_command-ne-stuck rewritten code name cmd s v) λ _ u _. λ q. cc)
]

read_client-ne-stuck : (s : Session) → read_client read_command s ≢ stuck
unfolding read_client
read_client-ne-stuck s = ground arith

loop-ne-stuck :
    (rewritten : List ℕ → Option (List ℕ)) (fuel : ℕ) (s : Session)
    → Ready s
    → length s.client.incoming < fuel
    → loop rewritten fuel s ≢ stuck
unfolding loop
loop-ne-stuck rewritten zero s d f = absurd (omega arith)
loop-ne-stuck rewritten (suc fuel) s d f =
    >>=-ne-stuck (read_client read_command s) _ (read_client-ne-stuck s) λ cmd u e.
      >>=-ne-stuck (round rewritten cmd.payload cmd u) _
        (round-ne-stuck rewritten cmd.payload cmd u (
          subst (λ (x : Session). IsBytes x.backend.incoming)
            (sym (read_client-Handled s d.client_bytes e).1) d.backend_bytes))
        λ r w e'.
          let adv = round-Advance rewritten s u w cmd r d e e' in
          ground (arith, adv.shorter, loop-ne-stuck rewritten fuel w adv.ready)

-- The command loop returns, with or without an error, whatever the client and the backend send.
pub handle_commands-ne-stuck :
    (rewritten : List ℕ → Option (List ℕ)) (s : Session)
    → Ready s
    → handle_commands rewritten s ≢ stuck
unfolding handle_commands
handle_commands-ne-stuck rewritten s d =
    loop-ne-stuck rewritten (suc (length s.client.incoming)) s d (omega arith)
