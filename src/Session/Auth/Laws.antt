-- ===== src/Session/Auth/Laws.antt =====
-- What passes before a session is authenticated, and that nothing else does.
use transisi_db.Prelude.{
  ℕ, zero, suc, ◌-◌, ◌≤◌, ◌<◌, ◌≡◌, ◌≢◌, sym, ap, subst, ◌∙◌, inl, inr, ◌⊎◌, true, Option, List, [],
  ◌∷◌, ◌++◌, length, arith, append_assoc, append-nil,
}
use transisi_db.Protocol.Bytes.{IsBytes, IsBytes-append_right}
use transisi_db.Protocol.Packet.{Packet, max_payload}
use transisi_db.Protocol.Response.{is_err_packet, is_ok_packet}
use transisi_db.Protocol.Packet.RoundTrip.{
  read_packet-Reads, write_packet-Writes, encoding, packet, read_packet-encoding,
  write_packet_sends,
}
use transisi_db.Session.Io.{
  Session, Stage, ok, err, stuck, >>=-eq-ok, >>=-ne-stuck, relay, relay-ne-stuck, relay_back,
  backend_handshake, handshake_to_client, client_handshake, auth_to_backend, auth_result,
  auth_result_to_client, client_auth, client_auth_to_backend, authentication_failed,
}
use transisi_db.Session.Io.Relay.{relay-Passed, Relayed-IsBytes}
use transisi_db.Session.Forward.Response.{Sent, wire, Fits, relay_exact, after}
use transisi_db.Session.Commands.Run.{Ready, handle_commands-ne-stuck}
use transisi_db.Session.Commands.Laws.{Agrees}
use transisi_db.Session.Auth.{
  auth_loop, authenticate, handle, verdict, refused, accepted, answer, ignored, Verdict,
}

-- The streams hold bytes, and the session agrees with its connection.
relay-Ready :
    (r w : Stage) (s : Session) {p : Packet} {t : Session}
    → Ready s
    → relay r w s ≡ ok p t
    → Ready t × (length t.backend.incoming < length s.backend.incoming)
relay-Ready r w s d h =
    let passed = relay-Passed r w s d.backend_bytes h in
    let q = passed.relayed in
    (
      record {
        agrees = record {
          tx = q.same_tx ∙ d.agrees.tx ∙ sym q.same_conn_tx;
          db = q.same_database ∙ d.agrees.db ∙ sym q.same_conn_database;
        };
        client_bytes = subst IsBytes (sym q.client_unread) d.client_bytes;
        backend_bytes = Relayed-IsBytes q d.backend_bytes;
      },
      omega (arith, passed.shorter),
    )

relay_back_parts :
    (r w : Stage) (s : Session) {p : Packet} {t : Session}
    → IsBytes s.client.incoming
    → relay_back r w s ≡ ok p t
    → IsBytes t.client.incoming
      × (t.backend.incoming ≡ s.backend.incoming)
      × (t ≡ record s { client = t.client; backend = t.backend })
unfolding relay_back
relay_back_parts r w s {p} {t} v h =
    let reads = read_packet-Reads s.client {p = p} {c' = t.client} v (ground arith) in
    let writes =
      write_packet-Writes p.sequence_id p.payload s.backend {c' = t.backend} (ground arith) in
    (
      IsBytes-append_right (encoding p) _ (subst IsBytes reads.consumed v),
      writes.same_incoming,
      ground arith,
    )

relay_back-Ready :
    (r w : Stage) (s : Session) {p : Packet} {t : Session}
    → Ready s
    → relay_back r w s ≡ ok p t
    → Ready t × (t.backend.incoming ≡ s.backend.incoming)
relay_back-Ready r w s d h =
    let (v, same, whole) = relay_back_parts r w s d.client_bytes h in
    (
      record {
        agrees = subst Agrees (sym whole) (record { tx = d.agrees.tx; db = d.agrees.db });
        client_bytes = v;
        backend_bytes = subst IsBytes (sym same) d.backend_bytes;
      },
      same,
    )

relay_back-ne-stuck : (r w : Stage) (s : Session) → relay_back r w s ≢ stuck
unfolding relay_back
relay_back-ne-stuck r w s = ground arith

Verdict-cases : (v : Verdict) → (v ≡ accepted) ⊎ (v ≡ refused) ⊎ (v ≡ answer) ⊎ (v ≡ ignored)
Verdict-cases accepted = ground arith
Verdict-cases refused = ground arith
Verdict-cases answer = ground arith
Verdict-cases ignored = ground arith

auth_loop-ne-stuck :
    (fuel : ℕ) (s : Session) → Ready s → length s.backend.incoming < fuel → auth_loop fuel s ≢ stuck
unfolding auth_loop
auth_loop-ne-stuck zero s d f = absurd (omega arith)
auth_loop-ne-stuck (suc fuel) s d f =
    >>=-ne-stuck (relay auth_result auth_result_to_client s) _ (relay-ne-stuck _ _ s) λ p u e.
      let (ready, shorter) = relay-Ready _ _ s d e in
      elim (Verdict-cases (verdict p.payload)) [
        | inl v ↦ rw v (λ q. cc)
        | inr (inl v) ↦ rw v (λ q. cc)
        | inr (inr (inl v)) ↦ rw v (
            >>=-ne-stuck (relay_back client_auth client_auth_to_backend u) _
              (relay_back-ne-stuck _ _ u)
              λ a w e'.
                let (ready', same) = relay_back-Ready _ _ u ready e' in
                auth_loop-ne-stuck fuel w ready' (omega (arith, ap length same)))
        | inr (inr (inr v)) ↦ rw v (auth_loop-ne-stuck fuel u ready (omega arith))
      ]

auth_loop-Ready :
    (fuel : ℕ) (s : Session) {t : Session} → Ready s → auth_loop fuel s ≡ ok tt t → Ready t
unfolding auth_loop
auth_loop-Ready zero s d h = cc
auth_loop-Ready (suc fuel) s {t} d h =
    let (p, u, e, k) = >>=-eq-ok (relay auth_result auth_result_to_client s) _ h in
    let (ready, shorter) = relay-Ready _ _ s d e in
    elim (Verdict-cases (verdict p.payload)) [
      | inl v ↦ let same : u ≡ t = ground arith in subst Ready same ready
      | inr (inl v) ↦ absurd (ground arith)
      | inr (inr (inl v)) ↦
          let (a, w, e', k') =
            >>=-eq-ok (relay_back client_auth client_auth_to_backend u) _ (rw v at k) in
          auth_loop-Ready fuel w (relay_back-Ready _ _ u ready e').0 k'
      | inr (inr (inr v)) ↦ auth_loop-Ready fuel u ready (rw v at k)
    ]

-- A session returns, with or without an error, whatever the two peers send.
pub handle-ne-stuck :
    (rewritten : List ℕ → Option (List ℕ)) (s : Session) → Ready s → handle rewritten s ≢ stuck
unfolding handle
handle-ne-stuck rewritten s d =
    >>=-ne-stuck (authenticate s) _ authentication
      λ _ t h. handle_commands-ne-stuck rewritten t (authenticated h)
  where
    authentication : authenticate s ≢ stuck
    authentication =
        >>=-ne-stuck (relay backend_handshake handshake_to_client s) _ (relay-ne-stuck _ _ s)
          λ _ u e.
            >>=-ne-stuck (relay_back client_handshake auth_to_backend u) _
              (relay_back-ne-stuck _ _ u)
              λ _ w e'.
                auth_loop-ne-stuck (suc (length w.backend.incoming)) w
                  (relay_back-Ready _ _ u (relay-Ready _ _ s d e).0 e').0 (omega arith)

    authenticated : {t : Session} → authenticate s ≡ ok tt t → Ready t
    authenticated h =
        let (_, u, e, k) = >>=-eq-ok (relay backend_handshake handshake_to_client s) _ h in
        let (_, w, e', k') = >>=-eq-ok (relay_back client_handshake auth_to_backend u) _ k in
        auth_loop-Ready (suc (length w.backend.incoming)) w
          (relay_back-Ready _ _ u (relay-Ready _ _ s d e).0 e').0 k'

relay_back_exact :
    (r w : Stage) (seq : ℕ) (payload rest : List ℕ) (s : Session)
    → length payload ≤ max_payload
    → 2 ≤ s.backend.writes_left
    → s.client.incoming ≡ encoding (packet seq payload) ++ rest
    → relay_back r w s
      ≡ ok (packet seq payload) (record s {
        client = record (s.client) { incoming = rest };
        backend = record (s.backend) {
          sent = s.backend.sent ++ encoding (packet seq payload);
          writes_left = s.backend.writes_left - 2;
        };
      })
unfolding relay_back
relay_back_exact r w seq payload rest s h k e = ground (
  arith,
  read_packet-encoding seq payload rest s.client h e,
  write_packet_sends seq payload s.backend h k,
)

refusal_verdict : (payload : List ℕ) → is_err_packet payload ≡ true → verdict payload ≡ refused
unfolding verdict is_err_packet is_ok_packet
refusal_verdict [] h = absurd (ground arith)
refusal_verdict (b ∷ bs) h = ground arith

-- The session that a refused client leaves behind: the backend was sent its handshake response alone.
abbrev pub refused_session : Sent → Sent → Sent → List ℕ → List ℕ → Session → Session
refused_session greeting reply refusal rest more s = record s {
  backend = record (s.backend) {
    incoming = rest;
    sent = s.backend.sent ++ wire (reply ∷ []);
    writes_left = s.backend.writes_left - 2;
  };
  client = record (s.client) {
    incoming = more;
    sent = s.client.sent ++ wire (greeting ∷ refusal ∷ []);
    writes_left = s.client.writes_left - 4;
  };
}

-- When the backend answers the client's handshake response by an ERR packet, the session ends with
-- an authentication error: the client has been sent the greeting and the refusal, the backend the
-- handshake response, and no command that the client may have sent behind it is read.
pub refused_client :
    (rewritten : List ℕ → Option (List ℕ)) (greeting reply refusal : Sent) (rest more : List ℕ)
    (s : Session)
    → Fits greeting
    → Fits reply
    → Fits refusal
    → is_err_packet refusal.1 ≡ true
    → 4 ≤ s.client.writes_left
    → 2 ≤ s.backend.writes_left
    → s.backend.incoming ≡ wire (greeting ∷ refusal ∷ []) ++ rest
    → s.client.incoming ≡ wire (reply ∷ []) ++ more
    → handle rewritten s
      ≡ err authentication_failed (refused_session greeting reply refusal rest more s)
unfolding handle
refused_client rewritten (g, greeting) (q, reply) (r, refusal) rest more s hg hq hr bad cw bw be
      ce =
    let mid : List ℕ = wire ((r, refusal) ∷ []) ++ rest in
    let s1 = after ((g, greeting) ∷ []) mid s in
    let s2 = record s1 {
      client = record (s1.client) { incoming = more };
      backend = record (s1.backend) {
        sent = s.backend.sent ++ encoding (packet q reply);
        writes_left = s.backend.writes_left - 2;
      };
    } in
    ground (
      arith,
      append_assoc (encoding (packet g greeting)) (wire ((r, refusal) ∷ [])) rest,
      append_assoc (encoding (packet q reply)) [] more,
      append_assoc (encoding (packet r refusal)) [] rest,
      append_assoc s.client.sent (encoding (packet g greeting)) (encoding (packet r refusal)),
      append-nil reply,
      append-nil greeting,
      append-nil refusal,
      relay_exact backend_handshake handshake_to_client g greeting mid s hg,
      relay_back_exact client_handshake auth_to_backend q reply more s1 hq,
      relay_exact auth_result auth_result_to_client r refusal rest s2 hr,
      refusal_verdict refusal bad,
    )
