-- ===== src/Session/Forward/Ends.antt =====
-- The loops of `forwardCommand` and `handlePrepare` end.
use transisi_db.Prelude.{
  ℕ, zero, suc, ◌<◌, ◌≢◌, sym, subst, inl, inr, Bool, List, length, arith, Bool-cases, ltb,
}
use transisi_db.Protocol.Bytes.{IsBytes}
use transisi_db.Protocol.Packet.{Packet}
use transisi_db.Protocol.Response.{is_err_packet, is_eof_packet}
use transisi_db.Session.Io.{
  Session, Stage, prepare_response, prepare_to_client, prepare_to_backend, command_to_backend,
  backend_response, response_to_client, read_column, column_to_client, stuck, relay, >>=-ne-stuck,
  relay-ne-stuck, write_backend,
}
use transisi_db.Session.Io.Relay.{Relayed-IsBytes, relay-Passed}
use transisi_db.Session.Forward.{
  relay_until, relay_times, definitions, result_set, read_response, forward_command,
  prepare_response_body, handle_prepare, rounds, count_at,
}
use transisi_db.Session.Forward.Transparent.{relay_until-Relayed, write_backend-Writes}

-- Fuel for one round more than there are unread bytes is enough.
relay_until-ne-stuck :
    (stop : List ℕ → Bool) (r w : Stage) (fuel : ℕ) (s : Session)
    → IsBytes s.backend.incoming
    → length s.backend.incoming < fuel
    → relay_until stop r w fuel s ≢ stuck
unfolding relay_until
relay_until-ne-stuck stop r w zero s v h = absurd (omega arith)
relay_until-ne-stuck stop r w (suc fuel) s v h =
    >>=-ne-stuck (relay r w s) _ (relay-ne-stuck r w s) λ p u e.
      let passed = relay-Passed r w s v e in
      ground (
        arith,
        passed.shorter,
        relay_until-ne-stuck stop r w fuel u (Relayed-IsBytes passed.relayed v),
      )

relay_times-ne-stuck : (r w : Stage) (n : ℕ) (s : Session) → relay_times r w n s ≢ stuck
unfolding relay_times
relay_times-ne-stuck r w zero s = λ q. cc
relay_times-ne-stuck r w (suc n) s =
    >>=-ne-stuck (relay r w s) _ (relay-ne-stuck r w s) λ p u e. relay_times-ne-stuck r w n u

result_set-ne-stuck : (s : Session) → IsBytes s.backend.incoming → result_set s ≢ stuck
unfolding result_set
result_set-ne-stuck s v =
    >>=-ne-stuck (relay_until is_eof_packet read_column column_to_client (rounds s) s) _
      (relay_until-ne-stuck _ _ _ (rounds s) s v (omega arith))
      λ _ u e.
        relay_until-ne-stuck _ _ _ (rounds u) u
          (Relayed-IsBytes (relay_until-Relayed _ _ _ (rounds s) s v e) v) (omega arith)

definitions-ne-stuck : (r w r' w' : Stage) (n : ℕ) (s : Session) → definitions r w r' w' n s ≢ stuck
unfolding definitions
definitions-ne-stuck r w r' w' n s = elim (Bool-cases (ltb 0 n)) [
  | inl b ↦ rw b (
      >>=-ne-stuck (relay_times r w n s) _ (relay_times-ne-stuck r w n s)
        λ _ u _. >>=-ne-stuck (relay r' w' u) _ (relay-ne-stuck r' w' u) λ _ x _. λ q. cc)
  | inr b ↦ rw b (λ q. cc)
]

prepare_response_body-ne-stuck : (p : Packet) (s : Session) → prepare_response_body p s ≢ stuck
unfolding prepare_response_body
prepare_response_body-ne-stuck p s = elim (Bool-cases (is_err_packet p.payload)) [
  | inl b ↦ rw b (λ q. cc)
  | inr b ↦ elim (Bool-cases (ltb (length p.payload) 9)) [
    | inl d ↦ rw (b, d) (λ q. cc)
    | inr d ↦
        rw (b, d)
          (>>=-ne-stuck _ _ (definitions-ne-stuck _ _ _ _ (count_at 7 p.payload) s)
            λ _ u _. definitions-ne-stuck _ _ _ _ (count_at 5 p.payload) u)
  ]
]

write_backend-ne-stuck :
    (stage : Stage) (cmd : Packet) (s : Session) → write_backend stage cmd s ≢ stuck
unfolding write_backend
write_backend-ne-stuck stage cmd s = ground arith

read_response-ne-stuck : (s : Session) → IsBytes s.backend.incoming → read_response s ≢ stuck
unfolding read_response
read_response-ne-stuck s v =
    >>=-ne-stuck (relay backend_response response_to_client s) _ (relay-ne-stuck _ _ s) λ p u e.
      let passed = relay-Passed _ _ s v e in
      ground (arith, result_set-ne-stuck u (Relayed-IsBytes passed.relayed v))

-- `forwardCommand` and `handlePrepare` return, with or without an error, whatever the backend sends:
-- their loops end when its stream does.
pub forwarding_ends :
    (cmd : Packet) (s : Session)
    → IsBytes s.backend.incoming
    → (forward_command cmd s ≢ stuck) × (handle_prepare cmd s ≢ stuck)
unfolding forward_command handle_prepare
forwarding_ends cmd s v = (forward, prepare)
  where
    forward : forward_command cmd s ≢ stuck
    forward =
        >>=-ne-stuck (write_backend command_to_backend cmd s) _ (write_backend-ne-stuck _ cmd s)
          λ _ u e.
            read_response-ne-stuck u
              (subst IsBytes (sym (write_backend-Writes _ cmd s e).0.same_incoming) v)

    prepare : handle_prepare cmd s ≢ stuck
    prepare =
        >>=-ne-stuck (write_backend prepare_to_backend cmd s) _ (write_backend-ne-stuck _ cmd s)
          λ _ u e.
            >>=-ne-stuck (relay prepare_response prepare_to_client u) _ (relay-ne-stuck _ _ u)
              λ p x _. prepare_response_body-ne-stuck p x
