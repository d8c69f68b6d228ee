-- ===== src/Session/Auth.antt =====
-- `Handle`: the handshake and the authentication are passed between backend and client before the
-- command loop. The backend connection has been acquired (`Pool`); it is closed afterwards.
pub mod Laws
use transisi_db.Prelude.{
  ℕ, zero, suc, Bool, true, false, ◌||◌, Option, List, [], ◌∷◌, ◌==◌, length, if◌then◌else◌,
}
use transisi_db.Protocol.Packet.{Packet}
use transisi_db.Protocol.Response.{is_ok_packet, is_err_packet}
use transisi_db.Session.Io.{
  Session, Io, ok, err, stuck, ◌>>=◌, relay, relay_back, backend_handshake, handshake_to_client,
  client_handshake, auth_to_backend, auth_result, auth_result_to_client, client_auth,
  client_auth_to_backend, authentication_failed,
}
use transisi_db.Session.Commands.{handle_commands}

-- What a packet of the backend means to the authentication loop.
pub data Verdict : Type 0 where
  accepted refused answer ignored : Verdict

unfoldable pub verdict : List ℕ → Verdict
verdict [] = ignored
verdict (b ∷ bs) =
    if is_ok_packet (b ∷ bs)
    then accepted
    else if is_err_packet (b ∷ bs)
    then refused
    else if b == 0xfe || b == 0x01
    then answer
    else ignored

auth_loop : ℕ → Session → Io (Unit {0})
auth_loop zero s = stuck
auth_loop (suc fuel) s = relay auth_result auth_result_to_client s >>= λ p s.
    elim (verdict p.payload) [
      | accepted ↦ ok tt s
      | refused ↦ err authentication_failed s
      | answer ↦ relay_back client_auth client_auth_to_backend s >>= λ _ s. auth_loop fuel s
      | ignored ↦ auth_loop fuel s
    ]

-- Each round takes four bytes of the backend's stream at least.
unfoldable pub authenticate : Session → Io (Unit {0})
unfolding auth_loop
authenticate s = relay backend_handshake handshake_to_client s >>= λ _ s.
    relay_back client_handshake auth_to_backend s >>= λ _ s.
    auth_loop (suc (length s.backend.incoming)) s

unfoldable pub handle : (List ℕ → Option (List ℕ)) → Session → Io (Unit {0})
unfolding authenticate
handle rewritten s = authenticate s >>= λ _ s. handle_commands rewritten s
