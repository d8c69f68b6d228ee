-- ===== src/Session/Forward.antt =====
-- `forwardCommand` and `handlePrepare`: a command goes to the backend, and its response comes back.
-- A loop over response packets has the unread bytes of the backend as fuel, since each packet has
-- four bytes at least.
pub mod Transparent
pub mod Ends
pub mod Response
use transisi_db.Prelude.{
  ℕ, zero, suc, ◌+◌, ◌*◌, ◌^◌, Bool, true, false, ◌||◌, List, [], ◌∷◌, ltb, ◌==◌, if◌then◌else◌,
  length, take, drop,
}
use transisi_db.Protocol.Packet.{Packet, Conn}
use transisi_db.Protocol.Response.{is_ok_packet, is_err_packet, is_eof_packet}
use transisi_db.Session.Io.{
  Session, Stage, Io, ok, err, stuck, ◌>>=◌, relay, write_backend, command_to_backend,
  backend_response, response_to_client, read_column, column_to_client, read_row, row_to_client,
  prepare_to_backend, prepare_response, prepare_to_client, read_param, param_to_client,
  read_param_eof, param_eof_to_client, read_column_eof, column_eof_to_client,
}

-- `for { relay; if stop(payload) { break } }`
pub relay_until : (List ℕ → Bool) → Stage → Stage → ℕ → Session → Io (Unit {0})
relay_until stop reading writing zero s = stuck
relay_until stop reading writing (suc fuel) s = relay reading writing s >>= λ p s.
    elim (stop p.payload) [ true ↦ ok tt s | false ↦ relay_until stop reading writing fuel s ]

abbrev pub rounds : Session → ℕ
rounds s = suc (length s.backend.incoming)

abbrev pub ends_rows : List ℕ → Bool
ends_rows payload = is_eof_packet payload || is_err_packet payload

unfoldable pub result_set : Session → Io (Unit {0})
unfolding relay_until
result_set s = relay_until is_eof_packet read_column column_to_client (rounds s) s >>= λ _ s.
    relay_until ends_rows read_row row_to_client (rounds s) s

unfoldable pub read_response : Session → Io (Unit {0})
unfolding relay result_set
read_response s = relay backend_response response_to_client s >>= λ p s.
    elim (is_ok_packet p.payload || is_err_packet p.payload) [
      | true ↦ ok tt s
      | false ↦ result_set s
    ]

unfoldable pub forward_command : Packet → Session → Io (Unit {0})
unfolding write_backend read_response
forward_command cmd s = write_backend command_to_backend cmd s >>= λ _ s. read_response s

-- `for i := 0; i < n; i++ { relay }`
pub relay_times : Stage → Stage → ℕ → Session → Io (Unit {0})
relay_times reading writing zero s = ok tt s
relay_times reading writing (suc n) s =
    relay reading writing s >>= λ _ s. relay_times reading writing n s

-- `n` definitions and an EOF packet, if there are any.
definitions : Stage → Stage → Stage → Stage → ℕ → Session → Io (Unit {0})
unfolding relay relay_times
definitions reading writing reading_eof writing_eof n s =
    if ltb 0 n
    then (relay_times reading writing n s >>= λ _ s.
        relay reading_eof writing_eof s >>= λ _ s. ok tt s)
    else ok tt s

-- `binary.LittleEndian.Uint16(payload[lo:lo+2])`, for a payload that is long enough.
abbrev count_at : ℕ → List ℕ → ℕ
count_at lo payload = elim (drop lo payload) [ b0 ∷ b1 ∷ _ ↦ b0 + b1 * 2 ^ 8 | _ ↦ 0 ]

prepare_response_body : Packet → Session → Io (Unit {0})
unfolding definitions
prepare_response_body p s =
    if is_err_packet p.payload
    then ok tt s
    else if ltb (length p.payload) 9
    then ok tt s
    else (definitions read_param param_to_client read_param_eof param_eof_to_client
          (count_at 7 p.payload) s
        >>= λ _ s.
            definitions read_column column_to_client read_column_eof column_eof_to_client
              (count_at 5 p.payload) s)

unfoldable pub handle_prepare : Packet → Session → Io (Unit {0})
unfolding write_backend relay prepare_response_body
handle_prepare cmd s = write_backend prepare_to_backend cmd s >>= λ _ s.
    relay prepare_response prepare_to_client s >>= λ p s. prepare_response_body p s
