-- ===== src/Session/Io.antt =====
-- The state of a session and the two ways a packet passes through it. Deadlines show only as writes
-- that fail; log lines are left out.
pub mod Relay
use transisi_db.Prelude.{ℕ, Bool, List, ◌≡◌, ◌≢◌, refl, arith}
use transisi_db.Protocol.Bytes.{Error}
use transisi_db.Protocol.Packet.{Packet, Conn, Reply, read_packet, write_packet}
use transisi_db.Protocol.Packet

-- `in_tx` and `database` are the session's fields, `conn_in_tx` and `conn_database` those of its
-- `BackendConn`.
pub record Session : Type 0 where
  pub client : Conn
  pub backend : Conn
  pub in_tx : Bool
  pub database : List ℕ
  pub conn_in_tx : Bool
  pub conn_database : List ℕ

-- Where an error was met, as its message says.
pub data Stage : Type 0 where
  backend_handshake handshake_to_client client_handshake auth_to_backend : Stage
  auth_result auth_result_to_client client_auth client_auth_to_backend : Stage
  read_command command_to_backend backend_response response_to_client : Stage
  read_column column_to_client read_row row_to_client : Stage
  prepare_to_backend prepare_response prepare_to_client : Stage
  read_param param_to_client read_param_eof param_eof_to_client : Stage
  read_column_eof column_eof_to_client : Stage

pub data Failure : Type 0 where
  at : Stage → Error → Failure
  authentication_failed : Failure

-- A method that changes the session and returns (value, error); `stuck` is no Go value: a loop ran
-- out of fuel.
pub data Io {ℓ} (A : Type ℓ) : Type ℓ where
  ok : A → Session → Io A
  err : Failure → Session → Io A
  stuck : Io A

infixl 5 ◌>>=◌
abbrev pub ◌>>=◌ {ℓ κ} : {A : Type ℓ} {B : Type κ} → Io A → (A → Session → Io B) → Io B
ok a s >>= f = f a s
err e s >>= f = err e s
stuck >>= f = stuck

-- Inversion of a bind that succeeds.
pub >>=-eq-ok {ℓ κ} :
    {A : Type ℓ} {B : Type κ} (m : Io A) (f : A → Session → Io B) {b : B} {t : Session}
    → (m >>= f) ≡ ok b t
    → (a : A) × (s : Session) × (m ≡ ok a s) × (f a s ≡ ok b t)
>>=-eq-ok (ok a s) f h = (a, s, refl, h)
>>=-eq-ok (err e s) f h = cc
>>=-eq-ok stuck f h = cc

pub >>=-ne-stuck {ℓ κ} :
    {A : Type ℓ} {B : Type κ} (m : Io A) (f : A → Session → Io B)
    → m ≢ stuck
    → ((a : A) (s : Session) → m ≡ ok a s → f a s ≢ stuck)
    → (m >>= f) ≢ stuck
>>=-ne-stuck (ok a s) f h k = k a s refl
>>=-ne-stuck (err e s) f h k = λ q. cc
>>=-ne-stuck stuck f h k = absurd (h refl)

abbrev pub on_backend {ℓ} : {A : Type ℓ} → Stage → Session → Reply A → Io A
on_backend stage s (Packet.ok a c) = ok a (record s { backend = c })
on_backend stage s (Packet.err e c) = err (at stage e) (record s { backend = c })

abbrev pub on_client {ℓ} : {A : Type ℓ} → Stage → Session → Reply A → Io A
on_client stage s (Packet.ok a c) = ok a (record s { client = c })
on_client stage s (Packet.err e c) = err (at stage e) (record s { client = c })

unfoldable pub read_backend : Stage → Session → Io Packet
read_backend stage s = on_backend stage s (read_packet s.backend)

unfoldable pub read_client : Stage → Session → Io Packet
read_client stage s = on_client stage s (read_packet s.client)

unfoldable pub write_backend : Stage → Packet → Session → Io (Unit {0})
write_backend stage p s = on_backend stage s (write_packet p.sequence_id p.payload s.backend)

unfoldable pub write_client : Stage → Packet → Session → Io (Unit {0})
write_client stage p s = on_client stage s (write_packet p.sequence_id p.payload s.client)

-- A packet from the backend to the client, with the stages of its two errors.
unfoldable pub relay : Stage → Stage → Session → Io Packet
unfolding read_backend write_client
relay reading writing s =
    read_backend reading s >>= λ p s. write_client writing p s >>= λ _ s. ok p s

-- A packet from the client to the backend.
unfoldable pub relay_back : Stage → Stage → Session → Io Packet
unfolding read_client write_backend
relay_back reading writing s =
    read_client reading s >>= λ p s. write_backend writing p s >>= λ _ s. ok p s

pub relay-ne-stuck : (reading writing : Stage) (s : Session) → relay reading writing s ≢ stuck
unfolding relay
relay-ne-stuck reading writing s = ground arith
