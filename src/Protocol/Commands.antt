-- ===== src/Protocol/Commands.antt =====
-- pkg/protocol/commands.go: command codes, their names, and transaction statements. A Go string is
-- its list of bytes.
use Prim.Native.String.{String}
use text.Mathlib.Text.{◌==◌ as str_eq}
use text.Mathlib.TextEquality.{eq_iff}
use transisi_db.Prelude.{
  codes, bytes_eq, ℕ, zero, suc, ◌-◌, ◌<◌, ◌≡◌, refl, Bool, true, ◌&&◌, ◌||◌, not, List, [], ◌∷◌,
  map, leb, ◌==◌, if◌then◌else◌, arith,
}

abbrev pub com_quit : ℕ
com_quit = 0x01

abbrev pub com_init_db : ℕ
com_init_db = 0x02

abbrev pub com_query : ℕ
com_query = 0x03

abbrev pub com_ping : ℕ
com_ping = 0x0e

abbrev pub com_stmt_prepare : ℕ
com_stmt_prepare = 0x16

-- The cases of the `switch`, in order.
abbrev command_names : List (ℕ × String)
command_names =
    (0x00, "COM_SLEEP")
    ∷ (0x01, "COM_QUIT")
    ∷ (0x02, "COM_INIT_DB")
    ∷ (0x03, "COM_QUERY")
    ∷ (0x04, "COM_FIELD_LIST")
    ∷ (0x05, "COM_CREATE_DB")
    ∷ (0x06, "COM_DROP_DB")
    ∷ (0x07, "COM_REFRESH")
    ∷ (0x08, "COM_SHUTDOWN")
    ∷ (0x09, "COM_STATISTICS")
    ∷ (0x0a, "COM_PROCESS_INFO")
    ∷ (0x0b, "COM_CONNECT")
    ∷ (0x0c, "COM_PROCESS_KILL")
    ∷ (0x0d, "COM_DEBUG")
    ∷ (0x0e, "COM_PING")
    ∷ (0x0f, "COM_TIME")
    ∷ (0x10, "COM_DELAYED_INSERT")
    ∷ (0x11, "COM_CHANGE_USER")
    ∷ (0x12, "COM_BINLOG_DUMP")
    ∷ (0x13, "COM_TABLE_DUMP")
    ∷ (0x14, "COM_CONNECT_OUT")
    ∷ (0x15, "COM_REGISTER_SLAVE")
    ∷ (0x16, "COM_STMT_PREPARE")
    ∷ (0x17, "COM_STMT_EXECUTE")
    ∷ (0x18, "COM_STMT_SEND_LONG_DATA")
    ∷ (0x19, "COM_STMT_CLOSE")
    ∷ (0x1a, "COM_STMT_RESET")
    ∷ (0x1b, "COM_SET_OPTION")
    ∷ (0x1c, "COM_STMT_FETCH")
    ∷ (0x1d, "COM_DAEMON")
    ∷ (0x1e, "COM_BINLOG_DUMP_GTID")
    ∷ (0x1f, "COM_RESET_CONNECTION")
    ∷ []

abbrev switch : ℕ → List (ℕ × String) → String
switch cmd [] = "UNKNOWN"
switch cmd ((c, name) ∷ rest) = if cmd == c then name else switch cmd rest

unfoldable pub get_command_name : ℕ → String
get_command_name cmd = switch cmd command_names

unfoldable pub is_query_command : ℕ → Bool
is_query_command cmd = cmd == com_query

abbrev upper_byte : ℕ → ℕ
upper_byte b = if leb b'a' b && leb b b'z' then b - 32 else b

unfoldable pub to_upper : List ℕ → List ℕ
to_upper s = map upper_byte s

unfoldable pub is_transaction_command : List ℕ → Bool
unfolding to_upper
is_transaction_command query =
    bytes_eq (to_upper query) (codes "BEGIN")
    || bytes_eq (to_upper query) (codes "START TRANSACTION")
    || bytes_eq (to_upper query) (codes "COMMIT")
    || bytes_eq (to_upper query) (codes "ROLLBACK")

to_upper-to_upper : (s : List ℕ) → to_upper (to_upper s) ≡ to_upper s
unfolding to_upper
to_upper-to_upper [] = refl
to_upper-to_upper (b ∷ s) = ground (arith, to_upper-to_upper s)

-- Whether a statement is one of the four does not depend on the case of its letters.
pub is_transaction_command-to_upper :
    (query : List ℕ) → is_transaction_command (to_upper query) ≡ is_transaction_command query
unfolding is_transaction_command
is_transaction_command-to_upper query = rw (to_upper-to_upper query)

-- `p` at every number below `n`.
all_below : ℕ → (ℕ → Bool) → Bool
all_below zero p = true
all_below (suc n) p = p n && all_below n p

all_below-lt : (n : ℕ) (p : ℕ → Bool) (x : ℕ) → all_below n p ≡ true → x < n → p x ≡ true
unfolding all_below
all_below-lt zero p x h lt = absurd (omega arith)
all_below-lt (suc n) p x h lt = ground (arith, all_below-lt n p x)

-- Whether a shared name means a shared code.
abbrev apart : ℕ → ℕ → Bool
apart c d = not (str_eq (get_command_name c) (get_command_name d)) || c == d

names_apart : all_below 32 (λ c. all_below 32 (apart c)) ≡ true
unfolding all_below get_command_name
names_apart = refl

apart-eq : (c d : ℕ) → apart c d ≡ true → get_command_name c ≡ get_command_name d → c ≡ d
apart-eq c d h e = ground (arith, eq_iff (get_command_name c) (get_command_name d))

-- The 32 commands have 32 different names.
pub get_command_name_injective :
    (c d : ℕ) → c < 32 → d < 32 → get_command_name c ≡ get_command_name d → c ≡ d
get_command_name_injective c d h k e =
    apart-eq c d (all_below-lt 32 (apart c) d (all_below-lt 32 _ c names_apart h) k) e
