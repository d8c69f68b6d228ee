-- ===== src/Protocol/Lenenc/RoundTrip.antt =====
-- Reading back what the length-encoded writers write.
use transisi_db.Prelude.{
  ℕ, ◌+◌, ◌/◌, ◌%◌, ◌^◌, ◌≤◌, ◌<◌, ◌≡◌, List, [], ◌∷◌, ◌++◌, append_assoc, append-nil, length,
  arith, length-append, take-length-append, drop-length-append,
}
use transisi_db.Protocol.Bytes.{ok, put_uint16, put_uint64}
use transisi_db.Protocol.Lenenc.{
  read_length_encoded_int, read_length_encoded_string, write_length_encoded_int,
  write_length_encoded_string, string_at,
}

-- What the writer appends.
pub write_length_encoded_int-append :
    (buf : List ℕ) (n : ℕ) → write_length_encoded_int buf n ≡ buf ++ write_length_encoded_int [] n
unfolding write_length_encoded_int
write_length_encoded_int-append buf n = ground (
  arith,
  append_assoc buf (0xfc ∷ []) (put_uint16 n),
  append_assoc buf (0xfd ∷ []) ((n % 256) ∷ (n / 2 ^ 8 % 256) ∷ (n / 2 ^ 16 % 256) ∷ []),
  append_assoc buf (0xfe ∷ []) (put_uint64 n),
)

-- Every `uint64`, written behind no other bytes and followed by any, is read back, and the reader
-- takes as many bytes as were written.
pub read-write_int :
    (n : ℕ) (rest : List ℕ)
    → n < 2 ^ 64
    → read_length_encoded_int (write_length_encoded_int [] n ++ rest)
      ≡ (n, length (write_length_encoded_int [] n))
unfolding read_length_encoded_int write_length_encoded_int
read-write_int n rest h = ground arith

-- One to nine bytes.
pub int_width :
    (n : ℕ)
    → (1 ≤ length (write_length_encoded_int [] n)) × (length (write_length_encoded_int [] n) ≤ 9)
unfolding write_length_encoded_int
int_width n = ground arith

string_found :
    (w s rest : List ℕ)
    → 1 ≤ length w
    → length w + length s < 2 ^ 64
    → string_at (w ++ (s ++ rest)) (length s) (length w) ≡ ok (s, length (w ++ s))
unfolding string_at
string_found w [] rest h k = ground (arith, append-nil w)
string_found w (x ∷ s) rest h k = ground (
  arith,
  length-append w ((x ∷ s) ++ rest),
  length-append (x ∷ s) rest,
  length-append w (x ∷ s),
  drop-length-append w ((x ∷ s) ++ rest),
  take-length-append (x ∷ s) rest,
)

-- Every text that can be in memory, written behind no other bytes and followed by any, is read back,
-- and the reader takes as many bytes as were written.
pub read-write_string :
    (s rest : List ℕ)
    → length s < 2 ^ 63
    → read_length_encoded_string (write_length_encoded_string [] s ++ rest)
      ≡ ok (s, length (write_length_encoded_string [] s))
unfolding read_length_encoded_string write_length_encoded_string
read-write_string s rest h =
    let w : List ℕ = write_length_encoded_int [] (length s) in
    ground (
      arith,
      append_assoc w s rest,
      read-write_int (length s) (s ++ rest),
      int_width (length s),
      string_found w s rest,
    )
