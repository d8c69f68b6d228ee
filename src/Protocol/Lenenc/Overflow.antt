-- ===== src/Protocol/Lenenc/Overflow.antt =====
-- Where the unsigned sum `uint64(n)+length` of `readLengthEncodedString` wraps.
use transisi_db.Prelude.{ℕ, ◌+◌, ◌^◌, ◌≤◌, ◌<◌, ◌≡◌, ◌↔◌, List, [], ◌∷◌, length, arith}
use transisi_db.Protocol.Bytes.{panic, IsBytes}
use transisi_db.Protocol.Lenenc.{
  read_length_encoded_int, read_length_encoded_string, two_byte, three_byte, eight_byte, string_at,
}

-- A length that was read: a `uint64` in at most nine bytes of the slice.
pub record Fits (b : List ℕ) (r : ℕ × ℕ) : Type 0 where
  pub value : r.0 < 2 ^ 64
  pub within : r.1 ≤ length b
  pub narrow : r.1 ≤ 9
  pub missing : r.1 ≡ 0 → r.0 ≡ 0

two_byte-Fits : (b : ℕ) (bs : List ℕ) → IsBytes bs → Fits (b ∷ bs) (two_byte bs)
unfolding two_byte
two_byte-Fits b (b1 ∷ b2 ∷ bs) h = ground arith
two_byte-Fits b [] h = ground arith
two_byte-Fits b (b1 ∷ []) h = ground arith

three_byte-Fits : (b : ℕ) (bs : List ℕ) → IsBytes bs → Fits (b ∷ bs) (three_byte bs)
unfolding three_byte
three_byte-Fits b (b1 ∷ b2 ∷ b3 ∷ bs) h = ground arith
three_byte-Fits b [] h = ground arith
three_byte-Fits b (b1 ∷ []) h = ground arith
three_byte-Fits b (b1 ∷ b2 ∷ []) h = ground arith

eight_byte-Fits : (b : ℕ) (bs : List ℕ) → IsBytes bs → Fits (b ∷ bs) (eight_byte bs)
unfolding eight_byte
eight_byte-Fits b (b1 ∷ b2 ∷ b3 ∷ b4 ∷ b5 ∷ b6 ∷ b7 ∷ b8 ∷ bs) h = ground arith
eight_byte-Fits b _ h = ground arith

pub read_int-Fits : (b : List ℕ) → IsBytes b → Fits b (read_length_encoded_int b)
unfolding read_length_encoded_int
read_int-Fits [] h = ground arith
read_int-Fits (b ∷ bs) h =
    ground (arith, two_byte-Fits b bs h.1, three_byte-Fits b bs h.1, eight_byte-Fits b bs h.1)

string_at_panic :
    (b : List ℕ) (len n : ℕ) → Fits b (len, n) → string_at b len n ≡ panic → 2 ^ 64 ≤ n + len
unfolding string_at
string_at_panic b len n f h = ground arith

string_at_wraps :
    (b : List ℕ) (len n : ℕ) → Fits b (len, n) → 2 ^ 64 ≤ n + len → string_at b len n ≡ panic
unfolding string_at
string_at_wraps b len n f h = ground arith

-- `readLengthEncodedString` panics exactly when the length that the bytes declare and the number of
-- bytes that hold it add up to 2 ^ 64 or more.
pub read_string_panics :
    (b : List ℕ)
    → IsBytes b
    → let (len, n) = read_length_encoded_int b in
      (read_length_encoded_string b ≡ panic) ↔ (2 ^ 64 ≤ n + len)
unfolding read_length_encoded_string
read_string_panics b h =
    let f = read_int-Fits b h in (string_at_panic b _ _ f, string_at_wraps b _ _ f)
