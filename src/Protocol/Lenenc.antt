-- ===== src/Protocol/Lenenc.antt =====
-- Length-encoded integers and strings of pkg/protocol/resultset.go.
pub mod RoundTrip
pub mod Overflow
use transisi_db.Prelude.{
  ℕ, zero, suc, ◌+◌, ◌-◌, ◌*◌, ◌/◌, ◌%◌, ◌^◌, Bool, true, false, List, [], ◌∷◌, ◌++◌, leb, ltb,
  ◌==◌, if◌then◌else◌, length,
}
use transisi_db.Protocol.Bytes.{
  Result, ok, err, panic, no_length, not_enough_data, uint24, uint32, put_uint16, put_uint64, slice,
  ◌>>=◌,
}

-- The cases of `readLengthEncodedInt` that look behind the first byte: the value and the number of
-- bytes, (0, 0) where the slice is too short.
two_byte : List ℕ → ℕ × ℕ
two_byte (b1 ∷ b2 ∷ bs) = (b1 + b2 * 2 ^ 8, 3)
two_byte _ = (0, 0)

three_byte : List ℕ → ℕ × ℕ
three_byte (b1 ∷ b2 ∷ b3 ∷ bs) = (uint24 b1 b2 b3, 4)
three_byte _ = (0, 0)

eight_byte : List ℕ → ℕ × ℕ
eight_byte (b1 ∷ b2 ∷ b3 ∷ b4 ∷ b5 ∷ b6 ∷ b7 ∷ b8 ∷ bs) =
    (uint32 b1 b2 b3 b4 + uint32 b5 b6 b7 b8 * 2 ^ 32, 9)
eight_byte _ = (0, 0)

unfoldable pub read_length_encoded_int : List ℕ → ℕ × ℕ
unfolding two_byte three_byte eight_byte
read_length_encoded_int [] = (0, 0)
read_length_encoded_int (b ∷ bs) =
    if b == 0xfb
    then (0, 1)
    else if b == 0xfc
    then two_byte bs
    else if b == 0xfd
    then three_byte bs
    else if b == 0xfe
    then eight_byte bs
    else (b, 1)

-- `uint64(n)+length` wraps.
end_of : ℕ → ℕ → ℕ
end_of n len = (n + len) % 2 ^ 64

-- The text and the number of bytes read.
string_at : List ℕ → ℕ → ℕ → Result (List ℕ × ℕ)
unfolding end_of
string_at b len n =
    if n == 0
    then err no_length
    else if len == 0
    then ok ([], n)
    else if ltb (length b) (end_of n len)
    then err not_enough_data
    else (slice b n (end_of n len) >>= λ s. ok (s, n + len))

unfoldable pub read_length_encoded_string : List ℕ → Result (List ℕ × ℕ)
unfolding read_length_encoded_int string_at
read_length_encoded_string b = let (len, n) = read_length_encoded_int b in string_at b len n

unfoldable pub write_length_encoded_int : List ℕ → ℕ → List ℕ
write_length_encoded_int buf n =
    if ltb n 251
    then buf ++ (n % 256) ∷ []
    else if ltb n (2 ^ 16)
    then (buf ++ 0xfc ∷ []) ++ put_uint16 n
    else if ltb n (2 ^ 24)
    then (buf ++ 0xfd ∷ []) ++ (n % 256) ∷ (n / 2 ^ 8 % 256) ∷ (n / 2 ^ 16 % 256) ∷ []
    else (buf ++ 0xfe ∷ []) ++ put_uint64 n

unfoldable pub write_length_encoded_string : List ℕ → List ℕ → List ℕ
unfolding write_length_encoded_int
write_length_encoded_string buf s = write_length_encoded_int buf (length s) ++ s
