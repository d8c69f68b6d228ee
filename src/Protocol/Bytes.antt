-- ===== src/Protocol/Bytes.antt =====
-- Bytes, slices that may panic, and Go's (value, error) results. The capacity of a slice is its
-- length, as it is for every payload that `ReadPacket` makes. The `|` of bytes that are shifted to
-- different places is their sum.
use transisi_db.Prelude.{
  ℕ, zero, suc, ◌+◌, ◌-◌, ◌*◌, ◌/◌, ◌%◌, ◌^◌, ◌<◌, ◌≡◌, ◌&&◌, List, [], ◌∷◌, ◌++◌, leb,
  if◌then◌else◌, take, drop, length, All, arith,
}

abbrev pub IsByte : ℕ → Type 0
IsByte b = b < 256

abbrev pub IsBytes : List ℕ → Type 0
IsBytes = All IsByte

pub data Error : Type 0 where
  eof unexpected_eof write_failed : Error
  packet_too_large : ℕ → Error
  ok_too_short not_ok unexpected_end err_too_short not_err eof_too_short not_eof : Error
  no_length not_enough_data : Error

-- `panic` is a run-time panic, such as a slice out of bounds.
pub data Result {ℓ} (A : Type ℓ) : Type ℓ where
  ok : A → Result A
  err : Error → Result A
  panic : Result A

infixl 5 ◌>>=◌
abbrev pub ◌>>=◌ {ℓ κ} : {A : Type ℓ} {B : Type κ} → Result A → (A → Result B) → Result B
ok a >>= f = f a
err e >>= f = err e
panic >>= f = panic

-- `b[lo:]` and `b[lo:hi]`.
abbrev pub slice_from : List ℕ → ℕ → Result (List ℕ)
slice_from b lo = if leb lo (length b) then ok (drop lo b) else panic

abbrev pub slice : List ℕ → ℕ → ℕ → Result (List ℕ)
slice b lo hi = if leb lo hi && leb hi (length b) then ok (take (hi - lo) (drop lo b)) else panic

-- `binary.LittleEndian`; reading panics on a slice that is too short.
abbrev pub get_uint16 : List ℕ → Result ℕ
get_uint16 (b0 ∷ b1 ∷ bs) = ok (b0 + b1 * 2 ^ 8)
get_uint16 _ = panic

abbrev pub uint24 : ℕ → ℕ → ℕ → ℕ
uint24 b0 b1 b2 = b0 + b1 * 2 ^ 8 + b2 * 2 ^ 16

abbrev pub uint32 : ℕ → ℕ → ℕ → ℕ → ℕ
uint32 b0 b1 b2 b3 = b0 + b1 * 2 ^ 8 + b2 * 2 ^ 16 + b3 * 2 ^ 24

abbrev pub put_uint16 : ℕ → List ℕ
put_uint16 n = (n % 256) ∷ (n / 2 ^ 8 % 256) ∷ []

abbrev pub put_uint32 : ℕ → List ℕ
put_uint32 n = (n % 256) ∷ (n / 2 ^ 8 % 256) ∷ (n / 2 ^ 16 % 256) ∷ (n / 2 ^ 24 % 256) ∷ []

abbrev pub put_uint64 : ℕ → List ℕ
put_uint64 n = put_uint32 (n % 2 ^ 32) ++ put_uint32 (n / 2 ^ 32)

pub IsBytes-append : (xs ys : List ℕ) → IsBytes xs → IsBytes ys → IsBytes (xs ++ ys)
IsBytes-append [] ys h k = k
IsBytes-append (x ∷ xs) ys h k = (h.0, IsBytes-append xs ys h.1 k)

pub IsBytes-take : (n : ℕ) (xs : List ℕ) → IsBytes xs → IsBytes (take n xs)
IsBytes-take zero xs h = tt
IsBytes-take (suc n) [] h = tt
IsBytes-take (suc n) (x ∷ xs) h = (h.0, IsBytes-take n xs h.1)

pub IsBytes-drop : (n : ℕ) (xs : List ℕ) → IsBytes xs → IsBytes (drop n xs)
IsBytes-drop zero xs h = h
IsBytes-drop (suc n) [] h = tt
IsBytes-drop (suc n) (x ∷ xs) h = IsBytes-drop n xs h.1

-- The digits of a number that fits, put and read again.
pub uint16_digits : (n : ℕ) → n < 2 ^ 16 → n % 256 + n / 2 ^ 8 % 256 * 2 ^ 8 ≡ n
uint16_digits n h = omega arith

pub uint24_digits : (n : ℕ) → n < 2 ^ 24 → uint24 (n % 256) (n / 2 ^ 8 % 256) (n / 2 ^ 16 % 256) ≡ n
uint24_digits n h = omega arith

pub uint32_digits :
    (n : ℕ)
    → n < 2 ^ 32
    → uint32 (n % 256) (n / 2 ^ 8 % 256) (n / 2 ^ 16 % 256) (n / 2 ^ 24 % 256) ≡ n
uint32_digits n h = omega arith

pub IsBytes-append_right : (xs ys : List ℕ) → IsBytes (xs ++ ys) → IsBytes ys
IsBytes-append_right [] ys h = h
IsBytes-append_right (x ∷ xs) ys h = IsBytes-append_right xs ys h.1
