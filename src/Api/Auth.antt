-- ===== src/Api/Auth.antt =====
-- Which Authorization headers are let through.
use transisi_db.Prelude.{
  ◌≡◌, ◌≢◌, ◌↔◌, ◌⊎◌, inl, inr, refl, sym, ap, ◌∙◌, Bool, true, ◌&&◌, none, [], ◌∷◌, ◌++◌, Name,
  bytes_eq, bytes_eq-eq, bytes_eq_refl, length, take, drop, ltb, ltb→lt, arith, Bool-cases,
  take-append-drop, length-drop,
}
use transisi_db.Api.{bearer, strip_bearer, auth}

-- "Bearer " and a text that is not empty.
abbrev pub IsBearer : Name → Type 0
IsBearer header = (key : Name) × (header ≡ bearer ++ key) × (key ≢ [])

abbrev is_bearer : Name → Bool
is_bearer header = ltb 7 (length header) && bytes_eq (take 7 header) bearer

is_bearer-IsBearer : (header : Name) → is_bearer header ≡ true → header ≡ bearer ++ drop 7 header
is_bearer-IsBearer header h =
    sym (take-append-drop 7 header)
    ∙ ap (λ x. x ++ drop 7 header) (bytes_eq-eq (take 7 header) bearer (ground arith))

is_bearer-append : (key : Name) → key ≢ [] → is_bearer (bearer ++ key) ≡ true
is_bearer-append [] h = absurd (h refl)
is_bearer-append (c ∷ key) h = ground arith

bytes_eq_iff : (xs ys : Name) → (bytes_eq xs ys ≡ true) ↔ (xs ≡ ys)
bytes_eq_iff xs ys = (bytes_eq-eq xs ys, λ e. rw e (bytes_eq_refl ys))

rest_nonempty : (header : Name) → is_bearer header ≡ true → drop 7 header ≢ []
rest_nonempty header h q =
    let longer = ltb→lt 7 (length header) (ground arith) in
    absurd (omega (arith, ap length q, length-drop 7 header))

stripped_iff :
    (api_key header : Name)
    → header ≢ []
    → (strip_bearer header ≡ api_key)
      ↔ ((api_key ≢ []) × (((header ≡ api_key) × ¬ IsBearer header) ⊎ (header ≡ bearer ++ api_key)))
stripped_iff api_key header ne = elim (Bool-cases (is_bearer header)) [
  | inl q ↦
      let whole = is_bearer-IsBearer header q in
      let some_rest = rest_nonempty header q in
      rw q (
        λ e. (λ z. some_rest (e ∙ z), inr (whole ∙ ap (λ x. bearer ++ x) e)),
        λ (k, form). elim form [
          | inl (h, other) ↦ absurd (other (drop 7 header, whole, some_rest))
          | inr h ↦ ap (drop 7) h
        ],
      )
  | inr q ↦
      let other : ¬ IsBearer header =
        λ (key, b, k). cc (q, ap is_bearer b, is_bearer-append key k) in
      rw q (
        λ e. (λ z. ne (e ∙ z), inl (e, other)),
        λ (k, form). elim form [ inl (h, _) ↦ h | inr h ↦ absurd (other (api_key, h, k)) ],
      )
]

-- A request is let through exactly when its header is the API key, and is not of the form that is
-- stripped, or is "Bearer " with the key behind it; in both cases the key is not empty.
pub auth_iff :
    (api_key header : Name)
    → (auth api_key header ≡ none)
      ↔ ((api_key ≢ []) × (((header ≡ api_key) × ¬ IsBearer header) ⊎ (header ≡ bearer ++ api_key)))
unfolding auth
auth_iff api_key [] =
    (λ h. cc, λ (k, form). elim form [ inl (h, _) ↦ absurd (k (sym h)) | inr h ↦ cc ])
auth_iff api_key (c ∷ header) =
    let full : Name = c ∷ header in
    let (to, from) = stripped_iff api_key full (λ q. cc) in
    let (same, back) = bytes_eq_iff (strip_bearer full) api_key in
    (λ h. to (same (ground arith)), λ k. let e = back (from k) in rw e refl)
