-- ===== src/AgentState/Encoding/RoundTrip.antt =====
-- src/agent-state/encoding.ts: what is encoded is decoded.
use Prim.Native.Char.{Char, code}
use Prim.Native.String.{[], ◌∷◌}
use text.Mathlib.TextEquality.{Char-path}
use coreax.Prelude.{
  ℕ, zero, suc, String, Bool, true, false, not, ◌&&◌, num_eq, ◌≡◌, refl, ap, ◌∙◌, arith, sym,
  Bool-cases, inl, inr,
}
use coreax.AgentState.Encoding.{
  swap_char, swap_sign, place_equals, strip_equals, append, size, equals, pad_length,
  encode_base64_url, decode_base64_url, is_body, IsBase64,
}

-- The four exchanges, on a sign of the base64 alphabet.
swap_back :
    (c : Char)
    → (num_eq (code c) 45 ≡ false)
    → (num_eq (code c) 95 ≡ false)
    → swap_char "_" "/" (swap_char "-" "+" (swap_char "/" "_" (swap_char "+" "-" c))) ≡ c
unfolding swap_char
swap_back c no_dash no_line = elim (Bool-cases (num_eq (code c) 43)) [
  | inl plus ↦ let e : c ≡ "+" = Char-path c "+" (ground arith) in rw e refl
  | inr no_plus ↦ elim (Bool-cases (num_eq (code c) 47)) [
    | inl slash ↦ let e : c ≡ "/" = Char-path c "/" (ground arith) in rw e refl
    | inr no_slash ↦ rw no_plus (rw no_slash (rw no_dash (rw no_line refl)))
  ]
]

-- What the encoder makes of a body.
urls : String → String
urls s = swap_sign "/" "_" (swap_sign "+" "-" s)

is_body-head :
    (c : Char) (b : Bool)
    → (not (num_eq (code c) 45) && not (num_eq (code c) 95) && not (num_eq (code c) 61) && b) ≡ true
    → (num_eq (code c) 45 ≡ false)
      × (num_eq (code c) 95 ≡ false)
      × (num_eq (code c) 61 ≡ false)
      × (b ≡ true)
is_body-head c b h = (ground arith, ground arith, ground arith, ground arith)

swap_sign-urls :
    (s : String) → is_body s ≡ true → swap_sign "_" "/" (swap_sign "-" "+" (urls s)) ≡ s
unfolding urls swap_sign is_body
swap_sign-urls [] h = refl
swap_sign-urls (c ∷ s) h =
    let (no_dash, no_line, no_equals, rest) = is_body-head c (is_body s) h in
    rw (swap_back c no_dash no_line) (ap (λ t. c ∷ t) (swap_sign-urls s rest))

urls-equals : (n : ℕ) → urls (equals n) ≡ equals n
unfolding urls swap_sign swap_char equals
urls-equals zero = refl
urls-equals (suc n) = ap (λ t. "=" ∷ t) (urls-equals n)

urls-append : (s : String) (n : ℕ) → urls (append s (equals n)) ≡ append (urls s) (equals n)
unfolding urls swap_sign append
urls-append [] n = urls-equals n
urls-append (c ∷ s) n = ap (λ t. swap_char "/" "_" (swap_char "+" "-" c) ∷ t) (urls-append s n)

strip_equals-equals : (n : ℕ) → strip_equals (equals n) ≡ []
unfolding strip_equals equals place_equals
strip_equals-equals zero = refl
strip_equals-equals (suc n) = rw (strip_equals-equals n) refl

place_equals-other : (d : Char) (t : String) → num_eq (code d) 61 ≡ false → place_equals d t ≡ d ∷ t
unfolding place_equals
place_equals-other d [] e = rw e refl
place_equals-other d (x ∷ t) e = refl

-- The sign of the encoded text is none of padding.
swap_char-equals :
    (c : Char)
    → num_eq (code c) 61 ≡ false
    → num_eq (code (swap_char "/" "_" (swap_char "+" "-" c))) 61 ≡ false
unfolding swap_char
swap_char-equals c h = elim (Bool-cases (num_eq (code c) 43)) [
  | inl plus ↦ rw plus refl
  | inr no_plus ↦ elim (Bool-cases (num_eq (code c) 47)) [
    | inl slash ↦ rw no_plus (rw slash refl)
    | inr no_slash ↦ rw no_plus (rw no_slash h)
  ]
]

strip_equals-append :
    (s : String) (n : ℕ) → is_body s ≡ true → strip_equals (append (urls s) (equals n)) ≡ urls s
unfolding strip_equals append urls swap_sign is_body
strip_equals-append [] n h = strip_equals-equals n
strip_equals-append (c ∷ s) n h =
    let (no_dash, no_line, no_equals, rest) = is_body-head c (is_body s) h in
    ap (place_equals _) (strip_equals-append s n rest)
    ∙ place_equals-other _ (urls s) (swap_char-equals c no_equals)

module _ (to_base64 from_base64 : String → String) where
  -- If what `Buffer` writes is padded base64 and it reads what it wrote, every text comes back from
  -- its form for a header.
  pub decode_base64_url-encode_base64_url :
      (json : String)
      → IsBase64 (to_base64 json)
      → from_base64 (to_base64 json) ≡ json
      → decode_base64_url to_base64 from_base64 (encode_base64_url to_base64 from_base64 json)
        ≡ json
  unfolding decode_base64_url encode_base64_url urls
  decode_base64_url-encode_base64_url json (body, is, shape) back =
      let encoded : strip_equals (urls (to_base64 json)) ≡ urls body =
        ap (λ t. strip_equals (urls t)) shape
        ∙ ap strip_equals (urls-append body (pad_length (size body)))
        ∙ strip_equals-append body (pad_length (size body)) is in
      let padded : swap_sign "_" "/" (swap_sign "-" "+" (strip_equals (urls (to_base64 json))))
          ≡ body =
        ap (λ t. swap_sign "_" "/" (swap_sign "-" "+" t)) encoded ∙ swap_sign-urls body is in
      ap (λ t. from_base64 (append t (equals (pad_length (size t))))) padded
      ∙ ap from_base64 (sym shape)
      ∙ back
