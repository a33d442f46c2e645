-- ===== src/AgentState/Encoding.antt =====
-- src/agent-state/encoding.ts: texts in a header by the alphabet for URLs. The base64 of a text, and
-- the text of a base64, are arguments.
pub mod RoundTrip
use Prim.Native.Char.{Char, code}
use Prim.Native.String.{[], ◌∷◌}
use coreax.Prelude.{
  ℕ, zero, suc, ◌+◌, ◌-◌, ◌%◌, String, Bool, true, false, not, ◌&&◌, num_eq, if◌then◌else◌, ◌≡◌,
}

unfoldable pub swap_char : Char → Char → Char → Char
swap_char a b c = if num_eq (code c) (code a) then b else c

-- `replace(/a/g, b)` of one sign by another.
unfoldable pub swap_sign : Char → Char → String → String
swap_sign a b [] = []
swap_sign a b (c ∷ s) = swap_char a b c ∷ swap_sign a b s

unfoldable pub place_equals : Char → String → String
place_equals c [] = if num_eq (code c) (code "=") then [] else c ∷ []
place_equals c (d ∷ s) = c ∷ d ∷ s

-- `replace(/=+$/g, "")`
unfoldable pub strip_equals : String → String
strip_equals [] = []
strip_equals (c ∷ s) = place_equals c (strip_equals s)

unfoldable pub append : String → String → String
append [] t = t
append (c ∷ s) t = c ∷ append s t

unfoldable pub size : String → ℕ
size [] = 0
size (c ∷ s) = suc (size s)

-- `"=".repeat(n)`
unfoldable pub equals : ℕ → String
equals zero = ""
equals (suc n) = "=" ∷ equals n

unfoldable pub pad_length : ℕ → ℕ
pad_length n = (4 - n % 4) % 4

module _ (to_base64 from_base64 : String → String) where
  unfoldable pub encode_base64_url : String → String
  encode_base64_url json = strip_equals (swap_sign "/" "_" (swap_sign "+" "-" (to_base64 json)))

  pub decode_base64_url : String → String
  decode_base64_url encoded =
      let padded = swap_sign "_" "/" (swap_sign "-" "+" encoded) in
      from_base64 (append padded (equals (pad_length (size padded))))

-- No sign that only the other alphabet has, and no padding.
unfoldable pub is_body : String → Bool
is_body [] = true
is_body (c ∷ s) =
    not (num_eq (code c) 45) && not (num_eq (code c) 95) && not (num_eq (code c) 61) && is_body s

-- A base64 text: its body, of the base64 alphabet, filled up with `=` to a multiple of four.
abbrev pub IsBase64 : String → Type 0
IsBase64 t =
    (body : String) × (is_body body ≡ true) × (t ≡ append body (equals (pad_length (size body))))
