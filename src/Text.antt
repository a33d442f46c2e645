-- ===== src/Text.antt =====
-- The string operations of the language that the sources use: `trim`, `toLowerCase` where its
-- result is only compared with texts of the letters a to z, `startsWith` and `includes`.
use Prim.Native.Char.{Char, code}
use Prim.Native.String.{[], ◌∷◌}
pub mod Trim
use coreax.Prelude.{ℕ, ◌+◌, String, Bool, true, false, ◌&&◌, ◌||◌, leb, num_eq, if◌then◌else◌}

-- White space and line terminators, as `String.prototype.trim` strips them.
unfoldable pub is_space : ℕ → Bool
is_space c =
    (leb 9 c && leb c 13)
    || num_eq c 32
    || num_eq c 160
    || num_eq c 5760
    || (leb 8192 c && leb c 8202)
    || num_eq c 8232
    || num_eq c 8233
    || num_eq c 8239
    || num_eq c 8287
    || num_eq c 12288
    || num_eq c 65279

pub trim_start : String → String
trim_start [] = []
trim_start (c ∷ s) = if is_space (code c) then trim_start s else c ∷ s

-- A character stays unless it is a space with nothing left behind it.
pub place : Char → String → String
place c [] = if is_space (code c) then [] else c ∷ []
place c (d ∷ s) = c ∷ d ∷ s

pub trim_end : String → String
trim_end [] = []
trim_end (c ∷ s) = place c (trim_end s)

unfoldable pub trim : String → String
unfolding trim_start trim_end place is_space
trim s = trim_end (trim_start s)

unfoldable pub lower : ℕ → ℕ
lower c = if leb 65 c && leb c 90 then c + 32 else c

-- `s.toLowerCase() === word`, for a word of the letters a to z other than k (the sign for kelvin,
-- the only other character whose lower case is such a letter, becomes a k).
unfoldable pub lower_is : String → String → Bool
unfolding lower
lower_is [] [] = true
lower_is [] (_ ∷ _) = false
lower_is (_ ∷ _) [] = false
lower_is (c ∷ s) (d ∷ word) = num_eq (lower (code c)) (code d) && lower_is s word
