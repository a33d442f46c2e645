-- ===== src/Upload/Retryable.antt =====
-- src/audit/uploader.ts: which errors of an upload are worth another attempt.
use Prim.Native.Char.{code}
use Prim.Native.String.{[], ◌∷◌}
use coreax.Prelude.{ℕ, String, Bool, true, false, ◌&&◌, ◌||◌, ◌==◌, num_eq, if◌then◌else◌}
use coreax.Text.{lower}

-- `toLowerCase` of a character, as far as the words below can tell: besides the letters A to Z only
-- the sign for kelvin becomes one of their letters.
pub folded : ℕ → ℕ
folded c = if num_eq c 8490 then 107 else lower c

pub starts_with : (s word : String) → Bool
starts_with s [] = true
starts_with [] (d ∷ word) = false
starts_with (c ∷ s) (d ∷ word) = num_eq (folded (code c)) (code d) && starts_with s word

-- `s.toLowerCase().includes(word)`
pub includes : (s word : String) → Bool
includes [] word = starts_with [] word
includes (c ∷ s) word = starts_with (c ∷ s) word || includes s word

unfoldable pub is_retryable_upload_error : String → Bool
unfolding includes starts_with folded lower
is_retryable_upload_error s =
    if s == ""
    then false
    else includes s "aborterror"
      || includes s "this operation was aborted"
      || includes s "timed out"
      || includes s "timeout"
      || includes s "unreachable"
      || includes s "fetch failed"
      || includes s "econnreset"
      || includes s "socket hang up"
      || includes s "status 429"
      || includes s "status 500"
      || includes s "status 502"
      || includes s "status 503"
      || includes s "status 504"
