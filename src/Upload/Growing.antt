-- ===== src/Upload/Growing.antt =====
-- src/audit/uploader.ts: a log that is written to between its uploads.
use coreax.Prelude.{ℕ, ◌≤◌, some, List, [], ◌∷◌, ◌++◌, sym}
use mathlib.Core.Path.{subst}
use mathlib.Core.List.{append_assoc, append-nil}
use coreax.Upload.{UploaderConfig, Store, Attempt, Uploaded, ok, raised, upload_delta}
use coreax.Upload.Synced.{IsSynced, Finished, upload_delta-Finished, append-IsSynced}

module _ {A : Type 0} where
  Finished-IsSynced :
      (file : List A) (s : Store A) (r : Uploaded × Store A) → Finished file s r → IsSynced r.1 file
  Finished-IsSynced file s (ok, t) h = h.0
  Finished-IsSynced file s (raised e, t) h = h.0

-- Bytes written to a log, and what comes of the attempts of the upload that follows.
abbrev pub Write : Type 0 → Type 0
Write A = List A × (ℕ → Attempt)

module _ {A : Type 0} (cfg : UploaderConfig) where
  abbrev pub written : List (Write A) → List A
  written [] = []
  written ((more, answer) ∷ es) = more ++ written es

  -- The store after writes to a file, each followed by an upload.
  abbrev pub grow : List (Write A) → List A → Store A → Store A
  grow [] file s = s
  grow ((more, answer) ∷ es) file s =
      grow es (file ++ more) (upload_delta cfg answer (record s { file = some (file ++ more) })).1

  -- However a log grows between uploads that run one after the other, with at least one attempt each,
  -- and whichever attempts fail, with or without leaving their range at the service: where the following
  -- held before, it holds after each upload. The ranges that the service acknowledged are just the bytes
  -- of the log below the kept offset, none twice, none out of order, none skipped, and the offset lies
  -- within the log; any other range that the service has stored is a piece of the log that starts at the
  -- offset or below it.
  pub grow-IsSynced :
      (es : List (Write A)) (file : List A) (s : Store A)
      → 1 ≤ cfg.max_upload_attempts
      → IsSynced s file
      → IsSynced (grow es file s) (file ++ written es)
  grow-IsSynced [] file s h synced = subst (IsSynced s) (sym (append-nil file)) synced
  grow-IsSynced ((more, answer) ∷ es) file s h synced =
      let grown = append-IsSynced s file more synced in
      let sent =
        upload_delta-Finished cfg answer (file ++ more) (record s { file = some (file ++ more) }) h
          grown in
      let after =
        Finished-IsSynced (file ++ more) (record s { file = some (file ++ more) })
          (upload_delta cfg answer (record s { file = some (file ++ more) })) sent in
      subst (IsSynced (grow ((more, answer) ∷ es) file s)) (append_assoc file more (written es))
        (grow-IsSynced es (file ++ more) _ h after)
