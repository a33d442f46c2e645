-- ===== src/Upload.antt =====
-- src/audit/upload-state.ts and uploader.ts: the upload of the new bytes of a log file, whose last
-- offset is remembered. A file is the list of its bytes; the service stores a range whole or not at
-- all. Uploads run one after the other: calls for one file that overlap are not modelled.
pub mod Retryable
mod Pieces
pub mod Synced
pub mod Growing
mod Tests
use coreax.Prelude.{
  ℕ, zero, suc, ◌+◌, ◌-◌, ◌*◌, String, Bool, true, false, not, ◌||◌, Option, none, some, List, [],
  ◌∷◌, ◌++◌, ltb, leb, num_eq, length, if◌then◌else◌,
}
use coreax.Upload.Retryable.{is_retryable_upload_error}

module _ {A : Type 0} where
  abbrev pub take : ℕ → List A → List A
  take zero xs = []
  take (suc n) [] = []
  take (suc n) (x ∷ xs) = x ∷ take n xs

  abbrev pub drop : ℕ → List A → List A
  drop zero xs = xs
  drop (suc n) [] = []
  drop (suc n) (x ∷ xs) = drop n xs

pub record Delta : Type 0 where
  pub start : ℕ
  pub delta_bytes : ℕ

-- `computeDelta`; an offset behind the end of the file starts it again.
pub compute_delta : (file_size last_offset : ℕ) → Option Delta
compute_delta file_size last_offset =
    let safe_last = if ltb file_size last_offset then 0 else last_offset in
    if num_eq (file_size - safe_last) 0
    then none
    else some (record { start = safe_last; delta_bytes = file_size - safe_last })

pub record UploaderConfig : Type 0 where
  pub max_upload_attempts : ℕ
  pub retry_base_delay_ms : ℕ

-- The file, where there is one, the offset that is kept for it, and the pauses so far, the last one
-- first. What the service has stored: the ranges that it acknowledged, one after the other, and those
-- that an attempt with an error has left there, each under a key of its own and with its start.
pub record Store (A : Type 0) : Type 0 where
  pub file : Option (List A)
  pub offset : ℕ
  pub acknowledged : List A
  pub unacknowledged : List (ℕ × List A)
  pub sleeps : List ℕ

-- What comes of an attempt. An error, such as a timeout, does not tell whether the range was stored.
pub data Attempt : Type 0 where
  taken : Attempt
  errored : (stored : Bool) (message : String) → Attempt

pub data Uploaded : Type 0 where
  ok : Uploaded
  raised : String → Uploaded

-- The bytes of a file from a position up to, and without, another: what `createReadStream` sends.
abbrev pub slice : {A : Type 0} → ℕ → ℕ → List A → List A
slice start stop file = drop start (take stop file)

-- What comes of each attempt.
module _ {A : Type 0} (cfg : UploaderConfig) (answer : ℕ → Attempt) where
  -- The range is taken, and `onSuccess` keeps the size as the new offset.
  pub accepted : ℕ → ℕ → List A → Store A → Uploaded × Store A
  accepted start size file s =
      (ok, record s { offset = size; acknowledged = s.acknowledged ++ slice start size file })

  pub left_behind : Bool → ℕ → ℕ → List A → Store A → Store A
  left_behind false start size file s = s
  left_behind true start size file s = record s {
    unacknowledged = (start, slice start size file) ∷ s.unacknowledged;
  }

  pub paused : ℕ → Store A → Store A
  paused attempt s = record s { sleeps = (cfg.retry_base_delay_ms * attempt) ∷ s.sleeps }

  pub failed : (Store A → Uploaded × Store A) → ℕ → String → Store A → Uploaded × Store A
  failed next attempt e s =
      if leb cfg.max_upload_attempts attempt || not (is_retryable_upload_error e)
      then (raised e, s)
      else next (paused attempt s)

  -- The loop over the attempts; behind it nothing is left to throw.
  pub upload_attempts : (left attempt : ℕ) → ℕ → ℕ → List A → Store A → Uploaded × Store A
  upload_attempts zero attempt start size file s = (ok, s)
  upload_attempts (suc left) attempt start size file s =
      let next = upload_attempts left (attempt + 1) start size file in
      elim (answer attempt) [
        | taken ↦ accepted start size file s
        | errored stored e ↦ failed next attempt e (left_behind stored start size file s)
      ]

  pub upload_file : List A → Store A → Uploaded × Store A
  upload_file file s = elim (compute_delta (length file) s.offset) [
    | none ↦ (ok, s)
    | some d ↦ upload_attempts cfg.max_upload_attempts 1 d.start (length file) file s
  ]

  -- The work of `uploadDelta`.
  pub upload_delta : Store A → Uploaded × Store A
  upload_delta s = elim s.file [ none ↦ (ok, s) | some file ↦ upload_file file s ]
