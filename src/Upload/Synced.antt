-- ===== src/Upload/Synced.antt =====
-- src/audit/uploader.ts: what an upload leaves at the service.
use coreax.Prelude.{
  ℕ, zero, suc, ◌+◌, ◌-◌, ◌≤◌, ◌<◌, String, Bool, true, false, not, Option, none, some, List, [],
  ◌++◌, ltb, leb, num_eq, length, All, ◌≡◌, refl, ap, sym, ◌∙◌, arith, Bool-cases, leb→lt, inl, inr,
  if◌then◌else◌,
}
use mathlib.Core.Path.{subst}
use mathlib.Core.List.{append-nil}
use coreax.Upload.Pieces.{
  IsPiece, take-length, take-drop, take-append, slice-rest, pieces-later, pieces-grown,
  length-append,
}
use coreax.Upload.Retryable.{is_retryable_upload_error}
use coreax.Upload.{
  take, Delta, compute_delta, UploaderConfig, Store, Uploaded, ok, raised, Attempt, taken, errored,
  slice, accepted, left_behind, paused, failed, upload_attempts, upload_file, upload_delta,
}

-- The ranges that the service acknowledged are just the bytes of the file below the offset, which lies
-- within the file; every other range that it stored is a piece of the file.
pub record IsSynced {A : Type 0} (s : Store A) (file : List A) : Type 0 where
  pub on_disk : s.file ≡ some file
  pub within : s.offset ≤ length file
  pub sent : s.acknowledged ≡ take s.offset file
  pub pieces : All (IsPiece file s.offset) s.unacknowledged

-- What an upload from a synced store ends in: an error that changes neither the offset nor what the
-- service has, or the whole file uploaded, still synced.
abbrev pub Finished : {A : Type 0} → List A → Store A → Uploaded × Store A → Type 0
Finished file s (ok, t) = IsSynced t file × (t.acknowledged ≡ file)
Finished file s (raised e, t) = IsSynced t file × (t.offset ≡ s.offset)

module _ {A : Type 0} (cfg : UploaderConfig) (answer : ℕ → Attempt) (file : List A) where
  accepted-Finished :
      (s t : Store A)
      → IsSynced t file
      → Finished file s (accepted cfg answer t.offset (length file) file t)
  unfolding accepted
  accepted-Finished s t h =
      let whole : t.acknowledged ++ slice t.offset (length file) file ≡ file =
        rw (h.sent, take-length file) (take-drop t.offset file) in
      (
        record {
          on_disk = h.on_disk;
          within = omega arith;
          sent = whole ∙ sym (take-length file);
          pieces = pieces-later file t.offset (length file) t.unacknowledged h.within h.pieces;
        },
        whole,
      )

  paused-IsSynced :
      (attempt : ℕ) (t : Store A) → IsSynced t file → IsSynced (paused cfg answer attempt t) file
  unfolding paused
  paused-IsSynced attempt t h = record {
    on_disk = h.on_disk;
    within = h.within;
    sent = h.sent;
    pieces = h.pieces;
  }

  -- A range that an error has left at the service starts at the offset.
  left_behind-IsSynced :
      (stored : Bool) (t : Store A)
      → IsSynced t file
      → IsSynced (left_behind cfg answer stored t.offset (length file) file t) file
        × ((left_behind cfg answer stored t.offset (length file) file t).offset ≡ t.offset)
  unfolding left_behind
  left_behind-IsSynced false t h = (h, refl)
  left_behind-IsSynced true t h =
      let cuts : file ≡ take t.offset file ++ (slice t.offset (length file) file ++ []) = sym (
        ap (λ l. take t.offset file ++ l)
          (append-nil (slice t.offset (length file) file) ∙ slice-rest t.offset file)
        ∙ take-drop t.offset file) in
      (
        record {
          on_disk = h.on_disk;
          within = h.within;
          sent = h.sent;
          pieces = ((omega arith, [], cuts), h.pieces);
        },
        refl,
      )

  failed-Finished :
      (next : Store A → Uploaded × Store A) (attempt : ℕ) (e : String) (s t : Store A)
      → IsSynced t file
      → t.offset ≡ s.offset
      → (attempt < cfg.max_upload_attempts → Finished file s (next (paused cfg answer attempt t)))
      → Finished file s (failed cfg answer next attempt e t)
  unfolding failed
  failed-Finished next attempt e s t synced same more =
      elim (Bool-cases (leb cfg.max_upload_attempts attempt)) [
        | inl last ↦ rw last (synced, same)
        | inr early ↦ rw early (go (leb→lt _ _ early) (is_retryable_upload_error e))
      ]
    where
      go :
          attempt < cfg.max_upload_attempts
          → (b : Bool)
          → Finished file s (if not b then (raised e, t) else next (paused cfg answer attempt t))
      go left true = more left
      go left false = (synced, same)

  answered-Finished :
      (next : Store A → Uploaded × Store A) (attempt : ℕ) (s t : Store A) (o : Attempt)
      → IsSynced t file
      → t.offset ≡ s.offset
      → ((stored : Bool)
          → attempt < cfg.max_upload_attempts
          → Finished file s (
              next (
                paused cfg answer attempt
                  (left_behind cfg answer stored t.offset (length file) file t))))
      → Finished file s (elim o [
        | taken ↦ accepted cfg answer t.offset (length file) file t
        | errored stored e ↦
            failed cfg answer next attempt e
              (left_behind cfg answer stored t.offset (length file) file t)
      ])
  answered-Finished next attempt s t taken synced same more = accepted-Finished s t synced
  answered-Finished next attempt s t (errored stored e) synced same more =
      let (left, kept) = left_behind-IsSynced stored t synced in
      failed-Finished next attempt e s (left_behind cfg answer stored t.offset (length file) file t)
        left (kept ∙ same) (more stored)

  attempts-Finished :
      (left attempt : ℕ) (s t : Store A)
      → cfg.max_upload_attempts + 1 ≡ left + attempt
      → 1 ≤ left
      → IsSynced t file
      → t.offset ≡ s.offset
      → Finished file s (upload_attempts cfg answer left attempt t.offset (length file) file t)
  unfolding upload_attempts paused
  attempts-Finished zero attempt s t h k synced same = absurd (omega arith)
  attempts-Finished (suc left) attempt s t h k synced same =
      answered-Finished (upload_attempts cfg answer left (attempt + 1) t.offset (length file) file)
        attempt s t (answer attempt) synced same
        (λ stored more.
          let (still, kept) = left_behind-IsSynced stored t synced in
          let u =
            paused cfg answer attempt
              (left_behind cfg answer stored t.offset (length file) file t) in
          subst
            (λ start.
              Finished file s
                (upload_attempts cfg answer left (attempt + 1) start (length file) file u))
            kept
            (attempts-Finished left (attempt + 1) s u (omega arith) (omega arith)
              (paused-IsSynced attempt _ still) (kept ∙ same)))

  -- Nothing is left to send, or the range starts at the offset.
  abbrev StartsAt : ℕ → ℕ → Option Delta → Type 0
  StartsAt size offset none = offset ≡ size
  StartsAt size offset (some d) = d.start ≡ offset

  compute_delta-StartsAt :
      (size offset : ℕ) → offset ≤ size → StartsAt size offset (compute_delta size offset)
  unfolding compute_delta
  compute_delta-StartsAt size offset h = elim (Bool-cases (ltb size offset)) [
    | inl over ↦ absurd (ground arith)
    | inr inside ↦ rw inside (elim (Bool-cases (num_eq (size - offset) 0)) [
      | inl empty ↦ rw empty (ground arith)
      | inr more ↦ rw more refl
    ])
  ]

  upload_file-Finished :
      (s : Store A)
      → 1 ≤ cfg.max_upload_attempts
      → IsSynced s file
      → Finished file s (upload_file cfg answer file s)
  unfolding upload_file
  upload_file-Finished s h synced =
      go (compute_delta (length file) s.offset)
        (compute_delta-StartsAt (length file) s.offset synced.within)
    where
      go :
          (d : Option Delta)
          → StartsAt (length file) s.offset d
          → Finished file s (elim d [
            | none ↦ (ok, s)
            | some d ↦
                upload_attempts cfg answer cfg.max_upload_attempts 1 d.start (length file) file s
          ])
      go none e = (synced, synced.sent ∙ ap (λ n. take n file) e ∙ take-length file)
      go (some d) e =
          subst
            (λ start.
              Finished file s
                (upload_attempts cfg answer cfg.max_upload_attempts 1 start (length file) file s))
            (sym e) (attempts-Finished cfg.max_upload_attempts 1 s s refl h synced refl)

  -- An upload, however often the attempts fail and with whatever errors, keeps the store synced: it
  -- ends with the whole file acknowledged, each byte once and in order, or with an error and the offset
  -- that it had.
  pub upload_delta-Finished :
      (s : Store A)
      → 1 ≤ cfg.max_upload_attempts
      → IsSynced s file
      → Finished file s (upload_delta cfg answer s)
  unfolding upload_delta
  upload_delta-Finished s h synced = go s.file synced.on_disk
    where
      go :
          (f : Option (List A))
          → f ≡ some file
          → Finished file s
              (elim f [ none ↦ (ok, s) | some found ↦ upload_file cfg answer found s ])
      go none e = cc
      go (some found) e =
          let same : found ≡ file = cc in
          subst (λ x. Finished file s (upload_file cfg answer x s)) (sym same)
            (upload_file-Finished s h synced)

-- A file that grows between two uploads stays synced.
pub append-IsSynced :
    {A : Type 0} (s : Store A) (file more : List A)
    → IsSynced s file
    → IsSynced (record s { file = some (file ++ more) }) (file ++ more)
append-IsSynced s file more h = record {
  on_disk = refl;
  within = let grown = length-append file more in let w = h.within in omega arith;
  sent = h.sent ∙ sym (take-append s.offset file more h.within);
  pieces = pieces-grown file more s.offset s.unacknowledged h.within h.pieces;
}
