-- ===== src/Wal/Recovery/RoundTrip.antt =====
-- wal.cpp: what a writer has appended record by record, a reader of the file finds again.
use ambar.Prelude.{
  ℕ, suc, ◌+◌, true, false, some, List, [], ◌∷◌, ◌++◌, Bytes, length, arith, ◌≡◌, inl, inr, refl,
  ap, sym, ◌∙◌, append_assoc, append-nil, Option-cases,
}
use ambar.Status.{Status, ok}
use ambar.File.{WritableFile, SequentialFile}
use ambar.Wal.Writer.{LogWriter, new_writer, add_record}
use ambar.Wal.Writer.Encodes.{encoded, add_record_appends}
use ambar.Wal.Reader.{LogReader, new_reader, is_damaged}
use ambar.Wal.Reader.Blocks.{NeverFails}
use ambar.Wal.Recovery.{add_all, read_all, log_bytes}
use ambar.Wal.Recovery.Reads.{Before, read_all-log_bytes}

module _ {F : Type 0} (file : WritableFile F) where
  add_step :
      (w w' w₁ : LogWriter F) (p : Bytes) (ps : List Bytes) (status : Status)
      → add_record file w p ≡ some (status, w₁)
      → add_all file w (p ∷ ps) ≡ some (ok, w')
      → (status ≡ ok) × (add_all file w₁ ps ≡ some (ok, w'))
  unfolding add_all
  add_step w w' w₁ p ps status added e = (ground arith, ground arith)

  add_steps :
      (w w' : LogWriter F) (p : Bytes) (ps : List Bytes)
      → add_all file w (p ∷ ps) ≡ some (ok, w')
      → (w₁ : LogWriter F) × (add_record file w p ≡ some (ok, w₁))
        × (add_all file w₁ ps ≡ some (ok, w'))
  add_steps w w' p ps e = elim (Option-cases (add_record file w p)) [
    | inl failed ↦ absurd (unfold add_all in ground arith)
    | inr ((status, w₁), added) ↦
        let (fine, more) = add_step w w' w₁ p ps status added e in
        (w₁, added ∙ ap (λ (s : Status). some (s, w₁)) fine, more)
  ]

  -- Records that are all added without an error stand one behind the other.
  add_all-log_bytes :
      (w w' : LogWriter F) (ps : List Bytes)
      → add_all file w ps ≡ some (ok, w')
      → file.contents w'.dest ≡ file.contents w.dest ++ log_bytes w.offset ps
  unfolding log_bytes
  add_all-log_bytes w w' [] e =
      let same : w ≡ w' = unfold add_all in cc e in
      rw (← same) (sym (append-nil (file.contents w.dest)))
  add_all-log_bytes w w' (p ∷ ps) e =
      let (w₁, added, more) = add_steps w w' p ps e in
      let (here, offset, written) = add_record_appends file w w₁ p added in
      add_all-log_bytes w₁ w' ps more
      ∙ ap (λ (c : Bytes). c ++ log_bytes w₁.offset ps) here
      ∙ append_assoc (file.contents w.dest) (encoded (length p + 2) w.offset p true)
          (log_bytes w₁.offset ps)
      ∙ ap
          (λ (o : ℕ).
            file.contents w.dest ++ (encoded (length p + 2) w.offset p true ++ log_bytes o ps))
          offset

-- Records that a new writer adds one after another to an empty file, each without an error, are
-- what a new reader of that file's contents reads: all of them, in order, unchanged, and then no
-- more. The reader then reports neither a truncated log nor damage. The conditions are that reading
-- the file does not fail and that an append without an error puts its bytes behind the file's
-- contents.
pub read_all-add_all :
    {F R : Type 0} (out : WritableFile F) (file : SequentialFile R) (f : F) (w : LogWriter F)
    (s : R) (ps : List Bytes)
    → NeverFails file
    → out.contents f ≡ []
    → add_all out (new_writer out f) ps ≡ some (ok, w)
    → file.left s ≡ out.contents w.dest
    → (r : LogReader R) × (read_all file (length ps + 1) (new_reader file s) ≡ some (ps, r))
      × (r.truncated ≡ false)
      × (is_damaged file r ≡ false)
unfolding Before
read_all-add_all out file f w s ps never empty added same =
    let more : suc (length ps) ≡ length ps + 1 = omega arith in
    let log : file.left s ≡ log_bytes 0 ps =
      same
      ∙ add_all-log_bytes out (new_writer out f) w ps added
      ∙ ap (λ (c : Bytes). c ++ log_bytes 0 ps) empty in
    rw (← more) (
      read_all-log_bytes file never (new_reader file s) ps (inr (refl, refl, refl, log))
        (omega arith))
