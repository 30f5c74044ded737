-- ===== src/Server/Yeet/Short.antt =====
-- A write that takes less than its chunk. `FileWriter::write` adds the whole chunk to the digests and
-- to the size before it writes, and the loop then hands over the rest again.
use yeet_yoink.Common.{
  ℕ, zero, suc, ◌+◌, ◌*◌, ◌≤◌, ◌<◌, ◌≡◌, inl, inr, List, [], ◌∷◌, some, ok, arith, length, drop,
  length-drop, Result-cases, word,
}
use yeet_yoink.Crates.{Crates}
use yeet_yoink.Backbone.Writer.{FileWriter, update_state}
use yeet_yoink.Backbone.Writer
use yeet_yoink.Backbone.Guard.{FileWriterGuard}
use yeet_yoink.Backbone.Guard
use yeet_yoink.Backbone.Guard.Bytes.{write-Wrote}
use yeet_yoink.Server.Yeet.{write_data}

fits_rest : (s f l d m : ℕ) → s + suc f * l < m → d ≤ l → s + l + f * d < m
fits_rest s f l d m h le = grind arith

module _ (K : Crates) where
  write-file_size :
      (w : FileWriter K) (chunk : List ℕ)
      → w.file_size + length chunk < word
      → (Writer.write K w chunk).1.file_size ≡ w.file_size + length chunk
  unfolding Writer.write
  write-file_size w chunk h = omega arith

  write_data-size_le :
      (f : ℕ) (g g' : FileWriterGuard K) (w w' : FileWriter K) (chunk : List ℕ)
      → g.inner ≡ some w
      → g'.inner ≡ some w'
      → write_data K f g chunk ≡ some (ok tt, g')
      → w.file_size + f * length chunk < word
      → w.file_size + length chunk ≤ w'.file_size
  unfolding write_data
  write_data-size_le zero g g' w w' [] e e' h fits =
      let same : w ≡ w' = ground arith in rw same (omega arith)
  write_data-size_le (suc f) g g' w w' [] e e' h fits =
      let same : w ≡ w' = ground arith in rw same (omega arith)
  write_data-size_le zero g g' w w' (x ∷ xs) e e' h fits = cc
  write_data-size_le (suc f) g g' w w' (x ∷ xs) e e' h fits =
      elim (Result-cases (Guard.write K g (x ∷ xs)).0) [
        | inr (y, failed) ↦ absurd (ground arith)
        | inl (n, went) ↦
            let wrote = write-Wrote K g (x ∷ xs) n w e went in
            let size = write-file_size w (x ∷ xs) (grind (arith, fits)) in
            let rest =
              write_data-size_le f (Guard.write K g (x ∷ xs)).1 g' (Writer.write K w (x ∷ xs)).1 w'
                (drop n (x ∷ xs)) wrote.writer e' (ground arith)
                (rw size (
                  fits_rest w.file_size f (length (x ∷ xs)) (length (drop n (x ∷ xs))) word fits
                    (omega (arith, length-drop n (x ∷ xs))))) in
            omega (arith, rest, size, length-drop n (x ∷ xs))
      ]

  -- If the first write of a chunk takes less than all of it and the inner loop ends well, the size
  -- that the summary will report has grown by more than the chunk, as long as it does not wrap: the
  -- part that the write left is counted twice.
  pub short_write-oversized :
      (f : ℕ) (g g' : FileWriterGuard K) (w w' : FileWriter K) (x : ℕ) (xs : List ℕ) (k : ℕ)
      → g.inner ≡ some w
      → g'.inner ≡ some w'
      → (Guard.write K g (x ∷ xs)).0 ≡ ok k
      → k < length (x ∷ xs)
      → write_data K (suc f) g (x ∷ xs) ≡ some (ok tt, g')
      → w.file_size + suc f * length (x ∷ xs) < word
      → w.file_size + length (x ∷ xs) < w'.file_size
  unfolding write_data
  short_write-oversized f g g' w w' x xs k e e' went short h fits =
      let wrote = write-Wrote K g (x ∷ xs) k w e went in
      let size = write-file_size w (x ∷ xs) (grind (arith, fits)) in
      let rest =
        write_data-size_le f (Guard.write K g (x ∷ xs)).1 g' (Writer.write K w (x ∷ xs)).1 w'
          (drop k (x ∷ xs)) wrote.writer e' (ground arith)
          (rw size (
            fits_rest w.file_size f (length (x ∷ xs)) (length (drop k (x ∷ xs))) word fits
              (omega (arith, length-drop k (x ∷ xs))))) in
      omega (arith, rest, size, length-drop k (x ∷ xs))
