-- ===== src/Backbone/Reader/Counts.antt =====
-- What a read adds to the count of the bytes that were fetched.
use yeet_yoink.Common.{
  ℕ, ◌+◌, ◌≡◌, ◌↔◌, refl, ap, sym, ◌∙◌, List, [], ◌∷◌, ◌++◌, Option, some, Result, length,
  length-append, arith,
}
use yeet_yoink.Crates.{Crates, IoError, ready}
use yeet_yoink.Backbone.Reader.{FileReader, poll_read}

length-zero : (xs : List ℕ) → length xs ≡ 0 → xs ≡ []
length-zero [] e = refl
length-zero (x ∷ xs) e = absurd (omega arith)

some-number : (a b : ℕ) → ◌≡◌ {A = Option ℕ} (some a) (some b) → a ≡ b
some-number a b e = cc

module _ (K : Crates) where
  -- If a poll of the file appends some bytes to those that the buffer already holds, the reader hands
  -- all of them on, and counts all of them as fetched: it counts the appended ones alone exactly if
  -- the buffer was empty.
  pub poll_read-counts :
      (r : FileReader K) (buf more : List ℕ) (read : Result IoError (Unit {0})) (inner' : K.Reader)
      → K.poll_read r.inner buf ≡ (ready read, buf ++ more, inner')
      → let (polled, filled, r', counted) = poll_read K r buf in
        (polled ≡ ready read)
        × (filled ≡ buf ++ more)
        × (r' ≡ record r { inner = inner' })
        × (counted ≡ some (length buf + length more))
        × ((counted ≡ some (length more)) ↔ (buf ≡ []))
  unfolding poll_read
  poll_read-counts r buf more read inner' h =
      let counted : (poll_read K r buf).3 ≡ some (length buf + length more) =
        ground (arith, length-append buf more) in
      (
        ground arith,
        ground arith,
        ground arith,
        counted,
        (
          λ e. length-zero buf (
              omega
                (arith, some-number (length buf + length more) (length more) (sym counted ∙ e))),
          λ e.
              let none_before : length buf + length more ≡ length more =
                omega (arith, ap length e) in
              counted ∙ ap some none_before,
        ),
      )
