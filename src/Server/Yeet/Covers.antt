-- ===== src/Server/Yeet/Covers.antt =====
-- The bytes that the inner loop of `do_yeet` hands to its writes, beside those that they take.
use yeet_yoink.Common.{
  ℕ, ◌<◌, ◌≡◌, refl, ap, ◌⊎◌, inl, inr, List, ◌++◌, arith, length, length-append, take, take-cases,
}

-- What was handed over, `fed`, is `bytes`, or it is longer: a part of them was handed over again.
abbrev pub Covers : List ℕ → List ℕ → Type 0
Covers bytes fed = (fed ≡ bytes) ⊎ (length bytes < length fed)

-- A write of a chunk, of which the first `n` bytes are taken.
pub Covers-write :
    (bytes fed chunk : List ℕ) (n : ℕ)
    → Covers bytes fed
    → Covers (bytes ++ take n chunk) (fed ++ chunk)
Covers-write bytes fed chunk n c =
    let long = length-append bytes (take n chunk) in
    let longer = length-append fed chunk in
    elim (take-cases n chunk) [
      | inl whole ↦ elim c [
        | inl same ↦ inl (rw (whole, same) refl)
        | inr h ↦ inr (omega (arith, h, long, longer, ap length whole))
      ]
      | inr short ↦ elim c [
        | inl same ↦ inr (omega (arith, short, long, longer, ap length same))
        | inr h ↦ inr (omega (arith, h, short, long, longer))
      ]
    ]
