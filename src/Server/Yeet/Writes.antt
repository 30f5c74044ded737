-- ===== src/Server/Yeet/Writes.antt =====
-- The inner loop of `do_yeet`: one chunk of the body.
use mathlib.Core.Path.{subst}
use mathlib.Core.List.{append-nil, append_assoc}
use yeet_yoink.Common.{
  ℕ, zero, suc, ◌≤◌, ◌≡◌, refl, ap, sym, ◌∙◌, ◌≢◌, inl, inr, List, [], ◌∷◌, ◌++◌, some, Result, ok,
  err, arith, length, take, drop, take-append-drop, length-drop, Result-cases,
}
use yeet_yoink.Crates.{Crates, IsAppending, IsProgressing, IoError}
use yeet_yoink.Backbone.Writer.{FileWriter, update_state}
use yeet_yoink.Backbone.Writer
use yeet_yoink.Backbone.Writer.Hashes.{write-inner}
use yeet_yoink.Backbone.Guard.{FileWriterGuard}
use yeet_yoink.Backbone.Guard
use yeet_yoink.Backbone.Guard.Life.{writes, call, calls, Reaches}
use yeet_yoink.Backbone.Guard.Bytes.{Holds, write-Holds, write-Wrote}
use yeet_yoink.Server.Yeet.{write_data}

module _ (K : Crates) where
  -- A property of the guard that every successful write carries from one content to a longer one.
  module _ {ℓ} (P : FileWriterGuard K → List ℕ → Type ℓ)
      (on_write : (g : FileWriterGuard K) (chunk bytes : List ℕ) (n : ℕ)
        → P g bytes
        → (Guard.write K g chunk).0 ≡ ok n
        → P (Guard.write K g chunk).1 (bytes ++ take n chunk)) where
    pub write_data-extends :
        (f : ℕ) (g g' : FileWriterGuard K) (bytes chunk : List ℕ)
        → P g bytes
        → write_data K f g chunk ≡ some (ok tt, g')
        → P g' (bytes ++ chunk)
    unfolding write_data
    write_data-extends zero g g' bytes [] p h =
        let same : g ≡ g' = ground arith in subst (λ g. P g (bytes ++ [])) same (rw append-nil p)
    write_data-extends (suc f) g g' bytes [] p h =
        let same : g ≡ g' = ground arith in subst (λ g. P g (bytes ++ [])) same (rw append-nil p)
    write_data-extends zero g g' bytes (x ∷ xs) p h = cc
    write_data-extends (suc f) g g' bytes (x ∷ xs) p h =
        elim (Result-cases (Guard.write K g (x ∷ xs)).0) [
          | inr (e, w) ↦ absurd (ground arith)
          | inl (n, w) ↦
              subst (P g')
                (append_assoc bytes (take n (x ∷ xs)) (drop n (x ∷ xs))
                  ∙ ap (λ l. bytes ++ l) (take-append-drop n (x ∷ xs)))
                (write_data-extends f (Guard.write K g (x ∷ xs)).1 g' (bytes ++ take n (x ∷ xs))
                  (drop n (x ∷ xs)) (on_write g (x ∷ xs) bytes n p w) (ground arith))
        ]

  -- If a write appends the part of the chunk that it takes, then after an inner loop that ends well
  -- the file holds the whole chunk behind what it held, however the writes cut it.
  pub write_data-Holds :
      (A : IsAppending K.files) (f : ℕ) (g g' : FileWriterGuard K) (bytes chunk : List ℕ)
      → Holds K A g bytes
      → write_data K f g chunk ≡ some (ok tt, g')
      → Holds K A g' (bytes ++ chunk)
  write_data-Holds A = write_data-extends (Holds K A) (write-Holds K A)

  -- Whatever comes of it, the inner loop only writes to the guard.
  pub write_data-Reaches :
      (f : ℕ) (g g' : FileWriterGuard K) (chunk : List ℕ) (r : Result IoError (Unit {0}))
      → write_data K f g chunk ≡ some (r, g')
      → Reaches K g g'
  unfolding write_data calls call
  write_data-Reaches zero g g' [] r h = ([], ground arith)
  write_data-Reaches (suc f) g g' [] r h = ([], ground arith)
  write_data-Reaches zero g g' (x ∷ xs) r h = cc
  write_data-Reaches (suc f) g g' (x ∷ xs) r h = elim (Result-cases (Guard.write K g (x ∷ xs)).0) [
    | inr (e, w) ↦ (writes (x ∷ xs) ∷ [], ground arith)
    | inl (n, w) ↦
        let (cs, e) =
          write_data-Reaches f (Guard.write K g (x ∷ xs)).1 g' (drop n (x ∷ xs)) r (ground arith) in
        (writes (x ∷ xs) ∷ cs, e)
  ]

  -- A guard whose writer is there keeps it.
  abbrev pub IsOpen : FileWriterGuard K → Type 0
  IsOpen g = (w : FileWriter K) × (g.inner ≡ some w)

  write-IsOpen :
      (g : FileWriterGuard K) (chunk : List ℕ) → IsOpen g → IsOpen (Guard.write K g chunk).1
  unfolding Guard.write Guard.fail_if_not_already_closed
  write-IsOpen g chunk (w, e) = ((Writer.write K w chunk).1, ground arith)

  -- Fuel of the length of the chunk is enough, if a write of some bytes takes at least one.
  pub write_data-total :
      IsProgressing K.files
      → (f : ℕ) (g : FileWriterGuard K) (chunk : List ℕ) → length chunk ≤ f
      → IsOpen g
      → (r : Result IoError (Unit {0})) × (g' : FileWriterGuard K) × (write_data K f g chunk
          ≡ some (r, g'))
        × IsOpen g'
  unfolding write_data
  write_data-total progress zero g [] h o = (ok tt, g, refl, o)
  write_data-total progress (suc f) g [] h o = (ok tt, g, refl, o)
  write_data-total progress zero g (x ∷ xs) h o = absurd (omega arith)
  write_data-total progress (suc f) g (x ∷ xs) h (w, o) =
      let o' = write-IsOpen g (x ∷ xs) (w, o) in
      elim (Result-cases (Guard.write K g (x ∷ xs)).0) [
        | inr (e, failed) ↦ (err e, (Guard.write K g (x ∷ xs)).1, ground arith, o')
        | inl (n, went) ↦
            let (outcome, _) = write-inner K w (x ∷ xs) in
            let took = sym outcome ∙ (write-Wrote K g (x ∷ xs) n w o went).took in
            let some_taken : n ≢ 0 =
              λ z. cc (progress.write_progress w.inner (x ∷ xs) (rw z at took)) in
            let (r, g', e, o'') =
              write_data-total progress f (Guard.write K g (x ∷ xs)).1 (drop n (x ∷ xs))
                (omega (arith, length-drop n (x ∷ xs), some_taken)) o' in
            (r, g', ground (arith, e), o'')
      ]
