-- ===== src/Server/Yeet/Streams.antt =====
-- The outer loop of `do_yeet`: the body as a stream of chunks.
use mathlib.Core.Path.{subst}
use mathlib.Core.List.{append-nil, append_assoc}
use yeet_yoink.Common.{
  ℕ, ◌≤◌, ◌≡◌, inl, inr, List, [], ◌∷◌, ◌++◌, Option, some, Result, ok, err, arith, length, take,
  Option-cases,
}
use yeet_yoink.Crates.{Crates, IsAppending}
use yeet_yoink.Backbone.Guard.{FileWriterGuard}
use yeet_yoink.Backbone.Guard
use yeet_yoink.Backbone.Guard.Bytes.{Holds, sync_data-Holds}
use yeet_yoink.Backbone.Table.{temporal_lease}
use yeet_yoink.Server.Yeet.{write_data, take_chunk, take_stream}
use yeet_yoink.Server.Yeet.Writes.{write_data-extends, write_data-Holds}

-- The bytes of the chunks that arrived.
pub contents {ℓ} : {E : Type ℓ} → List (Result E (List ℕ)) → List ℕ
contents [] = []
contents (ok chunk ∷ stream) = chunk ++ contents stream
contents (err e ∷ stream) = contents stream

-- Every chunk is within the fuel.
abbrev pub Fuels {ℓ} : {E : Type ℓ} → ℕ → List (Result E (List ℕ)) → Type 0
Fuels f [] = Unit
Fuels f (ok chunk ∷ stream) = (length chunk ≤ f) × Fuels f stream
Fuels f (err e ∷ stream) = Fuels f stream

module _ (K : Crates) where
  pub take_chunk-eq_ok :
      (f : ℕ) (g g' : FileWriterGuard K) (chunk : List ℕ)
      → take_chunk K f g chunk ≡ some (ok tt, g')
      → (g1 : FileWriterGuard K) × (write_data K f g chunk ≡ some (ok tt, g1))
        × (Guard.sync_data K g1 ≡ some (ok tt, g'))
  unfolding take_chunk
  take_chunk-eq_ok f g g' chunk h = elim (Option-cases (write_data K f g chunk)) [
    | inl e ↦ absurd (ground arith)
    | inr ((err x, g1), e) ↦ absurd (ground arith)
    | inr ((ok _, g1), e) ↦ (g1, e, ground arith)
  ]

  -- A property that the inner loop and the sync carry on is carried on by the outer loop.
  module _ {ℓ} (P : FileWriterGuard K → List ℕ → Type ℓ)
      (on_data : (f : ℕ) (g g' : FileWriterGuard K) (bytes chunk : List ℕ)
        → P g bytes
        → write_data K f g chunk ≡ some (ok tt, g')
        → P g' (bytes ++ chunk))
      (on_sync : (g g' : FileWriterGuard K) (bytes : List ℕ)
        → P g bytes
        → Guard.sync_data K g ≡ some (ok tt, g')
        → P g' bytes) where
    pub take_stream-extends :
        (f : ℕ) (g g' : FileWriterGuard K) (bytes : List ℕ)
        (stream : List (Result K.BodyError (List ℕ)))
        → P g bytes
        → take_stream K f g stream ≡ some (ok tt, g')
        → P g' (bytes ++ contents stream)
    unfolding take_stream contents
    take_stream-extends f g g' bytes [] p h =
        let same : g ≡ g' = ground arith in subst (λ g. P g (bytes ++ [])) same (rw append-nil p)
    take_stream-extends f g g' bytes (err e ∷ stream) p h = absurd (ground arith)
    take_stream-extends f g g' bytes (ok chunk ∷ stream) p h =
        elim (Option-cases (take_chunk K f g chunk)) [
          | inl e ↦ absurd (ground arith)
          | inr ((err x, g2), e) ↦ absurd (ground arith)
          | inr ((ok _, g2), e) ↦
              let (g1, wrote, synced) = take_chunk-eq_ok f g g2 chunk e in
              subst (P g') (append_assoc bytes chunk (contents stream)) (
                take_stream-extends f g2 g' (bytes ++ chunk) stream
                  (on_sync g1 g2 (bytes ++ chunk) (on_data f g g1 bytes chunk p wrote) synced)
                  (ground arith))
        ]

  pub take_stream-Holds :
      (A : IsAppending K.files) (f : ℕ) (g g' : FileWriterGuard K) (bytes : List ℕ)
      (stream : List (Result K.BodyError (List ℕ)))
      → Holds K A g bytes
      → take_stream K f g stream ≡ some (ok tt, g')
      → Holds K A g' (bytes ++ contents stream)
  take_stream-Holds A =
      take_stream-extends (Holds K A) (write_data-Holds K A)
        (λ g g' bytes p e. sync_data-Holds K A g g' bytes p e)

  -- What the request announced and how long its file is leased stay as they are.
  abbrev pub Announces : Option ℕ → Option (List ℕ) → FileWriterGuard K → List ℕ → Type 0
  Announces size md5 g bytes =
      (g.expected_size ≡ size) × (g.expected_content_md5 ≡ md5) × (g.expiration ≡ temporal_lease)

  module _ (size : Option ℕ) (md5 : Option (List ℕ)) where
    write-Announces :
        (g : FileWriterGuard K) (chunk bytes : List ℕ) (n : ℕ)
        → Announces size md5 g bytes
        → (Guard.write K g chunk).0 ≡ ok n
        → Announces size md5 (Guard.write K g chunk).1 (bytes ++ take n chunk)
    unfolding Guard.write Guard.fail_if_not_already_closed
    write-Announces g chunk bytes n p e = ground arith

    sync_data-Announces :
        (g g' : FileWriterGuard K) (bytes : List ℕ)
        → Announces size md5 g bytes
        → Guard.sync_data K g ≡ some (ok tt, g')
        → Announces size md5 g' bytes
    unfolding Guard.sync_data
    sync_data-Announces g g' bytes p e = elim (Option-cases g.inner) [
      | inl x ↦ absurd (ground arith)
      | inr (w, x) ↦ ground arith
    ]

    pub take_stream-Announces :
        (f : ℕ) (g g' : FileWriterGuard K) (stream : List (Result K.BodyError (List ℕ)))
        → Announces size md5 g []
        → take_stream K f g stream ≡ some (ok tt, g')
        → Announces size md5 g' (contents stream)
    take_stream-Announces f g g' stream =
        take_stream-extends (Announces size md5)
          (write_data-extends K (Announces size md5) write-Announces) sync_data-Announces f g g' []
          stream
