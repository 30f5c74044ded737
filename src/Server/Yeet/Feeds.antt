-- ===== src/Server/Yeet/Feeds.antt =====
-- What an upload whose stream was taken has handed to its guard.
use mathlib.Core.Path.{subst}
use mathlib.Core.List.{append-nil}
use yeet_yoink.Common.{
  ℕ, ◌≡◌, refl, sym, ap, ◌∙◌, inl, List, [], ◌∷◌, ◌++◌, some, Result, ok, arith, take,
}
use yeet_yoink.Crates.{Crates}
use yeet_yoink.Backbone.Guard.{FileWriterGuard}
use yeet_yoink.Backbone.Guard
use yeet_yoink.Backbone.Guard.Calls.{
  bytes_of, fed_by, fed_by-append, taken, taken_by, taken_by-append,
}
use yeet_yoink.Backbone.Guard.Life.{GuardCall, writes, syncs, calls, call, calls-append}
use yeet_yoink.Server.Yeet.{take_stream}
use yeet_yoink.Server.Yeet.Covers.{Covers, Covers-write}
use yeet_yoink.Server.Yeet.Streams.{contents, take_stream-extends}
use yeet_yoink.Server.Yeet.Writes.{write_data-extends}

module _ (K : Crates) where
  -- Calls that take the one guard to the other, of which the file takes these bytes.
  pub record Feeds (g g' : FileWriterGuard K) (bytes : List ℕ) : Type 0 where
    pub cs : List GuardCall
    pub reached : calls K g cs ≡ g'
    pub took : taken_by K g cs ≡ bytes
    pub covers : Covers bytes (fed_by cs)

  Feeds-call :
      (g h : FileWriterGuard K) (bytes more : List ℕ) (c : GuardCall) (f : Feeds g h bytes)
      → taken K h c ≡ more
      → Covers (bytes ++ more) (fed_by f.cs ++ bytes_of c)
      → Feeds g (call K h c) (bytes ++ more)
  unfolding calls
  Feeds-call g h bytes more c f took covers =
      let last : taken_by K (calls K g f.cs) (c ∷ []) ≡ more =
        append-nil (taken K (calls K g f.cs) c) ∙ ap (λ x. taken K x c) f.reached ∙ took in
      let fed : fed_by (f.cs ++ c ∷ []) ≡ fed_by f.cs ++ bytes_of c =
        fed_by-append f.cs (c ∷ []) ∙ ap (λ l. fed_by f.cs ++ l) (append-nil (bytes_of c)) in
      record {
        cs = f.cs ++ c ∷ [];
        reached = calls-append K g f.cs (c ∷ []) ∙ ap (λ x. call K x c) f.reached;
        took =
            taken_by-append K g f.cs (c ∷ [])
            ∙ ap (λ l. l ++ taken_by K (calls K g f.cs) (c ∷ [])) f.took
            ∙ ap (λ l. bytes ++ l) last;
        covers = subst (Covers (bytes ++ more)) (sym fed) covers;
      }

  sync_data-Feeds :
      (g h h' : FileWriterGuard K) (bytes : List ℕ)
      → Feeds g h bytes
      → Guard.sync_data K h ≡ some (ok tt, h')
      → Feeds g h' bytes
  unfolding call
  sync_data-Feeds g h h' bytes f e =
      let same : call K h syncs ≡ h' = ground (arith, e) in
      subst (λ x. Feeds g x bytes) same
        (subst (Feeds g (call K h syncs)) (append-nil bytes) (
          Feeds-call g h bytes [] syncs f refl
            (rw (append-nil bytes, append-nil (fed_by f.cs)) f.covers)))

  write-Feeds :
      (g h : FileWriterGuard K) (chunk bytes : List ℕ) (n : ℕ)
      → Feeds g h bytes
      → (Guard.write K h chunk).0 ≡ ok n
      → Feeds g (Guard.write K h chunk).1 (bytes ++ take n chunk)
  unfolding call
  write-Feeds g h chunk bytes n f e =
      Feeds-call g h bytes (take n chunk) (writes chunk) f (rw (taken, e) refl)
        (Covers-write bytes (fed_by f.cs) chunk n f.covers)

  -- A stream that was taken went to the guard in some calls, and its bytes to the file.
  pub take_stream-Feeds :
      (f : ℕ) (g g' : FileWriterGuard K) (stream : List (Result K.BodyError (List ℕ)))
      → take_stream K f g stream ≡ some (ok tt, g')
      → Feeds g g' (contents stream)
  unfolding calls
  take_stream-Feeds f g g' stream =
      take_stream-extends K (Feeds g) (write_data-extends K (Feeds g) (write-Feeds g))
        (sync_data-Feeds g) f g g' [] stream
        (record { cs = []; reached = refl; took = refl; covers = inl refl })
