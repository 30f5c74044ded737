-- ===== src/Server/Yeet/Outcome.antt =====
-- How a whole upload ends.
use mathlib.Core.Path.{subst}
use yeet_yoink.Common.{
  ℕ, ◌≡◌, ◌⊎◌, refl, inl, inr, true, none, List, [], ◌∷◌, some, Result, ok, err, arith, String,
  Result-cases, Option-cases,
}
use yeet_yoink.Crates.{Crates}
use yeet_yoink.Distribution.{WriteSummary}
use yeet_yoink.Backbone.Writer.{no_sync}
use yeet_yoink.Backbone.Guard.{FileWriterGuard, success, failed}
use yeet_yoink.Backbone.Guard
use yeet_yoink.Backbone.Guard.Signal.{IsUnfinished, finalize-sent}
use yeet_yoink.Backbone.Guard.Life.{
  calls, calls-IsUnfinished, Reaches, Reaches-trans, sync_data-Reaches, Ending, drops, finalizes,
  finish, summary_of,
}
use yeet_yoink.Server.Http.{Response}
use yeet_yoink.Server.Yeet.{YeetBody, Clocks, write_data, take_chunk, take_stream, store, created}
use yeet_yoink.Server.Yeet.Writes.{write_data-Reaches}

module _ (K : Crates) where
  take_chunk-Reaches :
      (f : ℕ) (g g' : FileWriterGuard K) (chunk : List ℕ) (r : Result String (Unit {0}))
      → take_chunk K f g chunk ≡ some (r, g')
      → Reaches K g g'
  unfolding take_chunk
  take_chunk-Reaches f g g' chunk r h = elim (Option-cases (write_data K f g chunk)) [
    | inl e ↦ absurd (ground arith)
    | inr ((err x, g1), e) ↦
        let same : g1 ≡ g' = ground arith in
        subst (Reaches K g) same (write_data-Reaches K f g g1 chunk (err x) e)
    | inr ((ok _, g1), e) ↦
        let v = write_data-Reaches K f g g1 chunk (ok _) e in
        elim (Option-cases (Guard.sync_data K g1)) [
          | inl s ↦ absurd (ground arith)
          | inr ((q, g2), s) ↦
              let same : g2 ≡ g' = ground arith in
              subst (Reaches K g) same (Reaches-trans K g g1 g2 v (sync_data-Reaches K g1 g2 s))
        ]
  ]

  -- Before its end an upload only writes to its guard and syncs it.
  pub take_stream-Reaches :
      (f : ℕ) (g g' : FileWriterGuard K) (stream : List (Result K.BodyError (List ℕ)))
      (r : Result String (Unit {0}))
      → take_stream K f g stream ≡ some (r, g')
      → Reaches K g g'
  unfolding take_stream calls
  take_stream-Reaches f g g' [] r h = ([], ground arith)
  take_stream-Reaches f g g' (err e ∷ stream) r h = ([], ground arith)
  take_stream-Reaches f g g' (ok chunk ∷ stream) r h =
      elim (Option-cases (take_chunk K f g chunk)) [
        | inl e ↦ absurd (ground arith)
        | inr ((err x, g1), e) ↦
            let same : g1 ≡ g' = ground arith in
            subst (Reaches K g) same (take_chunk-Reaches f g g1 chunk (err x) e)
        | inr ((ok _, g1), e) ↦
            Reaches-trans K g g1 g' (take_chunk-Reaches f g g1 chunk (ok _) e)
              (take_stream-Reaches f g1 g' stream r (ground arith))
      ]

  pub take_stream-IsUnfinished :
      (f : ℕ) (g g' : FileWriterGuard K) (stream : List (Result K.BodyError (List ℕ)))
      (r : Result String (Unit {0}))
      → IsUnfinished K g
      → take_stream K f g stream ≡ some (r, g')
      → IsUnfinished K g'
  take_stream-IsUnfinished f g g' stream r u h =
      let (cs, same) = take_stream-Reaches f g g' stream r h in
      subst (IsUnfinished K) same (calls-IsUnfinished K g cs u)

  -- The response fits what the backbone was told.
  abbrev pub Agrees : K.ShortGuid → Clocks K → Response (YeetBody K) → FileWriterGuard K → Type 0
  Agrees id clocks response g =
      ((s : WriteSummary) × (response ≡ created K id s clocks) × (g.sent ≡ success s ∷ []))
      ⊎ ((response.status ≡ 500) × (g.sent ≡ failed ∷ []))

  pub store-Agrees :
      ((tx : K.OneshotSender) → K.delivers tx ≡ true)
      → (f : ℕ) (id : K.ShortGuid) (g g' : FileWriterGuard K)
      → (stream : List (Result K.BodyError (List ℕ))) (clocks : Clocks K)
      → (response : Response (YeetBody K)) → IsUnfinished K g
      → store K f id g stream clocks ≡ some (response, g')
      → Agrees id clocks response g'
  unfolding store Guard.drop_guard
  store-Agrees alive f id g g' stream clocks response u h =
      elim (Option-cases (take_stream K f g stream)) [
        | inl e ↦ absurd (ground arith)
        | inr ((err x, g1), e) ↦
            let v = take_stream-IsUnfinished f g g1 stream (err x) u e in
            inr (ground arith, ground (arith, v))
        | inr ((ok _, g1), e) ↦
            let v = take_stream-IsUnfinished f g g1 stream (ok _) u e in
            let told = finalize-sent K alive g1 no_sync clocks.completed v in
            elim (Result-cases (Guard.finalize K g1 no_sync clocks.completed).0) [
              | inl (s, x) ↦ inl (s, ground arith, ground (arith, told))
              | inr (y, x) ↦ inr (ground arith, ground (arith, told))
            ]
      ]

  -- How `store` ends its guard: it drops it with an answer of 500, or finalizes it and answers by
  -- what that has returned.
  pub record Ends (id : K.ShortGuid) (clocks : Clocks K) (g g' : FileWriterGuard K)
      (response : Response (YeetBody K)) : Type 0 where
    pub before : FileWriterGuard K
    pub reached : Reaches K g before
    pub ending : Ending
    pub is_end : finish K before ending ≡ g'
    pub answer :
        ((summary_of K before ending ≡ none) × (response.status ≡ 500))
        ⊎ ((s : WriteSummary) × (summary_of K before ending ≡ some s)
            × (response ≡ created K id s clocks))

  pub store-Ends :
      (f : ℕ) (id : K.ShortGuid) (g g' : FileWriterGuard K)
      (stream : List (Result K.BodyError (List ℕ))) (clocks : Clocks K)
      (response : Response (YeetBody K))
      → store K f id g stream clocks ≡ some (response, g')
      → Ends id clocks g g' response
  unfolding store finish summary_of
  store-Ends f id g g' stream clocks response h = elim (Option-cases (take_stream K f g stream)) [
    | inl e ↦ absurd (ground arith)
    | inr ((err x, g1), e) ↦ record {
      before = g1;
      reached = take_stream-Reaches f g g1 stream (err x) e;
      ending = drops;
      is_end = ground arith;
      answer = inl (refl, ground arith);
    }
    | inr ((ok _, g1), e) ↦ record {
      before = g1;
      reached = take_stream-Reaches f g g1 stream (ok _) e;
      ending = finalizes no_sync clocks.completed;
      is_end = elim (Result-cases (Guard.finalize K g1 no_sync clocks.completed).0) [
        | inl (s, x) ↦ ground arith
        | inr (y, x) ↦ ground arith
      ];
      answer = elim (Result-cases (Guard.finalize K g1 no_sync clocks.completed).0) [
        | inl (s, x) ↦ inr (s, ground arith, ground arith)
        | inr (y, x) ↦ inl (ground arith, ground arith)
      ];
    }
  ]
