-- ===== src/Server/Calls/Balance.antt =====
-- The gauge of the calls in flight.
use mathlib.Core.Path.{subst}
use yeet_yoink.Common.{
  ℕ, ◌∙◌, sym, ◌++◌, ◌%◌, ◌≡◌, refl, inl, inr, List, [], ◌∷◌, Result, ok, err, Option, none, some,
  total, total-append, total-set, total-ge_elem, get_elem?, set, bytes_eq, word, arith,
  if◌then◌else◌, Option-cases,
}
use yeet_yoink.Crates.{Poll, pending, ready}
use yeet_yoink.Metrics.Http.{Http, HttpMetrics, track, inc_in_flight, dec_in_flight}
use yeet_yoink.Server.Calls.{
  ResultState, none_state, started, failed, result, HttpCallMetricTracker, Calls, CallEvent, starts,
  polls, drops, add_call, poll_at, drop_at, handle_event, handle_all, path_base_of, Request,
  start_tracker, drop_tracker, poll_call,
}

module _ (H : Http) (path : List ℕ) where
  -- One for a call of this path that has not been dropped.
  abbrev pub in_flight : Option (HttpCallMetricTracker H) → ℕ
  in_flight none = 0
  in_flight (some t) = if bytes_eq path t.path_base then 1 else 0

  -- One for a tracker that has been counted down already.
  abbrev is_spent : ResultState → ℕ
  is_spent none_state = 1
  is_spent _ = 0

  abbrev spent : Option (HttpCallMetricTracker H) → ℕ
  spent none = 0
  spent (some t) = is_spent t.state

  abbrev IsBalanced : Calls H → Type 0
  IsBalanced c =
      (c.metrics.track_in_flight path ≡ total in_flight c.trackers % word)
      × (total spent c.trackers ≡ 0)

  poll-IsBalanced :
      {E : Type 0} (c : Calls H) (i : ℕ) (t : HttpCallMetricTracker H) (outcome : Poll (Result E ℕ))
      → get_elem? c.trackers i ≡ some (some t)
      → IsBalanced c
      → IsBalanced (record c { trackers = set c.trackers i (some (poll_call H t outcome)) })
  unfolding poll_call
  poll-IsBalanced c i t pending k (h, g) = (
    omega (arith, h, total-set in_flight c.trackers i (some t) k),
    omega (arith, g, total-set spent c.trackers i (some t) k),
  )
  poll-IsBalanced c i t (ready (ok status)) k (h, g) =
      let t' : HttpCallMetricTracker H = record t { state = result status } in
      (
        omega (arith, h, total-set in_flight c.trackers i (some t') k),
        omega (arith, g, total-set spent c.trackers i (some t') k),
      )
  poll-IsBalanced c i t (ready (err e)) k (h, g) =
      let t' : HttpCallMetricTracker H = record t { state = failed } in
      (
        omega (arith, h, total-set in_flight c.trackers i (some t') k),
        omega (arith, g, total-set spent c.trackers i (some t') k),
      )

  drop-track_in_flight :
      (t : HttpCallMetricTracker H) (now : ℕ) (m : HttpMetrics H)
      → is_spent t.state ≡ 0
      → (drop_tracker H t now m).1.track_in_flight path
        ≡ (dec_in_flight H t.path_base m).track_in_flight path
  unfolding drop_tracker dec_in_flight track
  drop-track_in_flight t now m h = ground arith

  drop-IsBalanced :
      (c : Calls H) (i now : ℕ) (t : HttpCallMetricTracker H)
      → get_elem? c.trackers i ≡ some (some t)
      → IsBalanced c
      → IsBalanced (record {
        trackers = set c.trackers i none;
        metrics = (drop_tracker H t now c.metrics).1;
      })
  unfolding dec_in_flight
  drop-IsBalanced c i now t k (h, g) = (
    drop-track_in_flight t now c.metrics (omega (arith, g, total-ge_elem spent c.trackers i k))
        ∙ ground (
          arith,
          h,
          total-set in_flight c.trackers i none k,
          total-ge_elem in_flight c.trackers i k,
        ),
    omega (arith, g, total-set spent c.trackers i none k),
  )

  start-IsBalanced :
      (c : Calls H) (request : Request H) (now : ℕ) (t : HttpCallMetricTracker H)
      (m : HttpMetrics H)
      → start_tracker H request now c.metrics ≡ some (t, m)
      → IsBalanced c
      → IsBalanced (record { trackers = c.trackers ++ some t ∷ []; metrics = m })
  unfolding start_tracker inc_in_flight
  start-IsBalanced c request now t m e (h, g) = elim (Option-cases (path_base_of request.path)) [
    | inl none_there ↦ absurd (ground arith)
    | inr (base, found) ↦
        let t' : HttpCallMetricTracker H = record {
          method = request.method;
          path_base = base;
          start = now;
          state = started;
        } in
        let same : ((t', inc_in_flight H base c.metrics)) ≡ (t, m) = ground arith in
        subst
          (λ (p : HttpCallMetricTracker H × HttpMetrics H).
            IsBalanced (record { trackers = c.trackers ++ some p.0 ∷ []; metrics = p.1 }))
          same
          (
            ground (arith, h, total-append in_flight c.trackers (some t' ∷ [])),
            omega (arith, g, total-append spent c.trackers (some t' ∷ [])),
          )
  ]

  event-IsBalanced :
      {E : Type 0} (c : Calls H) (e : CallEvent H E)
      → IsBalanced c
      → IsBalanced (handle_event H c e)
  unfolding handle_event
  event-IsBalanced c (starts request now) h =
      elim (Option-cases (start_tracker H request now c.metrics)) [
        | inl e ↦ subst (λ o. IsBalanced (add_call H c o)) (sym e) h
        | inr ((t, m), e) ↦
            subst (λ o. IsBalanced (add_call H c o)) (sym e)
              (start-IsBalanced c request now t m e h)
      ]
  event-IsBalanced c (polls i outcome) h = at (get_elem? c.trackers i) refl
    where
      at :
          (o : Option (Option (HttpCallMetricTracker H)))
          → get_elem? c.trackers i ≡ o
          → IsBalanced (poll_at H c i outcome o)
      at none e = h
      at (some none) e = h
      at (some (some t)) e = poll-IsBalanced c i t outcome e h
  event-IsBalanced c (drops i now) h = at (get_elem? c.trackers i) refl
    where
      at :
          (o : Option (Option (HttpCallMetricTracker H)))
          → get_elem? c.trackers i ≡ o
          → IsBalanced (drop_at H c i now o)
      at none e = h
      at (some none) e = h
      at (some (some t)) e = drop-IsBalanced c i now t e h

  all-IsBalanced :
      {E : Type 0} (c : Calls H) (es : List (CallEvent H E))
      → IsBalanced c
      → IsBalanced (handle_all H c es)
  unfolding handle_all
  all-IsBalanced c [] h = h
  all-IsBalanced c (e ∷ es) h = all-IsBalanced (handle_event H c e) es (event-IsBalanced c e h)

  -- Whatever calls are started, polled and dropped, in whatever order, the gauge of a path is the
  -- number of its calls in flight, up to the wrap-around of a 64-bit word, if it was zero before the
  -- first call.
  pub handle_all-in_flight :
      {E : Type 0} (m : HttpMetrics H) (es : List (CallEvent H E))
      → m.track_in_flight path ≡ 0
      → let c = handle_all H (record { trackers = []; metrics = m }) es in
        c.metrics.track_in_flight path ≡ total in_flight c.trackers % word
  handle_all-in_flight m es h =
      (all-IsBalanced (record { trackers = []; metrics = m }) es (h, refl)).0
