-- ===== src/Server/Calls.antt =====
-- bins/server/src/services/metrics.rs: the middleware that counts the calls.
pub mod Paths
pub mod Balance
use yeet_yoink.Common.{
  ℕ, zero, suc, ◌-◌, ◌==◌, List, [], ◌∷◌, ◌++◌, Option, none, some, Result, ok, err, take, drop,
  get_elem?, set, if◌then◌else◌,
}
use yeet_yoink.Crates.{Poll, pending, ready}
use yeet_yoink.Metrics.Http.{Http, HttpMetrics, track, inc_in_flight, dec_in_flight}

-- `str::find` of `'/'`
abbrev pub slash : ℕ
slash = 47

unfoldable pub find_slash : List ℕ → Option ℕ
find_slash [] = none
find_slash (c ∷ cs) =
    let rest = find_slash cs in
    if c == slash then some 0 else elim rest [ none ↦ none | some pos ↦ some (suc pos) ]

-- The path that is counted; `none` is the panic of `path[1..]` on an empty path.
unfoldable pub path_base_of : List ℕ → Option (List ℕ)
unfolding find_slash
path_base_of [] = none
path_base_of (c ∷ cs) = elim (find_slash cs) [
  | none ↦ some (c ∷ cs)
  | some pos ↦ some (take (suc pos) (c ∷ cs))
]

-- `ResultState`. The version of a response is only logged.
pub data ResultState : Type 0 where
  none_state started failed : ResultState
  result : ℕ → ResultState

module _ (H : Http) where
  -- What the tracker reads of a request.
  pub record Request : Type 0 where
    pub method : H.Method
    pub path : List ℕ

  pub record HttpCallMetricTracker : Type 0 where
    pub method : H.Method
    pub path_base : List ℕ
    pub start : ℕ
    pub state : ResultState

  -- `HttpCallMetricTracker::start`
  unfoldable pub start_tracker :
      Request → ℕ → HttpMetrics H → Option (HttpCallMetricTracker × HttpMetrics H)
  unfolding path_base_of
  start_tracker request now m = elim (path_base_of request.path) [
    | none ↦ none
    | some path_base ↦ some (
      record { method = request.method; path_base = path_base; start = now; state = started },
      inc_in_flight H path_base m,
    )
  ]

  abbrev set_state : HttpCallMetricTracker → ResultState → HttpCallMetricTracker
  set_state t state = record t { state = state }

  -- An instant less an earlier one; zero if it is later.
  abbrev duration : HttpCallMetricTracker → ℕ → ℕ
  duration t now = now - t.start

  -- `Drop`
  unfoldable pub drop_tracker :
      HttpCallMetricTracker → ℕ → HttpMetrics H → HttpCallMetricTracker × HttpMetrics H
  drop_tracker t now m =
      let t' = set_state t none_state in
      elim t.state [
        | none_state ↦ (t', m)
        | started ↦ (t', dec_in_flight H t.path_base m)
        | failed ↦
            (t', dec_in_flight H t.path_base (track H t.path_base t.method 0 (duration t now) m))
        | result status ↦ (
          t',
          dec_in_flight H t.path_base (track H t.path_base t.method status (duration t now) m),
        )
      ]

  -- `HttpCallMetricsFuture::poll`, given what the inner future's poll gives: the status of a
  -- response, or the service's error.
  unfoldable pub poll_call :
      {E : Type 0} → HttpCallMetricTracker → Poll (Result E ℕ) → HttpCallMetricTracker
  poll_call t pending = t
  poll_call t (ready (ok status)) = set_state t (result status)
  poll_call t (ready (err e)) = set_state t failed

  -- The calls that were started so far, each with its tracker until it is dropped, and the counters.
  pub record Calls : Type 0 where
    pub trackers : List (Option HttpCallMetricTracker)
    pub metrics : HttpMetrics H

  -- Calls run concurrently: one is started, polled, or dropped, at any time and in any
  -- order. A call is dropped once, and not polled after that.
  pub data CallEvent (E : Type 0) : Type 0 where
    starts : Request → ℕ → CallEvent E
    polls : ℕ → Poll (Result E ℕ) → CallEvent E
    drops : ℕ → ℕ → CallEvent E

  abbrev pub add_call : Calls → Option (HttpCallMetricTracker × HttpMetrics H) → Calls
  add_call c none = c
  add_call c (some (t, m)) = record { trackers = c.trackers ++ some t ∷ []; metrics = m }

  abbrev pub poll_at :
      {E : Type 0} → Calls → ℕ → Poll (Result E ℕ) → Option (Option HttpCallMetricTracker) → Calls
  poll_at c i outcome (some (some t)) = record c {
    trackers = set c.trackers i (some (poll_call t outcome));
  }
  poll_at c i outcome _ = c

  abbrev pub drop_at : Calls → ℕ → ℕ → Option (Option HttpCallMetricTracker) → Calls
  drop_at c i now (some (some t)) = record {
    trackers = set c.trackers i none;
    metrics = (drop_tracker t now c.metrics).1;
  }
  drop_at c i now _ = c

  unfoldable pub handle_event : {E : Type 0} → Calls → CallEvent E → Calls
  handle_event c (starts request now) = add_call c (start_tracker request now c.metrics)
  handle_event c (polls i outcome) = poll_at c i outcome (get_elem? c.trackers i)
  handle_event c (drops i now) = drop_at c i now (get_elem? c.trackers i)

  unfoldable pub handle_all : {E : Type 0} → Calls → List (CallEvent E) → Calls
  unfolding handle_event
  handle_all c [] = c
  handle_all c (e ∷ es) = handle_all (handle_event c e) es
