-- ===== src/Server/Serve/Outcome.antt =====
-- What `serve_requests` of bins/server/src/main.rs returns, read off the events of its run.
use yeet_yoink.Common.{
  ℕ, ◌+◌, ◌≡◌, ◌⊎◌, refl, ◌∙◌, inl, inr, false, List, [], ◌∷◌, Option, none, some, Option-cases,
  Result, ok, err, arith, length, List-cases, if◌then◌else◌,
}
use yeet_yoink.Server.Serve.{
  Hyper, Serving, start_serving, or_failure, ServeEvent, binds, stops, asked, interrupted,
  serve_all, returned, exit_failure, noperm,
}
use yeet_yoink.Server.Serve.Events.{
  any_refused, any_failed, count_stops, serve_all-cons, Counts, serve_event-Counts,
}

module _ (N : Hyper) where
  unfoldable pub verdict : List (ServeEvent N) → Result ℕ (Unit {0})
  verdict es =
      if any_refused N es then err noperm else if any_failed N es then err exit_failure else ok tt

  -- Once nothing is left to bind, no address is refused.
  none_refused :
      (s s' : Serving N) (es : List (ServeEvent N))
      → serve_all N s es ≡ some s'
      → s.http_sockets ≡ []
      → any_refused N es ≡ false
  unfolding any_refused
  none_refused s s' [] h x = refl
  none_refused s s' (e ∷ es) h x =
      let (c, f, g) = serve_all-cons N s s' e es h in
      go c e (serve_event-Counts N s c e f) (none_refused c s' es g)
    where
      go :
          (c : Serving N) (e : ServeEvent N)
          → Counts N s c e
          → (c.http_sockets ≡ [] → any_refused N es ≡ false)
          → any_refused N (e ∷ es) ≡ false
      go c (binds (ok _)) (n, _, _) rest = absurd (n x)
      go c (binds (err _)) (n, _, _, _) rest = absurd (n x)
      go c (stops i (ok _)) (_, y, _, _) rest = rest y
      go c (stops i (err _)) (_, y, _, _) rest = rest y
      go c asked (y, _, _) rest = rest (y ∙ x)
      go c interrupted (y, _, _) rest = rest (y ∙ x)

  -- Once nothing is left to bind and no server is left, none fails.
  none_failed :
      (s s' : Serving N) (es : List (ServeEvent N))
      → serve_all N s es ≡ some s'
      → s.http_sockets ≡ []
      → s.servers ≡ []
      → any_failed N es ≡ false
  unfolding any_failed
  none_failed s s' [] h x y = refl
  none_failed s s' (e ∷ es) h x y =
      let (c, f, g) = serve_all-cons N s s' e es h in
      go c e (serve_event-Counts N s c e f) (none_failed c s' es g)
    where
      go :
          (c : Serving N) (e : ServeEvent N)
          → Counts N s c e
          → (c.http_sockets ≡ [] → c.servers ≡ [] → any_failed N es ≡ false)
          → any_failed N (e ∷ es) ≡ false
      go c (binds (ok _)) (n, _, _) rest = absurd (n x)
      go c (binds (err _)) (n, _, _, _) rest = absurd (n x)
      go c (stops i (ok _)) (_, _, n, _) rest = absurd (ground (arith, n, y))
      go c (stops i (err _)) (_, _, n, _) rest = absurd (ground (arith, n, y))
      go c asked (z, w, _) rest = rest (z ∙ x) (w ∙ y)
      go c interrupted (z, w, _) rest = rest (z ∙ x) (w ∙ y)

  or_failure_twice : (o : Option ℕ) → or_failure N (or_failure N o) ≡ or_failure N o
  or_failure_twice none = refl
  or_failure_twice (some code) = refl

  exit_codes :
      (s s' : Serving N) (es : List (ServeEvent N))
      → serve_all N s es ≡ some s'
      → s'.exit_code ≡ (
          if any_refused N es
          then some noperm
          else if any_failed N es
          then or_failure N s.exit_code
          else s.exit_code)
  unfolding serve_all any_refused any_failed
  exit_codes s s' [] h = ground arith
  exit_codes s s' (e ∷ es) h =
      let (c, f, g) = serve_all-cons N s s' e es h in
      go c e (serve_event-Counts N s c e f) (exit_codes c s' es g) (none_refused c s' es g)
        (none_failed c s' es g)
    where
      go :
          (c : Serving N) (e : ServeEvent N)
          → Counts N s c e
          → s'.exit_code ≡ (
              if any_refused N es
              then some noperm
              else if any_failed N es
              then or_failure N c.exit_code
              else c.exit_code)
          → (c.http_sockets ≡ [] → any_refused N es ≡ false)
          → (c.http_sockets ≡ [] → c.servers ≡ [] → any_failed N es ≡ false)
          → s'.exit_code ≡ (
              if any_refused N (e ∷ es)
              then some noperm
              else if any_failed N (e ∷ es)
              then or_failure N s.exit_code
              else s.exit_code)
      go c (binds (ok _)) (_, _, y) rest r f = ground (arith, rest, y)
      go c (binds (err _)) (_, x, z, y) rest r f = ground (arith, rest, r x, f x z, y)
      go c (stops i (ok _)) (_, x, _, y) rest r f = ground (arith, rest, y)
      go c (stops i (err _)) (_, x, _, y) rest r f =
          ground (arith, rest, r x, y, or_failure_twice s.exit_code)
      go c asked (_, _, y) rest r f = ground (arith, rest, y)
      go c interrupted (_, _, y) rest r f = ground (arith, rest, y)

  stop_counts :
      (s s' : Serving N) (es : List (ServeEvent N))
      → serve_all N s es ≡ some s'
      → any_refused N es ≡ false
      → length s.http_sockets + length s.servers
        ≡ length s'.http_sockets + length s'.servers + count_stops N es
  unfolding serve_all any_refused count_stops
  stop_counts s s' [] h n = ground arith
  stop_counts s s' (e ∷ es) h n =
      let (c, f, g) = serve_all-cons N s s' e es h in
      go c e n (serve_event-Counts N s c e f) (stop_counts c s' es g)
    where
      go :
          (c : Serving N) (e : ServeEvent N)
          → any_refused N (e ∷ es) ≡ false
          → Counts N s c e
          → (any_refused N es ≡ false
              → length c.http_sockets + length c.servers
                ≡ length s'.http_sockets + length s'.servers + count_stops N es)
          → length s.http_sockets + length s.servers
            ≡ length s'.http_sockets + length s'.servers + count_stops N (e ∷ es)
      go c (binds (ok _)) n (_, y, _) rest = y ∙ rest n
      go c (binds (err _)) n _ rest = cc
      go c (stops i (ok _)) n (x, y, z, _) rest = ground (arith, rest n, x, y, z)
      go c (stops i (err _)) n (x, y, z, _) rest = ground (arith, rest n, x, y, z)
      go c asked n (x, y, _) rest = ground (arith, rest n, x, y)
      go c interrupted n (x, y, _) rest = ground (arith, rest n, x, y)

  returned-cases :
      (s : Serving N) (r : Result ℕ (Unit {0}))
      → returned N s ≡ some r
      → (s.http_sockets ≡ [])
        × (s.servers ≡ [])
        × (((s.exit_code ≡ none) × (r ≡ ok tt))
            ⊎ ((code : ℕ) × (s.exit_code ≡ some code) × (r ≡ err code)))
  unfolding returned
  returned-cases s r h = elim (List-cases s.http_sockets) [
    | inr (a, rest, x) ↦ absurd (ground arith)
    | inl x ↦ elim (List-cases s.servers) [
      | inr (a, rest, y) ↦ absurd (ground arith)
      | inl y ↦ elim (Option-cases s.exit_code) [
        | inl z ↦ (x, y, inl (z, ground arith))
        | inr (code, z) ↦ (x, y, inr (code, z, ground arith))
      ]
    ]
  ]

  -- What serve_requests returns does not depend on the order in which the servers stop: it is the
  -- exit code NOPERM if an address could not be bound, otherwise FAILURE if a server stopped with
  -- an error, and otherwise success. Unless an address was refused, it returns only after as many
  -- servers have stopped as there are addresses.
  pub serve_all-verdict :
      (shutdown_tx : N.Sender) (http_sockets : List N.SocketAddr) (es : List (ServeEvent N))
      (s : Serving N) (r : Result ℕ (Unit {0}))
      → serve_all N (start_serving N shutdown_tx http_sockets) es ≡ some s
      → returned N s ≡ some r
      → (r ≡ verdict es) × (any_refused N es ≡ false → count_stops N es ≡ length http_sockets)
  unfolding verdict
  serve_all-verdict shutdown_tx http_sockets es s r h e =
      let start : Serving N = start_serving N shutdown_tx http_sockets in
      let (x, y, codes) = returned-cases s r e in
      (
        elim codes [
          | inl (z, w) ↦ ground (arith, exit_codes start s es h, z, w)
          | inr (code, z, w) ↦ ground (arith, exit_codes start s es h, z, w)
        ],
        λ n. ground (arith, stop_counts start s es h n, x, y),
      )
