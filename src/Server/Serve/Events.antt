-- ===== src/Server/Serve/Events.antt =====
-- What each event does to the addresses, the servers and the exit code of bins/server/src/main.rs,
-- and what a run's events tell.
use yeet_yoink.Common.{
  ℕ, ◌+◌, ◌≡◌, ◌≢◌, inl, inr, Bool, true, false, Bool-cases, List, [], ◌∷◌, some, Option-cases,
  Result, ok, err, arith, length, length-append, remove_at, length-remove_at, List-cases,
}
use yeet_yoink.Server.Serve.{
  Hyper, HttpServer, Serving, bind_next, server_stopped, or_failure, ServeEvent, binds, stops,
  asked, interrupted, serve_event, serve_all, noperm,
}

module _ (N : Hyper) where
  -- Some address could not be bound.
  unfoldable pub any_refused : List (ServeEvent N) → Bool
  any_refused [] = false
  any_refused (binds (err e) ∷ es) = true
  any_refused (_ ∷ es) = any_refused es

  -- Some server stopped with an error.
  unfoldable pub any_failed : List (ServeEvent N) → Bool
  any_failed [] = false
  any_failed (stops i (err e) ∷ es) = true
  any_failed (_ ∷ es) = any_failed es

  unfoldable pub count_stops : List (ServeEvent N) → ℕ
  count_stops [] = 0
  count_stops (stops i r ∷ es) = 1 + count_stops es
  count_stops (_ ∷ es) = count_stops es

  pub serve_all-cons :
      (s s' : Serving N) (e : ServeEvent N) (es : List (ServeEvent N))
      → serve_all N s (e ∷ es) ≡ some s'
      → (c : Serving N) × (serve_event N s e ≡ some c) × (serve_all N c es ≡ some s')
  unfolding serve_all
  serve_all-cons s s' e es h = elim (Option-cases (serve_event N s e)) [
    | inl x ↦ absurd (ground arith)
    | inr (c, x) ↦ (c, x, ground arith)
  ]

  -- What one event does to the addresses, to the servers, and to the exit code.
  abbrev pub Counts : Serving N → Serving N → ServeEvent N → Type 0
  Counts s c (binds (ok _)) =
      (s.http_sockets ≢ [])
      × (length s.http_sockets + length s.servers ≡ length c.http_sockets + length c.servers)
      × (c.exit_code ≡ s.exit_code)
  Counts s c (binds (err _)) =
      (s.http_sockets ≢ []) × (c.http_sockets ≡ []) × (c.servers ≡ []) × (c.exit_code ≡ some noperm)
  Counts s c (stops i (ok _)) =
      (s.http_sockets ≡ [])
      × (c.http_sockets ≡ [])
      × (length s.servers ≡ 1 + length c.servers)
      × (c.exit_code ≡ s.exit_code)
  Counts s c (stops i (err _)) =
      (s.http_sockets ≡ [])
      × (c.http_sockets ≡ [])
      × (length s.servers ≡ 1 + length c.servers)
      × (c.exit_code ≡ or_failure N s.exit_code)
  Counts s c _ =
      (c.http_sockets ≡ s.http_sockets) × (c.servers ≡ s.servers) × (c.exit_code ≡ s.exit_code)

  bind_next-Counts :
      (s c : Serving N) (r : Result N.BindError (Unit {0}))
      → bind_next N s r ≡ some c
      → Counts s c (binds r)
  unfolding bind_next
  bind_next-Counts s c (ok _) h = elim (List-cases s.http_sockets) [
    | inl x ↦ absurd (ground arith)
    | inr (a, rest, x) ↦
        let server : HttpServer N = record { addr = a; shutdown_rx = N.subscribe s.shutdown_tx } in
        (ground arith, ground (arith, length-append s.servers (server ∷ [])), ground arith)
  ]
  bind_next-Counts s c (err _) h = elim (List-cases s.http_sockets) [
    | inl x ↦ absurd (ground arith)
    | inr (a, rest, x) ↦ (ground arith, ground arith, ground arith, ground arith)
  ]

  server_stopped-Counts :
      (s c : Serving N) (i : ℕ) (r : Result N.ServerError (Unit {0}))
      → server_stopped N s i r ≡ some c
      → Counts s c (stops i r)
  unfolding server_stopped
  server_stopped-Counts s c i r h = elim (List-cases s.http_sockets) [
    | inr (a, rest, x) ↦ absurd (ground arith)
    | inl x ↦ elim (Option-cases (remove_at s.servers i)) [
      | inl y ↦ absurd (ground arith)
      | inr ((server, rest), y) ↦ go r h x server rest y
    ]
  ]
    where
      go :
          (r : Result N.ServerError (Unit {0}))
          → server_stopped N s i r ≡ some c
          → s.http_sockets ≡ []
          → (server : HttpServer N) (rest : List (HttpServer N))
          → remove_at s.servers i ≡ some (server, rest)
          → Counts s c (stops i r)
      go (ok _) h x server rest y =
          elim (Bool-cases (N.received s.shutdown_tx server.shutdown_rx)) [
            | inr z ↦ absurd (ground arith)
            | inl z ↦
                (x, ground arith, ground (arith, length-remove_at s.servers i y), ground arith)
          ]
      go (err _) h x server rest y =
          (x, ground arith, ground (arith, length-remove_at s.servers i y), ground arith)

  pub serve_event-Counts :
      (s c : Serving N) (e : ServeEvent N) → serve_event N s e ≡ some c → Counts s c e
  unfolding serve_event
  serve_event-Counts s c (binds (ok x)) h = bind_next-Counts s c (ok x) h
  serve_event-Counts s c (binds (err x)) h = bind_next-Counts s c (err x) h
  serve_event-Counts s c (stops i (ok x)) h = server_stopped-Counts s c i (ok x) h
  serve_event-Counts s c (stops i (err x)) h = server_stopped-Counts s c i (err x) h
  serve_event-Counts s c asked h = (ground arith, ground arith, ground arith)
  serve_event-Counts s c interrupted h = (ground arith, ground arith, ground arith)
