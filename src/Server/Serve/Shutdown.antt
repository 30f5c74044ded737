-- ===== src/Server/Serve/Shutdown.antt =====
-- One shutdown, asked for or caused by a server that stopped, ends all servers of
-- bins/server/src/main.rs.
use yeet_yoink.Common.{
  List-cases, length, ℕ, zero, suc, ◌≡◌, ◌≢◌, refl, ◌∙◌, inl, inr, false, List, [], ◌∷◌, none, some,
  Option-cases, ok, arith, get_elem?, length-remove_at, remove_at-last, remove_at-some,
}
use yeet_yoink.Server.Serve.{
  Hyper, HttpServer, Serving, start_serving, bind_next, server_stopped, shut_down_others,
  ServeEvent, binds, stops, serve_event, serve_all, returned,
}
use yeet_yoink.Server.Serve.Events.{any_failed}
use yeet_yoink.Server.Serve.Subscribed.{
  IsBroadcast, Each, Received, stopped_parts, Sends-Each, serve_event-Each, serve_all-Each,
  bound-Sends, bound-Received,
}

module _ (N : Hyper) (B : IsBroadcast N) where
  -- Server `i` can stop gracefully.
  abbrev pub CanStop : Serving N → ℕ → Type 0
  CanStop s i = (c : Serving N) × (serve_event N s (stops i (ok tt)) ≡ some c)

  stop_gracefully :
      (s : Serving N) (i : ℕ) (server : HttpServer N)
      → s.http_sockets ≡ []
      → Each N B (Received N B) s
      → get_elem? s.servers i ≡ some server
      → (c : Serving N) × (serve_event N s (stops i (ok tt)) ≡ some c) × (c.exit_code ≡ s.exit_code)
  unfolding serve_event server_stopped
  stop_gracefully s i server x done k =
      let (rest, removed) = remove_at-some s.servers i k in
      (shut_down_others N s rest s.exit_code, ground (arith, x, removed, done i server k), refl)

  -- A server that was just bound cannot stop gracefully, whatever was sent before.
  binds-waits :
      (s c : Serving N)
      → serve_event N s (binds (ok tt)) ≡ some c
      → c.http_sockets ≡ []
      → ¬ CanStop c (length s.servers)
  unfolding serve_event bind_next server_stopped
  binds-waits s c h x (d, f) = elim (List-cases s.http_sockets) [
    | inl y ↦ ground arith
    | inr (a, rest, y) ↦
        let server : HttpServer N = record { addr = a; shutdown_rx = N.subscribe s.shutdown_tx } in
        ground (arith, y, x, B.received-subscribe s.shutdown_tx, remove_at-last s.servers server)
  ]

  stop-length :
      (s c : Serving N) (i n : ℕ)
      → serve_event N s (stops i (ok tt)) ≡ some c
      → length s.servers ≡ suc n
      → length c.servers ≡ n
  unfolding serve_event
  stop-length s c i n h l =
      let (_, _, _, (_, removed)) = stopped_parts N B s c i (ok tt) h in
      omega (arith, l, length-remove_at s.servers i removed)

  nothing_left : (s : Serving N) → s.http_sockets ≡ [] → s.servers ≡ [] → returned N s ≢ none
  unfolding returned
  nothing_left s x y n = elim (Option-cases s.exit_code) [
    | inl z ↦ ground arith
    | inr (code, z) ↦ ground arith
  ]

  -- The servers that are left stop one after the other.
  quit :
      (n : ℕ) (s : Serving N)
      → length s.servers ≡ n
      → s.http_sockets ≡ []
      → Each N B B.Subscribed s
      → Each N B (Received N B) s
      → (es : List (ServeEvent N)) × (c : Serving N) × (serve_all N s es ≡ some c)
        × (any_failed N es ≡ false)
        × (c.exit_code ≡ s.exit_code)
        × (returned N c ≢ none)
  unfolding serve_all any_failed returned
  quit zero s l x each done = elim (List-cases s.servers) [
    | inr (server, rest, y) ↦ absurd (ground arith)
    | inl y ↦ ([], s, refl, refl, refl, nothing_left s x y)
  ]
  quit (suc n) s l x each done = elim (List-cases s.servers) [
    | inl y ↦ absurd (ground arith)
    | inr (server, rest, y) ↦
        let first : get_elem? s.servers 0 ≡ some server = ground arith in
        let (c, f, same) = stop_gracefully s 0 server x done first in
        let (sends, x1) = bound-Sends N B s c (stops 0 (ok tt)) f x in
        let (es, d, g, fine, code, end) =
          quit n c (stop-length s c 0 n f l) x1 (serve_event-Each N B s c (stops 0 (ok tt)) f each)
            (Sends-Each N B (Received N B) s c (stops 0 (ok tt)) B.received-send sends f each) in
        (stops 0 (ok tt) ∷ es, d, ground (arith, f, g), fine, code ∙ same, end)
  ]

  -- If a receiver gets what is sent after it subscribed and nothing that was sent before: when the
  -- last address has been bound, its server cannot stop gracefully, whatever was sent so far. When
  -- then a server stops, with or without an error, or a shutdown is asked for, each server that is
  -- left can stop gracefully, then and later, and from there some run without an error makes
  -- serve_requests return with the exit code that it has by then.
  pub shutdown-Ends :
      (shutdown_tx : N.Sender) (http_sockets : List N.SocketAddr)
      (before after : List (ServeEvent N)) (e : ServeEvent N) (s0 s s1 s2 : Serving N)
      → serve_all N (start_serving N shutdown_tx http_sockets) before ≡ some s0
      → serve_event N s0 (binds (ok tt)) ≡ some s
      → s.http_sockets ≡ []
      → serve_event N s e ≡ some s1
      → serve_all N s1 after ≡ some s2
      → ¬ CanStop s (length s0.servers)
        × ((i : ℕ) (server : HttpServer N) → get_elem? s2.servers i ≡ some server → CanStop s2 i)
        × ((es : List (ServeEvent N)) × (c : Serving N) × (serve_all N s2 es ≡ some c)
            × (any_failed N es ≡ false)
            × (c.exit_code ≡ s2.exit_code)
            × (returned N c ≢ none))
  shutdown-Ends shutdown_tx http_sockets before after e s0 s s1 s2 h0 last x f g =
      let start : Serving N = start_serving N shutdown_tx http_sockets in
      let each0 = serve_all-Each N B start s0 before h0 (λ i server k. cc) in
      let each = serve_event-Each N B s0 s (binds (ok tt)) last each0 in
      let each1 = serve_event-Each N B s s1 e f each in
      let (sends, x1) = bound-Sends N B s s1 e f x in
      let (x2, done) =
        bound-Received N B s1 s2 after g x1 each1
          (Sends-Each N B (Received N B) s s1 e B.received-send sends f each) in
      (
        binds-waits s0 s last x,
        λ i server k. let (c, r, _) = stop_gracefully s2 i server x2 done k in (c, r),
        quit (length s2.servers) s2 refl x2 (serve_all-Each N B s1 s2 after g each1) done,
      )
