-- ===== src/Server/Serve/Subscribed.antt =====
-- Which of the servers of bins/server/src/main.rs have subscribed to the shutdown, and which got it.
use mathlib.Core.Path.{subst}
use yeet_yoink.Common.{
  List-cases, ℕ, ◌≡◌, ap, sym, ◌∙◌, inl, inr, true, false, Bool-cases, List, [], ◌∷◌, ◌++◌, some,
  Option-cases, Result, ok, err, arith, get_elem?, get_elem?-snoc, remove_at, remove_at-elem,
}
use yeet_yoink.Server.Serve.{
  Hyper, HttpServer, Serving, bind_next, server_stopped, ServeEvent, binds, stops, asked,
  interrupted, serve_event, serve_all,
}
use yeet_yoink.Server.Serve.Events.{serve_all-cons}

-- A receiver gets what is sent after it subscribed, and nothing that was sent before.
pub record IsBroadcast (N : Hyper) : Type 1 where
  pub Subscribed : N.Sender → N.Receiver → Type 0
  pub subscribe-Subscribed : (tx : N.Sender) → Subscribed tx (N.subscribe tx)
  pub send-Subscribed :
      (tx : N.Sender) (rx : N.Receiver) → Subscribed tx rx → Subscribed (N.send tx) rx
  pub received-send :
      (tx : N.Sender) (rx : N.Receiver) → Subscribed tx rx → N.received (N.send tx) rx ≡ true
  pub received-subscribe : (tx : N.Sender) → N.received tx (N.subscribe tx) ≡ false

-- The events that send a shutdown.
abbrev pub Sends : {N : Hyper} → ServeEvent N → Type 0
Sends (binds r) = ⊥
Sends _ = Unit

module _ (N : Hyper) (B : IsBroadcast N) where
  -- A property of the channel and the receiver of every server.
  abbrev pub Each : (N.Sender → N.Receiver → Type 0) → Serving N → Type 0
  Each P s =
      (i : ℕ) (server : HttpServer N)
      → get_elem? s.servers i ≡ some server
      → P s.shutdown_tx server.shutdown_rx

  abbrev pub Received : N.Sender → N.Receiver → Type 0
  Received tx rx = N.received tx rx ≡ true

  -- What a stop leaves of the servers and of the channel.
  pub stopped_parts :
      (s c : Serving N) (i : ℕ) (r : Result N.ServerError (Unit {0}))
      → server_stopped N s i r ≡ some c
      → (s.http_sockets ≡ [])
        × (c.http_sockets ≡ [])
        × (c.shutdown_tx ≡ N.send s.shutdown_tx)
        × ((server : HttpServer N) × (remove_at s.servers i ≡ some (server, c.servers)))
  unfolding server_stopped
  stopped_parts s c i r h = elim (List-cases s.http_sockets) [
    | inr (a, rest, x) ↦ absurd (ground arith)
    | inl x ↦ elim (Option-cases (remove_at s.servers i)) [
      | inl y ↦ absurd (ground arith)
      | inr ((server, rest), y) ↦ go r h x server rest y
    ]
  ]
    where
      go :
          (r : Result N.ServerError (Unit {0}))
          → server_stopped N s i r ≡ some c
          → s.http_sockets ≡ []
          → (server : HttpServer N) (rest : List (HttpServer N))
          → remove_at s.servers i ≡ some (server, rest)
          → (s.http_sockets ≡ [])
            × (c.http_sockets ≡ [])
            × (c.shutdown_tx ≡ N.send s.shutdown_tx)
            × ((server : HttpServer N) × (remove_at s.servers i ≡ some (server, c.servers)))
      go (ok _) h x server rest y =
          elim (Bool-cases (N.received s.shutdown_tx server.shutdown_rx)) [
            | inr z ↦ absurd (ground arith)
            | inl z ↦ (x, ground arith, ground arith, (server, ground arith))
          ]
      go (err _) h x server rest y = (x, ground arith, ground arith, (server, ground arith))

  -- After an event that sends, each server left has `Q` where it had subscribed.
  pub Sends-Each :
      (Q : N.Sender → N.Receiver → Type 0) (s c : Serving N) (e : ServeEvent N)
      → ((tx : N.Sender) (rx : N.Receiver) → B.Subscribed tx rx → Q (N.send tx) rx)
      → Sends e
      → serve_event N s e ≡ some c
      → Each B.Subscribed s
      → Each Q c
  unfolding serve_event
  Sends-Each Q s c (binds r) pass sends h each i server k = elim sends [ ]
  Sends-Each Q s c (stops j r) pass sends h each i server k =
      let (_, _, tx, (gone, removed)) = stopped_parts s c j r h in
      let (k', old) = remove_at-elem s.servers j i removed k in
      subst (λ t. Q t server.shutdown_rx) (sym tx) (pass _ _ (each k' server old))
  Sends-Each Q s c asked pass sends h each i server k =
      let same : record s { shutdown_tx = N.send s.shutdown_tx } ≡ c = cc in
      subst (Each Q) same (λ i server k. pass _ _ (each i server k)) i server k
  Sends-Each Q s c interrupted pass sends h each i server k =
      let same : record s { shutdown_tx = N.send s.shutdown_tx } ≡ c = cc in
      subst (Each Q) same (λ i server k. pass _ _ (each i server k)) i server k

  binds-Each :
      (s c : Serving N) (r : Result N.BindError (Unit {0}))
      → bind_next N s r ≡ some c
      → Each B.Subscribed s
      → Each B.Subscribed c
  unfolding bind_next
  binds-Each s c r h each = elim (List-cases s.http_sockets) [
    | inl x ↦ absurd (ground arith)
    | inr (a, rest, x) ↦ go a rest x r h
  ]
    where
      go :
          (a : N.SocketAddr) (rest : List N.SocketAddr)
          → s.http_sockets ≡ a ∷ rest
          → (r : Result N.BindError (Unit {0})) → bind_next N s r ≡ some c
          → Each B.Subscribed c
      go a rest x (err _) h i server k = let none_left : c.servers ≡ [] = ground arith in cc
      go a rest x (ok _) h i server k =
          let new_one : HttpServer N = record {
            addr = a;
            shutdown_rx = N.subscribe s.shutdown_tx;
          } in
          let servers : c.servers ≡ s.servers ++ new_one ∷ [] = ground arith in
          let tx : c.shutdown_tx ≡ s.shutdown_tx = ground arith in
          subst (λ t. B.Subscribed t server.shutdown_rx) (sym tx)
            (elim (get_elem?-snoc s.servers i new_one (ap (λ l. get_elem? l i) (sym servers) ∙ k)) [
              | inl (_, same) ↦
                  subst (λ (v : HttpServer N). B.Subscribed s.shutdown_tx v.shutdown_rx) (sym same)
                    (B.subscribe-Subscribed s.shutdown_tx)
              | inr old ↦ each i server old
            ])

  pub serve_event-Each :
      (s c : Serving N) (e : ServeEvent N)
      → serve_event N s e ≡ some c
      → Each B.Subscribed s
      → Each B.Subscribed c
  unfolding serve_event
  serve_event-Each s c (binds r) h each = binds-Each s c r h each
  serve_event-Each s c (stops i r) h each =
      Sends-Each B.Subscribed s c (stops i r) B.send-Subscribed tt h each
  serve_event-Each s c asked h each = Sends-Each B.Subscribed s c asked B.send-Subscribed tt h each
  serve_event-Each s c interrupted h each =
      Sends-Each B.Subscribed s c interrupted B.send-Subscribed tt h each

  pub serve_all-Each :
      (s s' : Serving N) (es : List (ServeEvent N))
      → serve_all N s es ≡ some s'
      → Each B.Subscribed s
      → Each B.Subscribed s'
  unfolding serve_all
  serve_all-Each s s' [] h each = let same : s ≡ s' = cc in subst (Each B.Subscribed) same each
  serve_all-Each s s' (e ∷ es) h each =
      let (c, f, g) = serve_all-cons N s s' e es h in
      serve_all-Each c s' es g (serve_event-Each s c e f each)

  -- With all addresses bound, every event sends, and leaves them bound.
  pub bound-Sends :
      (s c : Serving N) (e : ServeEvent N)
      → serve_event N s e ≡ some c
      → s.http_sockets ≡ []
      → Sends e × (c.http_sockets ≡ [])
  unfolding serve_event bind_next
  bound-Sends s c (binds r) h x = absurd (ground arith)
  bound-Sends s c (stops i r) h x = let (_, y, _, _) = stopped_parts s c i r h in (tt, y)
  bound-Sends s c asked h x = (tt, ground arith)
  bound-Sends s c interrupted h x = (tt, ground arith)

  pub bound-Received :
      (s s' : Serving N) (es : List (ServeEvent N))
      → serve_all N s es ≡ some s'
      → s.http_sockets ≡ []
      → Each B.Subscribed s
      → Each Received s
      → (s'.http_sockets ≡ []) × Each Received s'
  unfolding serve_all
  bound-Received s s' [] h x each done =
      let same : s ≡ s' = cc in (ground arith, subst (Each Received) same done)
  bound-Received s s' (e ∷ es) h x each done =
      let (c, f, g) = serve_all-cons N s s' e es h in
      let (sends, y) = bound-Sends s c e f x in
      bound-Received c s' es g y (serve_event-Each s c e f each)
        (Sends-Each Received s c e B.received-send sends f each)
