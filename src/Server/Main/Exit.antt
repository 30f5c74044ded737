-- ===== src/Server/Main/Exit.antt =====
-- When the program ends well.
use yeet_yoink.Common.{
  ℕ, ◌≡◌, ◌≢◌, ◌↔◌, ◌⊎◌, refl, ap, sym, ◌∙◌, inl, inr, Bool-cases, false, List, [], ◌∷◌, none, some,
  Option-cases, Result, ok, err, Result-cases, arith, length, ◌==◌, ==_iff,
}
use yeet_yoink.Crates.{Crates}
use yeet_yoink.Config.{AppConfig}
use yeet_yoink.Config.Load.{ConfigFiles, load}
use yeet_yoink.Backend.{Backend}
use yeet_yoink.Backend.Memcache.{
  Memcached, MemcacheBackend, try_from_config, construction_error_text,
}
use yeet_yoink.Backbone.Accessor.{set_backbone}
use yeet_yoink.Server.Registry.{new_builder, add_backends, get_sender, new_registry}
use yeet_yoink.Server.Serve.{
  Hyper, Serving, ServeEvent, start_serving, serve_all, returned, serve_requests, exit_success,
  exit_failure,
}
use yeet_yoink.Server.Serve.Events.{any_refused, any_failed, count_stops}
use yeet_yoink.Server.Serve.Outcome.{verdict, serve_all-verdict}
use yeet_yoink.Server.Main.{
  exits, Environment, Started, signalled, start_backbone, start_up, unwrap_or_success, main,
}

module _ (K : Crates) (M : Memcached K) (C : ConfigFiles) (N : Hyper) where
  -- Everything is found, read and made, every address is bound, every server stops without an
  -- error, and nothing but `main` holds the backbone at the end.
  pub record Succeeds (env : Environment K M C N) : Type 0 where
    pub config_dir : C.PathBuf
    pub has_dir : env.config_local_dir ≡ some config_dir
    pub cfg : AppConfig
    pub loaded : load C env.files config_dir env.config_file ≡ ok cfg
    pub backends : List (Backend K (MemcacheBackend K M))
    pub created : try_from_config K M cfg ≡ ok backends
    pub last : Serving N
    pub served :
        serve_all N (start_serving N (signalled K M C N env.early_signals) env.bind_http) env.events
        ≡ some last
    pub has_returned : returned N last ≢ none
    pub none_refused : any_refused N env.events ≡ false
    pub none_failed : any_failed N env.events ≡ false
    pub all_stopped : count_stops N env.events ≡ length env.bind_http
    pub unshared : env.strong_count ≡ 1

  verdict-ok :
      (result : Result ℕ (Unit {0})) (es : List (ServeEvent N))
      → result ≡ verdict N es
      → (result ≡ ok tt) ⊎ (result ≡ err exit_success)
      → (any_refused N es ≡ false) × (any_failed N es ≡ false)
  unfolding verdict
  verdict-ok result es e h = elim (Bool-cases (any_refused N es)) [
    | inl x ↦ absurd (ground arith)
    | inr x ↦ elim (Bool-cases (any_failed N es)) [ inl y ↦ absurd (ground arith) | inr y ↦ (x, y) ]
  ]

  -- An ending with SUCCESS comes from a result that is ok, or from the code itself.
  ends_well :
      (result : Result ℕ (Unit {0}))
      → exits (unwrap_or_success K M C N result) ≡ exits exit_success
      → (result ≡ ok tt) ⊎ (result ≡ err exit_success)
  ends_well (ok _) h = inl refl
  ends_well (err code) h = inr (ground arith)

  module _ (env : Environment K M C N) where
    -- The registry that the builder makes has a sender, so the backbone starts.
    start_backbone-ok :
        (backends : List (Backend K (MemcacheBackend K M)))
        → (started : Started K M C N) × (start_backbone K M C N env
              (new_registry K (MemcacheBackend K M) backends)
            ≡ ok started)
          × (started.app_state.shutdown_tx ≡ signalled K M C N env.early_signals)
    unfolding start_backbone get_sender set_backbone
    start_backbone-ok backends = (_, refl, refl)

    -- The first backends that a builder is given are its backends.
    add_backends-new_builder :
        (backends : List (Backend K (MemcacheBackend K M)))
        → add_backends K
            (MemcacheBackend K M)
            (construction_error_text K M)
            (new_builder K (MemcacheBackend K M))
            (ok backends)
          ≡ ok (record { backends = backends })
    unfolding add_backends
    add_backends-new_builder [] = refl
    add_backends-new_builder (b ∷ backends) = refl

    start_up-ok :
        (config_dir : C.PathBuf) (cfg : AppConfig)
        (backends : List (Backend K (MemcacheBackend K M)))
        → env.config_local_dir ≡ some config_dir
        → load C env.files config_dir env.config_file ≡ ok cfg
        → try_from_config K M cfg ≡ ok backends
        → (started : Started K M C N) × (start_up K M C N env ≡ ok started)
          × (started.app_state.shutdown_tx ≡ signalled K M C N env.early_signals)
    unfolding start_up
    start_up-ok config_dir cfg backends x y z =
        let (started, begun, same) = start_backbone-ok backends in
        (started, ground (arith, x, y, z, add_backends-new_builder backends, begun), same)

    -- How the start ends: with the exit code FAILURE, or with the channel.
    start_up-cases :
        (start_up K M C N env ≡ err (exits exit_failure))
        ⊎ ((config_dir : C.PathBuf) × (cfg : AppConfig) × (backends : List
              (Backend K (MemcacheBackend K M)))
            × (started : Started K M C N) × (env.config_local_dir ≡ some config_dir)
            × (load C env.files config_dir env.config_file ≡ ok cfg)
            × (try_from_config K M cfg ≡ ok backends)
            × (start_up K M C N env ≡ ok started)
            × (started.app_state.shutdown_tx ≡ signalled K M C N env.early_signals))
    unfolding start_up add_backends
    start_up-cases = elim (Option-cases env.config_local_dir) [
      | inl x ↦ inl (ground (arith, x))
      | inr (config_dir, x) ↦ elim (Result-cases (load C env.files config_dir env.config_file)) [
        | inr (e, y) ↦ inl (ground (arith, x, y))
        | inl (cfg, y) ↦ elim (Result-cases (try_from_config K M cfg)) [
          | inr (e, z) ↦ inl (ground (arith, x, y, z))
          | inl (backends, z) ↦
              let (started, begun, same) = start_up-ok config_dir cfg backends x y z in
              inr (config_dir, cfg, backends, started, x, y, z, begun, same)
        ]
      ]
    ]

    -- The rest of `main`, once it has started.
    serve_requests-some :
        (tx : N.Sender) (result : Result ℕ (Unit {0}))
        → serve_requests N tx env.bind_http env.events ≡ some result
        → (last : Serving N) × (serve_all N (start_serving N tx env.bind_http) env.events
            ≡ some last)
          × (returned N last ≡ some result)
    unfolding serve_requests
    serve_requests-some tx result h =
        elim (Option-cases (serve_all N (start_serving N tx env.bind_http) env.events)) [
          | inl x ↦ absurd (ground arith)
          | inr (last, x) ↦ (last, x, ground arith)
        ]

    main-started :
        (started : Started K M C N)
        → start_up K M C N env ≡ ok started
        → main K M C N env ≡ exits exit_success
        → (result : Result ℕ (Unit {0})) × (serve_requests N started.app_state.shutdown_tx
              env.bind_http env.events
            ≡ some result)
          × (env.strong_count ≡ 1)
          × (result ≡ ok tt ⊎ (result ≡ err exit_success))
    unfolding main
    main-started started x h =
        elim (Option-cases
          (serve_requests N started.app_state.shutdown_tx env.bind_http env.events)) [
            | inl y ↦ absurd (ground arith)
            | inr (result, y) ↦ elim (Bool-cases (env.strong_count == 1)) [
              | inr z ↦ absurd (ground arith)
              | inl z ↦
                  (result, y, (==_iff env.strong_count 1).0 z, ends_well result (ground arith))
            ]
          ]

    main-Succeeds : main K M C N env ≡ exits exit_success → Succeeds env
    unfolding main
    main-Succeeds h = elim start_up-cases [
      | inl x ↦ absurd (ground arith)
      | inr (config_dir, cfg, backends, started, x, y, z, begun, same) ↦
          let (result, answer, one, fine) = main-started started begun h in
          let (last, run, gone) =
            serve_requests-some (signalled K M C N env.early_signals) result
              (ap (λ tx. serve_requests N tx env.bind_http env.events) (sym same) ∙ answer) in
          let (said, counted) =
            serve_all-verdict N _ env.bind_http env.events last result run gone in
          let (r, f) = verdict-ok result env.events said fine in
          record {
            config_dir = config_dir;
            has_dir = x;
            cfg = cfg;
            loaded = y;
            backends = backends;
            created = z;
            last = last;
            served = run;
            has_returned = λ n. cc;
            none_refused = r;
            none_failed = f;
            all_stopped = counted r;
            unshared = one;
          }
    ]

    Succeeds-main : Succeeds env → main K M C N env ≡ exits exit_success
    unfolding main serve_requests verdict
    Succeeds-main v =
        let (started, begun, same) =
          start_up-ok v.config_dir v.cfg v.backends v.has_dir v.loaded v.created in
        elim (Option-cases (returned N v.last)) [
          | inl x ↦ absurd (v.has_returned x)
          | inr (result, x) ↦
              let (said, _) =
                serve_all-verdict N _ env.bind_http env.events v.last result v.served x in
              let fine : result ≡ ok tt = ground (arith, said, v.none_refused, v.none_failed) in
              let answer : serve_requests N (signalled K M C N env.early_signals) env.bind_http
                    env.events
                  ≡ some (ok tt) =
                ground (arith, v.served, x, fine) in
              let answer' : serve_requests N started.app_state.shutdown_tx env.bind_http env.events
                  ≡ some (ok tt) =
                ap (λ tx. serve_requests N tx env.bind_http env.events) same ∙ answer in
              ground (arith, begun, answer', v.unshared)
        ]

  -- The program ends with the exit code SUCCESS exactly if there is a project directory, the
  -- configuration loads, its backends can be made, every address is bound, as many servers as there
  -- are addresses stop, none of them with an error, and no other reference to the backbone is left.
  pub main-success_iff :
      (env : Environment K M C N) → (main K M C N env ≡ exits exit_success) ↔ Succeeds env
  main-success_iff env = (main-Succeeds env, Succeeds-main env)
