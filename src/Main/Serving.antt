-- ===== src/Main/Serving.antt =====
-- The start on a registry that keeps to its documentation.
use solana_exporter.Base.{
  every, ℤ, Text, codes, has_prefix, not, true, List, [], ◌∷◌, ◌++◌, none, ap, sym, ◌∙◌, ◌≡◌, refl,
  arith,
}
use solana_exporter.Exec.{Ran, Exec, returned, stopped, exit, emit, proceed, ◌>>=◌, ◌>>◌}
use solana_exporter.Exec.Done.{done, bind-done}
use solana_exporter.Rpc.Types.{Result, ok, err}
use solana_exporter.Rpc.Client.{Client}
use solana_exporter.Config.{ExporterConfig}
use solana_exporter.Config.Cli.{Setting, new_exporter_config_from_cli}
use solana_exporter.Metrics.{
  Description, Registry, IsRegistry, are_valid, are_new, names, with_names,
}
use solana_exporter.Metrics.New.{are_new-prefix, are_new-append}
use solana_exporter.Slots.Registering.{
  gauge_name, counter_name, block_size_name, watcher_metrics, after_register, register,
  register_each,
}
use solana_exporter.Collector.Desc.{variable_labels}
use solana_exporter.Collector.Describing.{desc_name, new_gauge_desc, describe}
use solana_exporter.Main.{
  Started, go_watch_slots, handle_metrics, listen_and_serve, must_succeed, serve, start, main,
}

abbrev prefix : Text
prefix = codes "solana_"

-- The names of the exporter's metrics.
abbrev pub metric_names : List Text
metric_names = names watcher_metrics ++ names describe

metrics_are_valid : (are_valid watcher_metrics ≡ true) × (are_valid describe ≡ true)
unfolding watcher_metrics gauge_name counter_name block_size_name describe new_gauge_desc desc_name
    variable_labels has_prefix
metrics_are_valid = (refl, refl)

names_stand_once : are_new [] metric_names ≡ true
unfolding watcher_metrics gauge_name counter_name block_size_name describe new_gauge_desc desc_name
    variable_labels has_prefix
names_stand_once = refl

names_have_prefix : every (λ n. has_prefix n prefix) metric_names ≡ true
unfolding watcher_metrics gauge_name counter_name block_size_name describe new_gauge_desc desc_name
    variable_labels has_prefix
names_have_prefix = refl

module _ {R : Type 0} (registry : Registry R) (sound : IsRegistry registry) where
  -- A registration that succeeds: the registry after it.
  abbrev Registered : {A : Type 0} → Exec R Started A → A → List Text → R → Type 0
  Registered m a ns r =
      (t : R) × (m r ≡ done a [] t) × (sound.registered t ≡ with_names ns (sound.registered r))

  register-Registered :
      (ds : List Description) (r : R)
      → are_valid ds ≡ true
      → are_new (sound.registered r) (names ds) ≡ true
      → Registered (register registry ds) none (names ds) r
  unfolding register
  register-Registered ds r valid new =
      let (accepted, there) = sound.registers ds r valid new in
      ((registry.register ds r).1, ap (λ e. done e [] (registry.register ds r).1) accepted, there)

  register_each-Registered :
      (ds : List Description) (r : R)
      → are_valid ds ≡ true
      → are_new (sound.registered r) (names ds) ≡ true
      → Registered (register_each registry ds) tt (names ds) r
  unfolding register_each after_register ◌>>=◌
  register_each-Registered [] r valid new = (r, refl, refl)
  register_each-Registered (d ∷ ds) r valid new =
      let first_valid : are_valid (d ∷ []) ≡ true = ground arith in
      let first_new : are_new (sound.registered r) (d.name ∷ []) ≡ true = ground arith in
      let (t, ran, there) = register-Registered (d ∷ []) r first_valid first_new in
      let rest_new : are_new (sound.registered t) (names ds) ≡ true = rw there (ground arith) in
      let (u, then_ran, then_there) = register_each-Registered ds t (ground arith) rest_new in
      (
        u,
        bind-done (register registry (d ∷ [])) (λ e. after_register e >> register_each registry ds)
              r t none [] ran
            ∙ then_ran,
        then_there ∙ ap (with_names (names ds)) there,
      )

with_names-append :
    (ns more old : List Text) → with_names (ns ++ more) old ≡ with_names more (with_names ns old)
with_names-append [] more old = refl
with_names-append (n ∷ ns) more old = with_names-append ns more (n ∷ old)

module _ {R : Type 0} (registry : Registry R) (sound : IsRegistry registry) where
  -- None of the names that are registered begins like those of the exporter.
  abbrev pub IsFresh : R → Type 0
  IsFresh r = every (λ n. not (has_prefix n prefix)) (sound.registered r) ≡ true

  -- What a start does with its configuration.
  abbrev pub Starts : R → Result ExporterConfig → Ran R Started (Unit {0}) → Type 0
  Starts r (err e) ran = ran ≡ record { result = stopped exit; events = []; state = r }
  Starts r (ok config) ran =
      (ran.result ≡ stopped exit)
      × (ran.events
          ≡ go_watch_slots
            ∷ handle_metrics (codes "/metrics")
            ∷ listen_and_serve config.listen_address
            ∷ [])
      × (sound.registered ran.state ≡ with_names metric_names (sound.registered r))

  abbrev announce : ExporterConfig → Exec R Started (Unit {0})
  announce config = register registry describe >>= λ e. must_succeed e >> serve registry config

  abbrev served : ExporterConfig → R → Ran R Started (Unit {0})
  served config u = record {
    result = stopped exit;
    events =
        go_watch_slots
        ∷ handle_metrics (codes "/metrics")
        ∷ listen_and_serve config.listen_address
        ∷ [];
    state = u;
  }

  served-Starts :
      (config : ExporterConfig) (r u : R) (ran : Ran R Started (Unit {0}))
      → ran ≡ served config u
      → sound.registered u ≡ with_names metric_names (sound.registered r)
      → Starts r (ok config) ran
  served-Starts config r u ran e h =
      (ap (λ x. x.result) e, ap (λ x. x.events) e, ap (λ x. sound.registered x.state) e ∙ h)

  start-Starts :
      (r : R) (config : Result ExporterConfig)
      → IsFresh r
      → Starts r config (start registry config r)
  unfolding start must_succeed serve ◌>>=◌
  start-Starts r (err e) fresh = refl
  start-Starts r (ok config) fresh =
      let new =
        are_new-prefix prefix (sound.registered r) metric_names fresh names_have_prefix
          names_stand_once in
      let (watcher_new, collector_new) =
        are_new-append (sound.registered r) (names watcher_metrics) (names describe) new in
      let (t, ran, there) =
        register_each-Registered registry sound watcher_metrics r metrics_are_valid.0 watcher_new in
      let (u, then_ran, then_there) =
        register-Registered registry sound describe t metrics_are_valid.1
          (rw there collector_new) in
      let whole : start registry (ok config) r ≡ served config u =
        bind-done (register_each registry watcher_metrics)
          (λ _. emit go_watch_slots >> announce config) r t tt [] ran
        ∙ ap (λ x. proceed (returned tt) (go_watch_slots ∷ []) t (λ _ _. x))
            (bind-done (register registry describe) (λ e. must_succeed e >> serve registry config) t
              u none [] then_ran) in
      served-Starts config r u (start registry (ok config) r) whole (
        then_there
        ∙ ap (with_names (names describe)) there
        ∙ sym (with_names-append (names watcher_metrics) (names describe) (sound.registered r)))

  -- On a registry that keeps to its documentation and holds no name that begins with `solana_`, on every
  -- command line and whatever the node answers meanwhile: if the configuration is an error, the process
  -- exits and has started nothing; else no registration fails, the names of the slot watcher and of the
  -- collector are registered, the watcher's goroutine is started, and then the handler and the server on
  -- the configured address, whose return ends the process.
  pub main-Starts :
      {W F : Type 0} (connect : Text → ℤ → ℤ → Client W F) (settings : List Setting) (world : W)
      (r : R)
      → IsFresh r
      → Starts r
          (new_exporter_config_from_cli connect settings world).0
          (main registry connect settings world r)
  unfolding main
  main-Starts connect settings world r fresh =
      start-Starts r (new_exporter_config_from_cli connect settings world).0 fresh
