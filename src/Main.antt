-- ===== src/Main.antt =====
-- The program's start, cmd/solana-exporter/main.go.
pub mod Serving
use solana_exporter.Base.{ℤ, Text, codes, List, [], ◌∷◌, Option, none, some}
use solana_exporter.Exec.{Exec, returned, stop, exit, panic, emit, pure, ◌>>=◌, ◌>>◌}
use solana_exporter.Rpc.Types.{Result, ok, err}
use solana_exporter.Rpc.Client.{Client}
use solana_exporter.Config.{ExporterConfig}
use solana_exporter.Config.Cli.{Setting, new_exporter_config_from_cli}
use solana_exporter.Metrics.{Description, RegisterError, Registry}
use solana_exporter.Slots.Registering.{watcher_metrics, register, register_each}
use solana_exporter.Collector.Describing.{describe}

-- What the start does outside: the goroutine of the watcher, the handler and the server.
pub data Started : Type 0 where
  go_watch_slots : Started
  handle_metrics : Text → Started
  listen_and_serve : Text → Started

-- `prometheus.MustRegister` panics at an error.
unfoldable pub must_succeed : {S E : Type 0} → Option RegisterError → Exec S E (Unit {0})
must_succeed none = pure tt
must_succeed (some e) = stop panic

module _ {R : Type 0} (registry : Registry R) where
  -- `ListenAndServe` comes back with an error only, which ends the process.
  unfoldable pub serve : ExporterConfig → Exec R Started (Unit {0})
  serve config = do
    emit (handle_metrics (codes "/metrics"))
    emit (listen_and_serve config.listen_address)
    stop exit

  unfoldable pub start : Result ExporterConfig → Exec R Started (Unit {0})
  unfolding watcher_metrics register_each register must_succeed describe serve
  start (err e) = stop exit
  start (ok config) = do
    register_each registry watcher_metrics
    emit go_watch_slots
    e ← register registry describe
    must_succeed e
    serve config

  -- The exporter on a command line; `connect` makes the RPC client, `world` is outside.
  unfoldable pub main :
      {W F : Type 0} → (Text → ℤ → ℤ → Client W F) → List Setting → W → Exec R Started (Unit {0})
  unfolding start new_exporter_config_from_cli
  main connect settings world = start (new_exporter_config_from_cli connect settings world).0
