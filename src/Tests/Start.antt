-- ===== src/Tests/Start.antt =====
-- The start of the exporter on a registry that is the list of its names, and light mode on the test node.
use solana_exporter.Base.{
  ℕ, ℤ, Text, codes, has_prefix, All, Bool, true, false, ◌&&◌, none, some, List, [], ◌∷◌, refl,
  if◌then◌else◌,
}
use solana_exporter.Config.{ExporterConfig}
use solana_exporter.Config.Cli.{new_exporter_config_from_cli}
use solana_exporter.Metrics.{
  Description, RegisterError, Registry, IsRegistry, are_valid, are_new, names, with_names,
}
use solana_exporter.Main.{main}
use solana_exporter.Main.Serving.{Starts, main-Starts}
use solana_exporter.Slots.State
use solana_exporter.Slots.Watching.{watch_slots}
use solana_exporter.Slots.Light.{IsLight, watch_slots-IsLight}
use solana_exporter.Collector.Desc
use solana_exporter.Collector.Collecting.{collect}
use solana_exporter.Collector.Light.{IsOwn, collect-IsOwn}
use solana_exporter.Tests.{ints, node, outside, config}
use solana_exporter.Tests.Cli.{connect, settings}
use solana_exporter.Tests.Watch.{watching}
use solana_exporter.Tests.Scrapes.{scrape}

abbrev refused : RegisterError
refused = record { as_already_registered = false; message = codes "not consistent" }

abbrev accepted : List Description → List Text → Bool
accepted ds r = are_valid ds && are_new r (names ds)

abbrev registry : Registry (List Text)
registry = record {
  register = λ ds r. if accepted ds r then (none, with_names (names ds) r) else (some refused, r);
}

registry-IsRegistry : IsRegistry registry
registry-IsRegistry = record {
  registered = λ r. r;
  registers = λ ds r valid new. rw (valid, new) (refl, refl);
}

-- The default registry has the collectors of Go and of the process.
abbrev fresh : List Text
fresh = codes "go_goroutines" ∷ codes "process_cpu_seconds_total" ∷ []

main-Starts_example :
    Starts registry registry-IsRegistry fresh
      (new_exporter_config_from_cli connect settings 0).0
      (main registry connect settings 0 fresh)
unfolding registry-IsRegistry has_prefix
main-Starts_example = main-Starts registry registry-IsRegistry connect settings 0 fresh refl

abbrev light_config : ExporterConfig
light_config = record config { light_mode = true }

abbrev light_env : State.Env ℕ ℤ
light_env = record { client = node; float = ints; config = light_config }

watch_slots-IsLight_example : All IsLight (watch_slots light_env 3 watching).events
watch_slots-IsLight_example = watch_slots-IsLight light_env refl 3 watching

abbrev light_scrape_env : Desc.Env ℕ ℤ
light_scrape_env = record { outside = outside; float = ints; config = light_config }

collect-IsOwn_example : All IsOwn (collect light_scrape_env scrape).events
collect-IsOwn_example = collect-IsOwn light_scrape_env refl scrape
