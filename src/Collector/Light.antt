-- ===== src/Collector/Light.antt =====
-- A scrape in light mode: the metrics that are left.
use solana_exporter.Base.{All, All-map, true, false, ◌≡◌}
use solana_exporter.Collector.Desc.{GaugeDesc, Metric, Scrape, Env}
use solana_exporter.Collector.Collecting.{collect}
use solana_exporter.Collector.Sent.{is_own, desc_of, IsFitting, IsComplete-events}
use solana_exporter.Collector.Sent.Parts.{collect-IsComplete}

abbrev pub IsOwn : {F : Type 0} → Metric F → Type 0
IsOwn metric = is_own (desc_of metric) ≡ true

-- In light mode, whatever the node and the API answer: a scrape sends no metric of a validator or of the
-- cluster and no balance, but only metrics of the node itself and the version that the foundation
-- requires.
pub collect-IsOwn :
    {W F : Type 0} (env : Env W F)
    → env.config.light_mode ≡ true
    → (s : Scrape W) → All IsOwn (collect env s).events
collect-IsOwn env light s =
    let not_full = λ (full : env.config.light_mode ≡ false) (desc : GaugeDesc). absurd cc in
    let complete = collect-IsComplete env is_own (λ desc h. h) not_full in
    All-map (IsFitting is_own) IsOwn (λ metric p. p.0) _
      (IsComplete-events is_own (collect env) s complete).1
