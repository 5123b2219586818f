-- ===== src/Collector/Labels.antt =====
-- The end of a scrape, and the labels of what it sends.
use solana_exporter.Base.{All, All-map, true, ◌≡◌, refl}
use solana_exporter.Exec.{returned}
use solana_exporter.Collector.Desc.{GaugeDesc, Scrape, Env}
use solana_exporter.Collector.Collecting.{collect}
use solana_exporter.Collector.Sent.{IsLabelled, IsFitting, IsComplete-events}
use solana_exporter.Collector.Sent.Parts.{collect-IsComplete}

-- A scrape returns, whatever the node and the API answer and in every state: no assertion about labels
-- ends the process, and every constant metric that it sends has one value for each label of its
-- descriptor.
pub collect-IsLabelled :
    {W F : Type 0} (env : Env W F) (s : Scrape W)
    → let r = collect env s in ((a : Unit {0}) × (r.result ≡ returned a)) × All IsLabelled r.events
collect-IsLabelled env s =
    let every_desc = λ (desc : GaugeDesc). true in
    let complete = collect-IsComplete env every_desc (λ desc h. refl) (λ full desc. refl) in
    let (returns, fitting) = IsComplete-events every_desc (collect env) s complete in
    (returns, All-map (IsFitting every_desc) IsLabelled (λ metric p. p.1) _ fitting)
