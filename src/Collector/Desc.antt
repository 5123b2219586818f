-- ===== src/Collector/Desc.antt =====
-- The descriptors of `SolanaCollector` with their labels, `GaugeDesc` of
-- cmd/solana-exporter/desc.go, and the state of a collection.
use solana_exporter.Base.{Float64, nat_eqb, length, Text, codes, Bool, List, [], ◌∷◌, Option}
use solana_exporter.Exec.{Exec, returned, emit, assertf, ◌>>◌}
use solana_exporter.Rpc.Types.{Error}
use solana_exporter.Config.{ExporterConfig}
use solana_exporter.Api.{Outside, Cache}
use solana_exporter.Api

pub data GaugeDesc : Type 0 where
  validator_active_stake cluster_active_stake validator_last_vote cluster_last_vote : GaugeDesc
  validator_root_slot cluster_root_slot validator_delinquent cluster_validator_count : GaugeDesc
  account_balances node_version node_is_healthy node_num_slots_behind : GaugeDesc
  node_minimum_ledger_slot node_first_available_block node_identity node_is_active : GaugeDesc
  foundation_min_required_version node_is_outdated node_needs_update : GaugeDesc

abbrev votekey_and_nodekey : List Text
votekey_and_nodekey = codes "votekey" ∷ codes "nodekey" ∷ []

-- The labels that `NewSolanaCollector` gives each descriptor.
unfoldable pub variable_labels : GaugeDesc → List Text
variable_labels validator_active_stake = votekey_and_nodekey
variable_labels cluster_active_stake = []
variable_labels validator_last_vote = votekey_and_nodekey
variable_labels cluster_last_vote = []
variable_labels validator_root_slot = votekey_and_nodekey
variable_labels cluster_root_slot = []
variable_labels validator_delinquent = votekey_and_nodekey
variable_labels cluster_validator_count = codes "state" ∷ []
variable_labels account_balances = codes "address" ∷ []
variable_labels node_version = codes "version" ∷ codes "is_firedancer" ∷ []
variable_labels node_is_healthy = []
variable_labels node_num_slots_behind = []
variable_labels node_minimum_ledger_slot = []
variable_labels node_first_available_block = []
variable_labels node_identity = codes "identity" ∷ []
variable_labels node_is_active = codes "identity" ∷ []
variable_labels foundation_min_required_version =
    codes "agave_min_version"
    ∷ codes "firedancer_min_version"
    ∷ codes "cluster"
    ∷ codes "epoch"
    ∷ []
variable_labels node_is_outdated =
    codes "is_firedancer"
    ∷ codes "version"
    ∷ codes "required_version"
    ∷ codes "cluster"
    ∷ codes "epoch"
    ∷ []
variable_labels node_needs_update =
    codes "is_firedancer"
    ∷ codes "version"
    ∷ codes "required_version"
    ∷ codes "cluster"
    ∷ codes "epoch"
    ∷ []

-- What is sent on the channel. The error of an invalid metric may be `nil`.
pub data Metric (F : Type 0) : Type 0 where
  const_metric : GaugeDesc → F → List Text → Metric F
  invalid_metric : GaugeDesc → Option Error → Metric F

pub record Scrape (W : Type 0) : Type 0 where
  pub is_firedancer : Bool
  pub cache : Cache
  pub world : W

pub record Env (W F : Type 0) : Type 0 where
  pub outside : Outside W F
  pub float : Float64 F
  pub config : ExporterConfig

abbrev pub Collect : Type 0 → Type 0 → Type 0 → Type 0
Collect W F A = Exec (Scrape W) (Metric F) A

module _ {W F : Type 0} where
  unfoldable pub ask : {A : Type 0} → (W → A × W) → Collect W F A
  ask call s =
      let answer = call s.world in
      record { result = returned answer.0; events = []; state = record s { world = answer.1 } }

  -- A call of the API client.
  unfoldable pub ask_api : {A : Type 0} → (Api.State W → A × Api.State W) → Collect W F A
  ask_api call s =
      let answer = call (record { cache = s.cache; world = s.world }) in
      record {
        result = returned answer.0;
        events = [];
        state = record s { cache = answer.1.cache; world = answer.1.world };
      }

  unfoldable pub set_is_firedancer : Bool → Collect W F (Unit {0})
  set_is_firedancer b s = record {
    result = returned tt;
    events = [];
    state = record s { is_firedancer = b };
  }

  -- The wrong number of labels ends the process. The library stops at a label value that is not valid
  -- UTF-8, which no string of character codes is.
  unfoldable pub must_new_const_metric : GaugeDesc → F → List Text → Collect W F (Unit {0})
  must_new_const_metric desc value labels = do
    assertf (nat_eqb (length labels) (length (variable_labels desc)))
    emit (const_metric desc value labels)

  unfoldable pub new_invalid_metric : GaugeDesc → Option Error → Collect W F (Unit {0})
  new_invalid_metric desc e = emit (invalid_metric desc e)
