-- ===== src/Utils/Health.antt =====
-- `ExtractHealthAndNumSlotsBehind` of cmd/solana-exporter/utils.go. An error that is `nil` is `none`.
pub mod Verdict
use solana_exporter.Base.{
  ℤ, pos, Text, codes, text_eqb, int_eqb, Bool, true, false, Option, none, some, if◌then◌else◌,
}
use solana_exporter.Rpc.Types.{RpcError, Error, errorf, wrap, Result, ok, err}
use solana_exporter.Rpc.Errors.{node_unhealthy_code, as_rpc_error, unpack_rpc_error_data}

pub record Health : Type 0 where
  pub is_healthy : Bool
  pub is_healthy_err : Option Error
  pub num_slots_behind : ℤ
  pub num_slots_behind_err : Option Error

-- The same error for both values.
abbrev unknown_health : Error → Health
unknown_health e = record {
  is_healthy = false;
  is_healthy_err = some e;
  num_slots_behind = pos 0;
  num_slots_behind_err = some e;
}

abbrev unhealthy : Result ℤ → Health
unhealthy (ok n) = record {
  is_healthy = false;
  is_healthy_err = none;
  num_slots_behind = n;
  num_slots_behind_err = none;
}
unhealthy (err e) = record {
  is_healthy = false;
  is_healthy_err = none;
  num_slots_behind = pos 0;
  num_slots_behind_err = some e;
}

abbrev wrap_unpack_error : Result ℤ → Result ℤ
wrap_unpack_error (ok n) = ok n
wrap_unpack_error (err e) = err (wrap (codes "failed to unpack RPC error data") e)

-- An error of the call that is an RPC error.
from_rpc_error : Error → RpcError → Health
from_rpc_error e rpc_error =
    if int_eqb rpc_error.error_code node_unhealthy_code
    then elim rpc_error.error_data [
      | none ↦ unhealthy (err (wrap (codes "unhealthy node but cannot determine numSlotsBehind") e))
      | some fields ↦ unhealthy (wrap_unpack_error (unpack_rpc_error_data fields))
    ]
    else unknown_health (wrap (codes "failed to call getHealth") e)

from_error : Error → Health
unfolding from_rpc_error
from_error e = elim (as_rpc_error e) [
  | none ↦ unknown_health (wrap (codes "failed to call getHealth") e)
  | some rpc_error ↦ from_rpc_error e rpc_error
]

unfoldable pub extract_health_and_num_slots_behind : Text → Option Error → Health
unfolding from_error
extract_health_and_num_slots_behind health none =
    if text_eqb health (codes "ok")
    then record {
      is_healthy = true;
      is_healthy_err = none;
      num_slots_behind = pos 0;
      num_slots_behind_err = none;
    }
    else unknown_health (errorf (codes "health check did not return 'ok' but no error"))
extract_health_and_num_slots_behind health (some e) =
    if text_eqb health (codes "ok")
    then unknown_health (wrap (codes "health check returned 'ok' and error") e)
    else from_error e
