-- ===== src/Rpc/Errors.antt =====
-- pkg/rpc/errors.go and `errors.As`.
use solana_exporter.Base.{
  ℤ, pos, negsuc, [], ◌∷◌, Option, none, some, Text, codes, Map, to_lower, text_eqb, if◌then◌else◌,
}
use solana_exporter.Rpc.Types.{
  Json, null, number, RpcError, Error, rpc, errorf, wrap, Result, ok, err,
}

abbrev pub node_unhealthy_code : ℤ
node_unhealthy_code = negsuc 32004

abbrev pub block_cleaned_up_code : ℤ
block_cleaned_up_code = negsuc 32000

abbrev pub slot_skipped_code : ℤ
slot_skipped_code = negsuc 32006

-- `errors.As(err, &rpcError)`: the first `*rpc.Error` in the chain of wrapped errors.
unfoldable pub as_rpc_error : Error → Option RpcError
as_rpc_error (rpc e) = some e
as_rpc_error (errorf m) = none
as_rpc_error (wrap m e) = as_rpc_error e

-- `json.Unmarshal` of the error's data into `NodeUnhealthyErrorData`: each key that is the field's
-- name up to case sets it in turn, `null` leaves it, and a value that is no integer is an error.
unfoldable pub decode_num_slots_behind : Map Text Json → ℤ → Option ℤ
decode_num_slots_behind [] found = some found
decode_num_slots_behind ((key, number n) ∷ m) found =
    decode_num_slots_behind m
      (if text_eqb (to_lower key) (codes "numslotsbehind") then n else found)
decode_num_slots_behind ((key, null) ∷ m) found = decode_num_slots_behind m found
decode_num_slots_behind ((key, other) ∷ m) found =
    let rest = decode_num_slots_behind m found in
    if text_eqb (to_lower key) (codes "numslotsbehind") then none else rest

-- `UnpackRpcErrorData` into a fresh `NodeUnhealthyErrorData`; the value is `NumSlotsBehind`.
unfoldable pub unpack_rpc_error_data : Map Text Json → Result ℤ
unfolding decode_num_slots_behind
unpack_rpc_error_data fields = elim (decode_num_slots_behind fields (pos 0)) [
  | some n ↦ ok n
  | none ↦ err (errorf (codes "failed to unmarshal rpc-error data"))
]
