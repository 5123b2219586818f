-- ===== src/Utils/Health/Verdict.antt =====
-- What the results of `ExtractHealthAndNumSlotsBehind` say of the answer to `getHealth`.
use solana_exporter.Base.{
  ℤ, pos, int_eqb, int_eqb_iff, Text, codes, text_eqb, text_eqb_iff, Map, true, false, Bool-cases,
  Option, none, some, Option-cases, ◌≡◌, ◌≢◌, refl, inl, inr,
}
use solana_exporter.Rpc.Types.{Result, ok, err, Error, RpcError, Json, wrap}
use solana_exporter.Rpc.Errors.{node_unhealthy_code, as_rpc_error, unpack_rpc_error_data}
use solana_exporter.Utils.Health.{
  Health, unknown_health, unhealthy, wrap_unpack_error, from_rpc_error, from_error,
  extract_health_and_num_slots_behind,
}

-- The call failed as a node does that is behind.
abbrev pub IsBehind : Option Error → Health → Type 0
IsBehind none h = ⊥
IsBehind (some e) h =
    (rpc_error : RpcError) × (as_rpc_error e ≡ some rpc_error)
    × (rpc_error.error_code ≡ node_unhealthy_code)
    × (h.num_slots_behind_err ≡ none
        → (fields : Map Text Json) × (rpc_error.error_data ≡ some fields)
          × (unpack_rpc_error_data fields ≡ ok h.num_slots_behind))

-- Healthy without an error; not healthy, for a reason that is known; or neither result is known.
abbrev pub IsVerdict : Text → Option Error → Health → Type 0
IsVerdict text e h =
    (h.is_healthy ≡ true
      → (text ≡ codes "ok")
        × (e ≡ none)
        × (h.is_healthy_err ≡ none)
        × (h.num_slots_behind_err ≡ none)
        × (h.num_slots_behind ≡ pos 0))
    × (h.is_healthy ≡ false → h.is_healthy_err ≡ none → (text ≢ codes "ok") × IsBehind e h)
    × (h.is_healthy_err ≢ none → h.num_slots_behind_err ≡ h.is_healthy_err)

unknown_health-IsVerdict :
    (text : Text) (e : Option Error) (why : Error) → IsVerdict text e (unknown_health why)
unknown_health-IsVerdict text e why = (λ h. cc, (λ h known. cc), λ h. refl)

unhealthy-IsVerdict :
    (text : Text) (e : Error) (rpc_error : RpcError) (fields : Map Text Json) (answer : Result ℤ)
    → text ≢ codes "ok"
    → as_rpc_error e ≡ some rpc_error
    → rpc_error.error_code ≡ node_unhealthy_code
    → rpc_error.error_data ≡ some fields
    → unpack_rpc_error_data fields ≡ answer
    → IsVerdict text (some e) (unhealthy (wrap_unpack_error answer))
unhealthy-IsVerdict text e rpc_error fields (ok n) other is_rpc code has unpacked = (
  (λ h. cc),
  (λ h known. (other, (rpc_error, is_rpc, code, λ no_err. (fields, has, unpacked)))),
  λ h. absurd (h refl),
)
unhealthy-IsVerdict text e rpc_error fields (err why) other is_rpc code has unpacked =
    ((λ h. cc), (λ h known. (other, (rpc_error, is_rpc, code, λ no_err. cc))), λ h. absurd (h refl))

from_rpc_error-IsVerdict :
    (text : Text) (e : Error) (rpc_error : RpcError)
    → text ≢ codes "ok"
    → as_rpc_error e ≡ some rpc_error
    → IsVerdict text (some e) (from_rpc_error e rpc_error)
unfolding from_rpc_error
from_rpc_error-IsVerdict text e rpc_error other is_rpc =
    elim (Bool-cases (int_eqb rpc_error.error_code node_unhealthy_code)) [
      | inl code ↦
          let same = (int_eqb_iff rpc_error.error_code node_unhealthy_code).0 code in
          elim (Option-cases rpc_error.error_data) [
            | inl empty ↦
                rw (code, empty)
                  (
                    (λ h. cc),
                    (λ h known. (other, (rpc_error, is_rpc, same, λ no_err. cc))),
                    λ h. absurd (h refl),
                  )
            | inr (fields, has) ↦
                rw (code, has)
                  (unhealthy-IsVerdict text e rpc_error fields (unpack_rpc_error_data fields) other
                    is_rpc same has refl)
          ]
      | inr unlike ↦ rw unlike (unknown_health-IsVerdict text (some e) _)
    ]

from_error_other :
    (e : Error)
    → as_rpc_error e ≡ none
    → from_error e ≡ unknown_health (wrap (codes "failed to call getHealth") e)
unfolding from_error
from_error_other e h = rw (from_error, h) refl

from_error-from_rpc_error :
    (e : Error) (rpc_error : RpcError)
    → as_rpc_error e ≡ some rpc_error
    → from_error e ≡ from_rpc_error e rpc_error
unfolding from_error
from_error-from_rpc_error e rpc_error h = rw (from_error, h) refl

from_error-IsVerdict :
    (text : Text) (e : Error) → text ≢ codes "ok" → IsVerdict text (some e) (from_error e)
from_error-IsVerdict text e other = elim (Option-cases (as_rpc_error e)) [
  | inl none_found ↦ rw (from_error_other e none_found) (unknown_health-IsVerdict text (some e) _)
  | inr (rpc_error, is_rpc) ↦
      rw (from_error-from_rpc_error e rpc_error is_rpc)
        (from_rpc_error-IsVerdict text e rpc_error other is_rpc)
]

not_ok : (text : Text) → text_eqb text (codes "ok") ≡ false → text ≢ codes "ok"
not_ok text h p = cc (h, (text_eqb_iff text (codes "ok")).1 p)

-- The node counts as healthy only if it answered "ok" without an error, and then it is 0 slots behind
-- and there is no error; it counts as not healthy, with no error about that, only if it did not answer
-- "ok" and the call failed with the RPC error code of an unhealthy node, and then a number of slots
-- without an error is the one of the RPC error's data; and wherever there is an error about the health,
-- the error about the slots is the same.
pub extract_health_and_num_slots_behind-IsVerdict :
    (text : Text) (e : Option Error) → IsVerdict text e (extract_health_and_num_slots_behind text e)
unfolding extract_health_and_num_slots_behind
extract_health_and_num_slots_behind-IsVerdict text none =
    elim (Bool-cases (text_eqb text (codes "ok"))) [
      | inl same ↦ rw same (
        (λ h. ((text_eqb_iff text (codes "ok")).0 same, refl, refl, refl, refl)),
        (λ h known. cc),
        λ h. absurd (h refl),
      )
      | inr other ↦ rw other (unknown_health-IsVerdict text none _)
    ]
extract_health_and_num_slots_behind-IsVerdict text (some e) =
    elim (Bool-cases (text_eqb text (codes "ok"))) [
      | inl same ↦ rw same (unknown_health-IsVerdict text (some e) _)
      | inr other ↦ rw other (from_error-IsVerdict text e (not_ok text other))
    ]
