-- ===== src/Slots/Mocked.antt =====
-- The blocks of the mock server, from its state to the metrics of the slot watcher.
use solana_exporter.Base.{ℤ, Text, codes, text_eq, int_eq, true, Option, none, some, [], ◌≡◌}
use solana_exporter.Rpc.Types.{ok, RpcError, Block}
use solana_exporter.Rpc.Errors.{slot_skipped_code}
use solana_exporter.Rpc.Wire.{Response}
use solana_exporter.Rpc.Decoding.{Unmarshal}
use solana_exporter.Rpc.Mock.Answers.{MockAnswer, block_answer, error_of, rewards_of}
use solana_exporter.Rpc.Mock.Serving.{no_error}

-- The block of a slot without its transactions.
abbrev pub bare_block : Text → ℤ → Block
bare_block leader fee = record { rewards = rewards_of true leader fee; transactions = [] }

abbrev pub slot_skipped : RpcError
slot_skipped = error_of slot_skipped_code (codes "Slot skipped.")

-- The client decodes these blocks and this error, which the server encodes.
pub record IsRead {A : Type 0} (encode : Response (Option (MockAnswer A)) → Text)
    (unmarshal : Unmarshal) : Type 0 where
  pub blocks :
      (leader : Text) (fee : ℤ)
      → unmarshal.block (
          encode
            (record { result = some (block_answer (bare_block leader fee)); error = no_error }))
        ≡ ok (record { result = bare_block leader fee; error = no_error })
  pub skipped :
      unmarshal.block (encode (record { result = none; error = slot_skipped }))
      ≡ ok (record { result = record { rewards = []; transactions = [] }; error = slot_skipped })
