-- ===== src/Rpc/Node.antt =====
-- The methods of `Client` as the interface that the rest of the program uses: what a method returns
-- where it does not exit the process.
use solana_exporter.Base.{
  Float64, Text, List, [], ◌∷◌, In, In-contains, text_eq, Map, none, some, ◌≡◌, ◌≢◌, refl, ℤ,
}
use solana_exporter.Exec.{Exec, returned, pure, ◌>>=◌}
use solana_exporter.Rpc.Types.{
  EpochInfo, VoteAccounts, BlockProduction, InflationReward, Block, Result, Commitment, finalized,
  confirmed, processed,
}
use solana_exporter.Rpc.Wire.{Http, Request, RpcClient}
use solana_exporter.Rpc.Questions.Reading.{
  reads_epoch_info, reads_vote_accounts, reads_block_production, reads_balance,
  reads_inflation_reward, reads_leader_schedule, reads_block,
}
use solana_exporter.Rpc.Questions.{
  Question, asks_epoch_info, asks_vote_accounts, asks_version, asks_identity, asks_block_production,
  asks_balance, asks_inflation_reward, asks_leader_schedule, asks_block, asks_health,
  asks_minimum_ledger_slot, asks_first_available_block, asks_genesis_hash, read_question,
}
use solana_exporter.Rpc.Transport.{Query, Sent, posted, request_of, call, ask_node, get_response}
use solana_exporter.Rpc.Decoding.{Unmarshal}
use solana_exporter.Rpc.Client.{Client}
use solana_exporter.Rpc.Queries.{
  epoch_info_query, vote_accounts_query, version_query, identity_query, block_production_query,
  balance_query, inflation_reward_query, leader_schedule_query, block_query, health_query,
  minimum_ledger_slot_query, first_available_block_query, genesis_hash_query,
}
use solana_exporter.Rpc.Methods
use solana_exporter.Rpc.Methods.{
  map_ok, sol_of, details_options, is_processed, firedancer_metrics_url, fetch_metrics,
}

abbrev answer_of : {W A B : Type 0} → (A → B) → Result A × W → Result B × W
answer_of f (answer, world) = (map_ok f answer, world)

module _ {W F : Type 0} (http : Http W) (unmarshal : Unmarshal) (float : Float64 F)
    (client : RpcClient) where
  -- The methods behind the interface.
  unfoldable pub node_client : Client W F
  node_client = record {
    get_epoch_info = λ commitment. call http client (epoch_info_query unmarshal commitment);
    get_vote_accounts = λ commitment. call http client (vote_accounts_query unmarshal commitment);
    get_version = call http client (version_query unmarshal);
    get_identity = call http client (identity_query unmarshal);
    get_block_production = λ commitment first last w.
        answer_of (λ result. result.value)
          (call http client (block_production_query unmarshal commitment first last) w);
    get_balance = λ commitment address w.
        answer_of (sol_of float) (call http client (balance_query unmarshal commitment address) w);
    get_inflation_reward = λ commitment addresses epoch.
        call http client (inflation_reward_query unmarshal commitment addresses epoch);
    get_leader_schedule =
        λ commitment slot. call http client (leader_schedule_query unmarshal commitment slot);
    get_block =
        λ commitment slot details. call http client (block_query unmarshal commitment slot details);
    get_health = call http client (health_query unmarshal);
    get_minimum_ledger_slot = call http client (minimum_ledger_slot_query unmarshal);
    get_first_available_block = call http client (first_available_block_query unmarshal);
    get_genesis_hash = call http client (genesis_hash_query unmarshal);
    get_firedancer_metrics = fetch_metrics http client;
  }

-- What is answered to a question.
abbrev pub AnswerTo : Type 0 → Question → Type 0
AnswerTo F (asks_epoch_info c) = EpochInfo
AnswerTo F (asks_vote_accounts c) = VoteAccounts
AnswerTo F asks_version = Text
AnswerTo F asks_identity = Text
AnswerTo F (asks_block_production c first last) = BlockProduction
AnswerTo F (asks_balance c address) = F
AnswerTo F (asks_inflation_reward c addresses epoch) = List InflationReward
AnswerTo F (asks_leader_schedule c slot) = Map Text (List ℤ)
AnswerTo F (asks_block c slot details) = Block
AnswerTo F asks_health = Text
AnswerTo F asks_minimum_ledger_slot = ℤ
AnswerTo F asks_first_available_block = ℤ
AnswerTo F asks_genesis_hash = Text

-- `GetBlock` exits the process at other details, and at the commitment `processed`.
abbrev pub IsAllowed : Question → Type 0
IsAllowed (asks_block c slot details) = In details details_options × (c ≢ processed)
IsAllowed _ = Unit

module _ {W F : Type 0} (http : Http W) (unmarshal : Unmarshal) (float : Float64 F)
    (client : RpcClient) where
  -- The method that asks a question.
  abbrev pub method_for : (q : Question) → Exec W Sent (Result (AnswerTo F q))
  method_for (asks_epoch_info c) = Methods.get_epoch_info http unmarshal client c
  method_for (asks_vote_accounts c) = Methods.get_vote_accounts http unmarshal client c
  method_for asks_version = Methods.get_version http unmarshal client
  method_for asks_identity = Methods.get_identity http unmarshal client
  method_for (asks_block_production c first last) =
      Methods.get_block_production http unmarshal client c first last
  method_for (asks_balance c address) = Methods.get_balance http unmarshal client float c address
  method_for (asks_inflation_reward c addresses epoch) =
      Methods.get_inflation_reward http unmarshal client c addresses epoch
  method_for (asks_leader_schedule c slot) =
      Methods.get_leader_schedule http unmarshal client c slot
  method_for (asks_block c slot details) = Methods.get_block http unmarshal client c slot details
  method_for asks_health = Methods.get_health http unmarshal client
  method_for asks_minimum_ledger_slot = Methods.get_minimum_ledger_slot http unmarshal client
  method_for asks_first_available_block = Methods.get_first_available_block http unmarshal client
  method_for asks_genesis_hash = Methods.get_genesis_hash http unmarshal client

-- The answer of the interface to a question.
module _ {W F : Type 0} (node : Client W F) where
  abbrev pub answer_for : (q : Question) → W → Result (AnswerTo F q) × W
  answer_for (asks_epoch_info c) = node.get_epoch_info c
  answer_for (asks_vote_accounts c) = node.get_vote_accounts c
  answer_for asks_version = node.get_version
  answer_for asks_identity = node.get_identity
  answer_for (asks_block_production c first last) = node.get_block_production c first last
  answer_for (asks_balance c address) = node.get_balance c address
  answer_for (asks_inflation_reward c addresses epoch) = node.get_inflation_reward c addresses epoch
  answer_for (asks_leader_schedule c slot) = node.get_leader_schedule c slot
  answer_for (asks_block c slot details) = node.get_block c slot details
  answer_for asks_health = node.get_health
  answer_for asks_minimum_ledger_slot = node.get_minimum_ledger_slot
  answer_for asks_first_available_block = node.get_first_available_block
  answer_for asks_genesis_hash = node.get_genesis_hash

module _ {W : Type 0} (http : Http W) (client : RpcClient) where
  -- In every world the method sends one request, which reads as the question, leaves the world that the
  -- node leaves at this request, and returns what the interface answers.
  abbrev pub Asks : {A : Type 0} → Question → Exec W Sent (Result A) → (W → Result A × W) → Type 0
  Asks question method f =
      (request : Request) × (read_question request ≡ some question)
      × ((world : W)
          → method world ≡ record {
            result = returned (f world).0;
            events = posted client.rpc_url request ∷ [];
            state = (http.post client.rpc_url client.http_timeout request world).1;
          })

module _ {W : Type 0} (http : Http W) (client : RpcClient)
    (accepted : http.new_request client.rpc_url ≡ none) where
  get_response-Asks :
      {A : Type 0} (question : Question) (query : Query A)
      → read_question (request_of query) ≡ some question
      → Asks http client question (get_response http client query) (call http client query)
  unfolding get_response ask_node call ◌>>=◌
  get_response-Asks question query reads = (request_of query, reads, λ world. rw accepted refl)

  mapped-Asks :
      {A B : Type 0} (f : A → B) (question : Question) (query : Query A)
      → read_question (request_of query) ≡ some question
      → Asks http client question
          (get_response http client query >>= λ answer. pure (map_ok f answer))
          (λ world. answer_of f (call http client query world))
  unfolding get_response ask_node call ◌>>=◌
  mapped-Asks f question query reads = (request_of query, reads, λ world. rw accepted refl)

module _ {W F : Type 0} (http : Http W) (unmarshal : Unmarshal) (float : Float64 F)
    (client : RpcClient) (accepted : http.new_request client.rpc_url ≡ none) where
  get_block-Asks :
      (c : Commitment) (slot : ℤ) (details : Text)
      → In details details_options
      → c ≢ processed
      → Asks http client
          (asks_block c slot details)
          (Methods.get_block http unmarshal client c slot details)
          (call http client (block_query unmarshal c slot details))
  unfolding Methods.get_block get_response ask_node call ◌>>=◌
  get_block-Asks finalized slot details known supported = (
    request_of (block_query unmarshal finalized slot details),
    reads_block unmarshal finalized slot details,
    λ world. rw (In-contains details_options details known, accepted) refl,
  )
  get_block-Asks confirmed slot details known supported = (
    request_of (block_query unmarshal confirmed slot details),
    reads_block unmarshal confirmed slot details,
    λ world. rw (In-contains details_options details known, accepted) refl,
  )
  get_block-Asks processed slot details known supported = absurd (supported refl)

  -- Where `http.NewRequest` accepts the client's URL: each method that asks the node for the program, at
  -- any arguments (`GetBlock` at the details "full" or "none" and not at the commitment `processed`),
  -- returns in every world without exiting the process, sends exactly one request, whose method and
  -- parameters read as the method's question by the names that the JSON-RPC interface gives them, and
  -- answers what the interface of the rest of the program answers.
  pub node_client-Asks :
      (q : Question)
      → IsAllowed q
      → Asks http client q
          (method_for http unmarshal float client q)
          (answer_for (node_client http unmarshal float client) q)
  unfolding node_client read_question Methods.get_epoch_info Methods.get_vote_accounts
      Methods.get_version Methods.get_identity Methods.get_block_production Methods.get_balance
      Methods.get_inflation_reward Methods.get_leader_schedule Methods.get_health
      Methods.get_minimum_ledger_slot Methods.get_first_available_block Methods.get_genesis_hash
  node_client-Asks (asks_epoch_info c) h =
      get_response-Asks http client accepted _ _ (reads_epoch_info unmarshal c)
  node_client-Asks (asks_vote_accounts c) h =
      get_response-Asks http client accepted _ _ (reads_vote_accounts unmarshal c)
  node_client-Asks asks_version h =
      get_response-Asks http client accepted _ (version_query unmarshal) refl
  node_client-Asks asks_identity h =
      get_response-Asks http client accepted _ (identity_query unmarshal) refl
  node_client-Asks (asks_block_production c first last) h =
      mapped-Asks http client accepted (λ result. result.value) _ _
        (reads_block_production unmarshal c first last)
  node_client-Asks (asks_balance c address) h =
      mapped-Asks http client accepted (sol_of float) _ _ (reads_balance unmarshal c address)
  node_client-Asks (asks_inflation_reward c addresses epoch) h =
      get_response-Asks http client accepted _ _
        (reads_inflation_reward unmarshal c addresses epoch)
  node_client-Asks (asks_leader_schedule c slot) h =
      get_response-Asks http client accepted _ _ (reads_leader_schedule unmarshal c slot)
  node_client-Asks (asks_block c slot details) h = get_block-Asks c slot details h.0 h.1
  node_client-Asks asks_health h =
      get_response-Asks http client accepted _ (health_query unmarshal) refl
  node_client-Asks asks_minimum_ledger_slot h =
      get_response-Asks http client accepted _ (minimum_ledger_slot_query unmarshal) refl
  node_client-Asks asks_first_available_block h =
      get_response-Asks http client accepted _ (first_available_block_query unmarshal) refl
  node_client-Asks asks_genesis_hash h =
      get_response-Asks http client accepted _ (genesis_hash_query unmarshal) refl
