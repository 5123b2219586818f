-- ===== src/Tests/Remote.antt =====
-- The RPC client on a test server.
use solana_exporter.Base.{
  ℕ, suc, ℤ, pos, negsuc, text_eqb, text_eq, Text, codes, Map, none, List, [], ◌∷◌, ◌≡◌, refl,
  if◌then◌else◌, ◌↔◌,
}
use solana_exporter.Exec.{returned, stopped, exit, ◌>>=◌}
use solana_exporter.Rpc.Types.{Result, ok, err, errorf, rpc, RpcError, HostProduction, confirmed}
use solana_exporter.Rpc.Wire.{Response, body, Http, RpcClient}
use solana_exporter.Rpc.Decoding.{
  Unmarshal, unmarshal_hosts, host_unmarshal_json, unmarshal_block_production,
}
use solana_exporter.Rpc.Decoding.Hosts.{Decoded, unmarshal_hosts-Decoded}
use solana_exporter.Rpc.Transport.{
  call, get_response, ask_node, decode_reply, decode_body, check_error, request_of,
}
use solana_exporter.Rpc.Transport.Answers.{IsAnswer, call-IsAnswer}
use solana_exporter.Rpc.Queries.{health_query}
use solana_exporter.Rpc.Methods
use solana_exporter.Rpc.Node.{Asks, node_client, node_client-Asks}
use solana_exporter.Rpc.Questions.{asks_block_production}
use solana_exporter.Tests.{ints, node_key, accounts, epoch_info_at}

abbrev pub client : RpcClient
client = record {
  rpc_url = codes "http://localhost:8899";
  http_timeout = pos 60;
  firedancer_metrics_port = pos 7999;
}

-- The body of a reply is the name of the method; each request takes one unit of time.
abbrev http : Http ℕ
http = record {
  new_request = λ url. none;
  post = λ url timeout request t. (body request.method, suc t);
  get = λ url t. (err (errorf (codes "refused")), suc t);
}

abbrev pub healthy : {A : Type 0} → A → Response A
healthy a = record {
  result = a;
  error = record { method = []; error_code = pos 0; message = []; error_data = none };
}

abbrev behind : RpcError
behind = record {
  method = [];
  error_code = negsuc 32004;
  message = codes "Node is behind";
  error_data = none;
}

abbrev ints_of : Text → Result (List ℤ)
ints_of json =
    if text_eqb json (codes "[4, 3]")
    then ok (pos 4 ∷ pos 3 ∷ [])
    else err (errorf (codes "invalid character"))

abbrev pub unmarshal : Unmarshal
unmarshal = record {
  epoch_info = λ json. ok (healthy (epoch_info_at 0));
  vote_accounts = λ json. ok (healthy accounts);
  version = λ json. ok (healthy (codes "2.1.0"));
  identity = λ json. ok (healthy node_key);
  int = λ json. ok (healthy (pos 12));
  contextual_int = λ json. ok (healthy (record { value = pos 7 }));
  block_production = λ json. ok (healthy (record { value = (node_key, codes "[4, 3]") ∷ [] }));
  inflation_rewards = λ json. ok (healthy []);
  leader_schedule = λ json. ok (healthy ((node_key, pos 2 ∷ pos 5 ∷ []) ∷ []));
  block = λ json. ok (healthy (record { rewards = []; transactions = [] }));
  string = λ json. ok (record { result = []; error = behind });
  int_array = ints_of;
}

-- A node that is behind answers `getHealth` with an RPC error.
health_is_rpc_error :
    (Methods.get_health http unmarshal client 0).result
    ≡ returned (err (rpc (record behind { method = codes "getHealth" })))
unfolding Methods.get_health get_response ask_node call decode_reply decode_body check_error ◌>>=◌
health_is_rpc_error = refl

-- The details that the client does not know exit the process.
unknown_details :
    (Methods.get_block http unmarshal client confirmed (pos 12) (codes "some") 0).result
    ≡ stopped exit
unfolding Methods.get_block ◌>>=◌
unknown_details = refl

production_is_read :
    (Methods.get_block_production http unmarshal client confirmed (pos 10) (pos 12) 0).result
    ≡ returned (
        ok (record {
          by_identity = (node_key, record { leader_slots = pos 4; blocks_produced = pos 3 }) ∷ [];
        }))
unfolding Methods.get_block_production ◌>>=◌ get_response unmarshal_block_production unmarshal_hosts
    host_unmarshal_json
production_is_read = refl

call-IsAnswer_example :
    IsAnswer
      (health_query unmarshal)
      (http.post client.rpc_url client.http_timeout (request_of (health_query unmarshal)) 0).0
      (call http client (health_query unmarshal) 0).0
call-IsAnswer_example = call-IsAnswer http client (health_query unmarshal) 0

abbrev entries : Map Text Text
entries = (node_key, codes "[4, 3]") ∷ (codes "N2", codes "[4, 3]") ∷ []

abbrev host : HostProduction
host = record { leader_slots = pos 4; blocks_produced = pos 3 }

abbrev hosts : Map Text HostProduction
hosts = (node_key, host) ∷ (codes "N2", host) ∷ []

unmarshal_hosts-Decoded_example :
    (unmarshal_hosts ints_of entries ≡ ok hosts) ↔ Decoded ints_of entries hosts
unmarshal_hosts-Decoded_example = unmarshal_hosts-Decoded ints_of entries hosts

node_client-Asks_example :
    Asks http client
      (asks_block_production confirmed (pos 10) (pos 12))
      (Methods.get_block_production http unmarshal client confirmed (pos 10) (pos 12))
      ((node_client http unmarshal ints client).get_block_production confirmed (pos 10) (pos 12))
node_client-Asks_example =
    node_client-Asks http unmarshal ints client refl
      (asks_block_production confirmed (pos 10) (pos 12)) tt
