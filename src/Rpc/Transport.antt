-- ===== src/Rpc/Transport.antt =====
-- `getResponse` of pkg/rpc/client.go.
pub mod Answers
use solana_exporter.Base.{
  ℤ, pos, int_eqb, Bool, true, false, List, [], ◌∷◌, ◌++◌, Text, codes, Option, none, some,
  if◌then◌else◌,
}
use solana_exporter.Exec.{Exec, returned, assertf, emit, ◌>>=◌, ◌>>◌}
use solana_exporter.Rpc.Types.{Result, ok, err, Error, rpc, wrap, RpcError}
use solana_exporter.Rpc.Wire.{
  Param, Request, Response, Reply, not_sent, not_read, body, Http, RpcClient,
}

-- A method's name and parameters, and `json.Unmarshal` of a body into its type of response.
pub record Query (A : Type 0) : Type 0 where
  pub method : Text
  pub params : List Param
  pub unmarshal : Text → Result (Response A)

-- What is sent to the node.
pub data Sent : Type 0 where
  posted : Text → Request → Sent
  got : Text → Sent

abbrev is_none : {A : Type 0} → Option A → Bool
is_none none = true
is_none (some a) = false

unfoldable pub check_error : {A : Type 0} → Text → Response A → Result A
check_error method response =
    if int_eqb response.error.error_code (pos 0)
    then ok response.result
    else err (rpc (record response.error { method = method }))

unfoldable pub decode_body : {A : Type 0} → Text → Result (Response A) → Result A
unfolding check_error
decode_body method (err e) =
    err (wrap (codes "failed to decode " ++ method ++ codes " response body") e)
decode_body method (ok response) = check_error method response

unfoldable pub decode_reply : {A : Type 0} → Query A → Reply → Result A
unfolding decode_body
decode_reply query (not_sent e) = err (wrap (query.method ++ codes " rpc call failed") e)
decode_reply query (not_read e) =
    err (wrap (codes "error processing " ++ query.method ++ codes " rpc call") e)
decode_reply query (body text) = decode_body query.method (query.unmarshal text)

abbrev pub request_of : {A : Type 0} → Query A → Request
request_of query = record { method = query.method; params = query.params }

module _ {W : Type 0} (http : Http W) (client : RpcClient) where
  -- From the call of `Do` on.
  unfoldable pub call : {A : Type 0} → Query A → W → Result A × W
  unfolding decode_reply
  call query world =
      let (reply, world') = http.post client.rpc_url client.http_timeout (request_of query) world in
      (decode_reply query reply, world')

  unfoldable pub ask_node : {A : Type 0} → Query A → Exec W Sent (Result A)
  unfolding call
  ask_node query world =
      let answer = call query world in
      record { result = returned answer.0; events = []; state = answer.1 }

  -- The parameters are always such that `json.Marshal` succeeds.
  unfoldable pub get_response : {A : Type 0} → Query A → Exec W Sent (Result A)
  unfolding ask_node
  get_response query = do
    assertf (is_none (http.new_request client.rpc_url))
    emit (posted client.rpc_url (request_of query))
    ask_node query
