-- ===== src/Rpc/Wire.antt =====
-- pkg/rpc/client.go and pkg/rpc/responses.go: what is sent to the node, and what comes back.
use solana_exporter.Base.{ℤ, Bool, List, Text, codes, Option}
use solana_exporter.Rpc.Types.{Result, Error, RpcError, Commitment, finalized, confirmed, processed}

-- A JSON value among the parameters of a request; an object is a list of its fields.
mutual
  pub data Param : Type 0 where
    text : Text → Param
    texts : List Text → Param
    number : ℤ → Param
    boolean : Bool → Param
    object : Fields → Param

  pub data Fields : Type 0 where
    end : Fields
    field : Text → Param → Fields → Fields

-- `Jsonrpc` and `Id` are the same in each request.
pub record Request : Type 0 where
  pub method : Text
  pub params : List Param

-- `Jsonrpc` and `Id` are never read. Where the node sends no error its code is 0.
pub record Response (A : Type 0) : Type 0 where
  pub result : A
  pub error : RpcError

-- How a POST request ends, and the body if it can be read.
pub data Reply : Type 0 where
  not_sent : Error → Reply
  not_read : Error → Reply
  body : Text → Reply

-- Of `Client` what the methods read.
pub record RpcClient : Type 0 where
  pub rpc_url : Text
  pub http_timeout : ℤ
  pub firedancer_metrics_port : ℤ

unfoldable pub new_rpc_client : Text → ℤ → ℤ → RpcClient
new_rpc_client rpc_addr http_timeout firedancer_metrics_port = record {
  rpc_url = rpc_addr;
  http_timeout = http_timeout;
  firedancer_metrics_port = firedancer_metrics_port;
}

abbrev pub commitment_text : Commitment → Text
commitment_text finalized = codes "finalized"
commitment_text confirmed = codes "confirmed"
commitment_text processed = codes "processed"

-- The HTTP library: `http.NewRequestWithContext` gives an error for some URLs, always the same; a
-- request is given the timeout, and a POST sends its request as JSON. A GET gives the status code.
pub record Http (W : Type 0) : Type 0 where
  pub new_request : Text → Option Error
  pub post : Text → ℤ → Request → W → Reply × W
  pub get : Text → W → Result ℤ × W
