-- ===== src/Rpc/Mock/Serving.antt =====
-- `handleRPCRequest` of pkg/rpc/mock.go, and the mock server behind the HTTP library.
use solana_exporter.Base.{ℤ, pos, Text, codes, text_eqb, [], Option, none, some, if◌then◌else◌}
use solana_exporter.Rpc.Types.{Result, ok, err, errorf, RpcError}
use solana_exporter.Rpc.Wire.{Request, Response, Reply, not_sent, body, Http}
use solana_exporter.Rpc.Mock.{MockServer}
use solana_exporter.Rpc.Mock.Answers.{
  MockAnswer, Served, served, refused, panicked, error_of, get_result,
}

-- What the handler writes: a response, in which a result that is not set is `none`, or the text of an
-- HTTP error. A handler that panics writes nothing.
pub data Written (A : Type 0) : Type 0 where
  response : Response (Option (MockAnswer A)) → Written A
  http_error : Text → ℤ → Written A
  aborted : Written A

abbrev pub no_error : RpcError
no_error = error_of (pos 0) []

abbrev respond : {A : Type 0} → Served A → Written A
respond (served answer) = response (record { result = some answer; error = no_error })
respond (refused e) = response (record { result = none; error = e })
respond panicked = aborted

abbrev answer_request : {A : Type 0} → Result Request → MockServer A → Written A
answer_request (err e) s = http_error (codes "invalid request") (pos 400)
answer_request (ok request) s = respond (get_result s request.method request.params)

-- The request is what its body is decoded into.
unfoldable pub handle_rpc_request : {A : Type 0} → Text → Result Request → MockServer A → Written A
handle_rpc_request method request s =
    if text_eqb method (codes "POST")
    then answer_request request s
    else http_error (codes "Only POST method is allowed") (pos 405)

module _ {A : Type 0} (encode : Response (Option (MockAnswer A)) → Text) where
  -- The connection of a handler that panics is closed.
  abbrev reply_of : Written A → Reply
  reply_of (response r) = body (encode r)
  reply_of (http_error message status) = body message
  reply_of aborted = not_sent (errorf (codes "EOF"))

  -- A client of the mock server: its requests are decoded into what they were. `get` is what listens on
  -- the metrics port.
  unfoldable pub mock_http : (Text → MockServer A → Result ℤ × MockServer A) → Http (MockServer A)
  unfolding handle_rpc_request
  mock_http get = record {
    new_request = λ url. none;
    post =
        λ url timeout request s. (reply_of (handle_rpc_request (codes "POST") (ok request) s), s);
    get = get;
  }
