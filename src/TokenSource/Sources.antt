-- ===== src/TokenSource/Sources.antt =====
-- The token sources of src/token_source.cpp but the caching one. What runs on a thread of
-- `std::async` is a function; its result is that of the future.
use client_sdk_cpp.Prelude.{ℕ, ◌||◌, List, Option, none, some, String, if◌then◌else◌}
use client_sdk_cpp.TokenSource.{
  Bytes, TokenSourceResponse, TokenRequestOptions, TokenSourceResult, success, failure,
}
use client_sdk_cpp.TokenSource.Json.{
  Members, is_empty, Body, build_token_source_request_json, parse_token_source_response_json,
}
use Prim.Native.String.{◌++◌}

-- What the work of a source does: it returns, or throws a `std::exception` or something else.
pub data Work : Type 0 where
  returns : TokenSourceResult → Work
  throws : String → Work
  throws_unknown : Work

-- `runAsyncTokenSource`, on the thread that it starts.
abbrev pub run_async_token_source : String → Work → TokenSourceResult
run_async_token_source context (returns result) = result
run_async_token_source context (throws what) = failure (context ++ ": " ++ what)
run_async_token_source context throws_unknown = failure (context ++ ": unknown exception")

-- `provider_` stands for the call of the provider, if there is one.
pub record LiteralTokenSource : Type 0 where
  pub details : TokenSourceResponse
  pub provider : Option Work

abbrev pub literal : Bytes → Bytes → LiteralTokenSource
literal server_url participant_token = record {
  details = record {
    server_url = server_url;
    participant_token = participant_token;
    participant_name = none;
    room_name = none;
  };
  provider = none;
}

unfoldable pub literal_fetch : LiteralTokenSource → Work
literal_fetch source = elim source.provider [
  | some call ↦ call
  | none ↦ returns (
      if is_empty source.details.server_url || is_empty source.details.participant_token
      then failure "literal token source returned empty server_url or participant_token"
      else success source.details)
]

pub record TokenEndpointOptions : Type 0 where
  pub method : String
  pub headers : List (String × Bytes)
  pub timeout : ℕ

-- What the transport gives: the response's body, or an error.
pub data HttpResult : Type 0 where
  body : Bytes → HttpResult
  http_error : String → HttpResult

-- The transport, which takes the method, the URL, the headers, the request's body and the timeout.
abbrev pub HttpTransport : Type 0
HttpTransport = String → Bytes → List (String × Bytes) → Body → ℕ → HttpResult

pub record EndpointTokenSource : Type 0 where
  pub endpoint_url : Bytes
  pub options : TokenEndpointOptions
  pub transport : HttpTransport

unfoldable pub fetch_sync :
    (Bytes → Option Members) → EndpointTokenSource → TokenRequestOptions → TokenSourceResult
fetch_sync parse source options =
    let request_json = build_token_source_request_json options in
    let o = source.options in
    elim (source.transport o.method source.endpoint_url o.headers request_json o.timeout) [
      | http_error text ↦ failure ("token server request failed: " ++ text)
      | body text ↦ parse_token_source_response_json parse text
    ]

unfoldable pub endpoint_fetch :
    (Bytes → Option Members) → EndpointTokenSource → TokenRequestOptions → TokenSourceResult
endpoint_fetch parse source options =
    run_async_token_source "token source endpoint fetch failed"
      (returns (fetch_sync parse source options))
