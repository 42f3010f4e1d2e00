-- ===== src/LocalParticipant.antt =====
-- Remote procedure calls: the errors of src/rpc_error.cpp, and the receiving side of
-- src/local_participant.cpp. An invocation runs on the native library's thread, and the room's
-- shutdown on another one: their parts between two uses of the mutex are steps. A response that the
-- native library refuses with an exception is not modelled.
pub mod Answers
pub mod Commands
pub mod Publications
pub mod Quiet
use client_sdk_cpp.Prelude.{
  ℕ, ◌+◌, ◌-◌, Bool, true, false, not, List, [], ◌∷◌, ◌++◌, Option, none, some, String,
  if◌then◌else◌,
}
use client_sdk_cpp.Prelude.Assoc.{◌==◌, string_eq, nat_eq, lookup, insert, erase}

pub data ErrorCode : Type 0 where
  application_error connection_timeout response_timeout recipient_disconnected : ErrorCode
  response_payload_too_large send_failed unsupported_method recipient_not_found : ErrorCode
  request_payload_too_large unsupported_server unsupported_version : ErrorCode

unfoldable pub code_of : ErrorCode → ℕ
code_of application_error = 1500
code_of connection_timeout = 1501
code_of response_timeout = 1502
code_of recipient_disconnected = 1503
code_of response_payload_too_large = 1504
code_of send_failed = 1505
code_of unsupported_method = 1400
code_of recipient_not_found = 1401
code_of request_payload_too_large = 1402
code_of unsupported_server = 1403
code_of unsupported_version = 1404

unfoldable pub default_message_for : ErrorCode → String
default_message_for application_error = "Application error in method handler"
default_message_for connection_timeout = "Connection timeout"
default_message_for response_timeout = "Response timeout"
default_message_for recipient_disconnected = "Recipient disconnected"
default_message_for response_payload_too_large = "Response payload too large"
default_message_for send_failed = "Failed to send"
default_message_for unsupported_method = "Method not supported at destination"
default_message_for recipient_not_found = "Recipient not found"
default_message_for request_payload_too_large = "Request payload too large"
default_message_for unsupported_server = "RPC not supported by server"
default_message_for unsupported_version = "Unsupported RPC version"

pub record RpcError : Type 0 where
  pub code : ℕ
  pub message : String
  pub data' : String

-- The message of the protocol, whose data may be unset.
pub record ProtoError : Type 0 where
  pub code : ℕ
  pub message : String
  pub data' : Option String

unfoldable pub to_proto : RpcError → ProtoError
to_proto e = record {
  code = e.code;
  message = e.message;
  data' = if e.data' == "" then none else some e.data';
}

unfoldable pub from_proto : ProtoError → RpcError
from_proto e = record {
  code = e.code;
  message = e.message;
  data' = elim e.data' [ none ↦ "" | some text ↦ text ];
}

unfoldable pub built_in : ErrorCode → String → RpcError
built_in code text = record {
  code = code_of code;
  message = default_message_for code;
  data' = text;
}

-- What a user's handler does: a payload or none, or an exception.
pub data Handled : Type 0 where
  returns : Option String → Handled
  throws_rpc : RpcError → Handled
  throws : String → Handled
  throws_unknown : Handled

-- The response to an invocation, with the fields that are set.
pub record Response : Type 0 where
  pub error : Option ProtoError
  pub payload : Option String

abbrev pub error_response : RpcError → Response
error_response e = record { error = some (to_proto e); payload = none }

-- What `handleRpcMethodInvocation` makes of the handler, which is `none` if there is none.
unfoldable pub response_of : Option ℕ → Handled → Response
response_of none handled = error_response (built_in unsupported_method "")
response_of (some handler) (returns payload) = record { error = none; payload = payload }
response_of (some handler) (throws_rpc e) = error_response e
response_of (some handler) (throws what) = error_response (built_in application_error what)
response_of (some handler) throws_unknown =
    error_response (built_in application_error "unknown error")

-- How far an invocation is: its handler runs (or there is none), its response is about to be sent, or it
-- is about to return.
pub data Phase : Type 0 where
  handling : Option ℕ → Phase
  sending : Response → Phase
  leaving : Phase

-- Beside the members: where each invocation is that has been counted, what was sent, the latest
-- first, and the methods that were unregistered.
pub record LocalParticipant : Type 0 where
  pub handle : ℕ
  pub rpc_handlers : List (String × ℕ)
  pub shutting_down : Bool
  pub active_invocations : ℕ
  pub invocations : List (ℕ × Phase)
  pub sent : List (ℕ × Response)
  pub unregistered : List String

-- `false` where it throws, since the handle is 0.
unfoldable pub register_rpc_method : String → ℕ → LocalParticipant → Bool × LocalParticipant
register_rpc_method method handler p =
    if p.handle == 0
    then (false, p)
    else (true, record p { rpc_handlers = insert method handler p.rpc_handlers })

unfoldable pub unregister_rpc_method : String → LocalParticipant → Bool × LocalParticipant
unregister_rpc_method method p = if p.handle == 0 then (false, p) else (
  true,
  record p { rpc_handlers = erase method p.rpc_handlers; unregistered = method ∷ p.unregistered },
)

-- An invocation arrives under an id, up to the call of its handler.
unfoldable pub arrive : ℕ → String → LocalParticipant → LocalParticipant
arrive id method p = if p.shutting_down then p else record p {
  active_invocations = p.active_invocations + 1;
  invocations = (id, handling (lookup method p.rpc_handlers)) ∷ p.invocations;
}

-- The invocations with another phase for an id, if it is among them.
abbrev pub set_phase : ℕ → Phase → LocalParticipant → LocalParticipant
set_phase id phase p = record p { invocations = insert id phase p.invocations }

-- The handler is done; the mutex is taken for the second test.
unfoldable pub handle_done : ℕ → Handled → LocalParticipant → LocalParticipant
handle_done id handled p = elim (lookup id p.invocations) [
  | some (handling handler) ↦
      set_phase id (if p.shutting_down then leaving else sending (response_of handler handled)) p
  | _ ↦ p
]

-- The response goes to the native library.
unfoldable pub send : ℕ → LocalParticipant → LocalParticipant
send id p = elim (lookup id p.invocations) [
  | some (sending response) ↦ set_phase id leaving (record p { sent = (id, response) ∷ p.sent })
  | _ ↦ p
]

-- The guard's destructor.
unfoldable pub leave : ℕ → LocalParticipant → LocalParticipant
leave id p = elim (lookup id p.invocations) [
  | some leaving ↦ record p {
    active_invocations = p.active_invocations - 1;
    invocations = erase id p.invocations;
  }
  | _ ↦ p
]

-- `shutdown` up to its wait; the wait ends when no invocation is active, or after five seconds.
unfoldable pub shutdown_begin : LocalParticipant → LocalParticipant
shutdown_begin p = record p { shutting_down = true }

abbrev pub methods : List (String × ℕ) → List String
methods [] = []
methods ((method, handler) ∷ rest) = method ∷ methods rest

-- `shutdown` after its wait.
unfoldable pub shutdown_end : LocalParticipant → LocalParticipant
shutdown_end p = record p {
  rpc_handlers = [];
  unregistered = if p.handle == 0 then p.unregistered else methods p.rpc_handlers ++ p.unregistered;
}

-- A step of one of the threads.
pub data Step : Type 0 where
  arrives : ℕ → String → Step
  handles : ℕ → Handled → Step
  sends leaves : ℕ → Step
  registers : String → ℕ → Step
  unregisters : String → Step
  begins_shutdown ends_shutdown : Step

unfoldable pub step : Step → LocalParticipant → LocalParticipant
step (arrives id method) p = arrive id method p
step (handles id handled) p = handle_done id handled p
step (sends id) p = send id p
step (leaves id) p = leave id p
step (registers method handler) p = (register_rpc_method method handler p).1
step (unregisters method) p = (unregister_rpc_method method p).1
step begins_shutdown p = shutdown_begin p
step ends_shutdown p = shutdown_end p

-- The steps, the earliest first.
abbrev pub run : List Step → LocalParticipant → LocalParticipant
run [] p = p
run (s ∷ steps) p = run steps (step s p)
