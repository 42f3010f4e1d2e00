-- ===== src/LocalParticipant/Answers.antt =====
-- What an invocation is answered.
use client_sdk_cpp.Prelude.{ℕ, false, [], ◌∷◌, Option, none, some, String, ◌≡◌, refl, ap, arith}
use client_sdk_cpp.Prelude.Assoc.{string_eq, nat_eq, lookup, insert, erase, beq_refl, erase_absent}
use client_sdk_cpp.LocalParticipant.{
  RpcError, to_proto, from_proto, built_in, code_of, default_message_for, Handled, returns,
  throws_rpc, throws, throws_unknown, Response, response_of, LocalParticipant, arrive, handle_done,
  send, leave, arrives, handles, sends, leaves, step, run,
}

-- The caller gets the error that the handler threw.
from_proto-to_proto : (e : RpcError) → from_proto (to_proto e) ≡ e
unfolding from_proto to_proto
from_proto-to_proto e = ground (arith, string_eq.same_iff e.data' "")

-- The response as the caller's side reads it, with the error of the protocol turned back.
abbrev pub caller_sees : Response → Handled
caller_sees r = elim r.error [ none ↦ returns r.payload | some e ↦ throws_rpc (from_proto e) ]

-- What the caller is to see: what the handler gave, with every other exception as an application error,
-- and the error for an unsupported method where there is no handler.
abbrev pub expected : Option ℕ → Handled → Handled
expected none handled =
    throws_rpc (record { code = 1400; message = "Method not supported at destination"; data' = "" })
expected (some handler) (returns payload) = returns payload
expected (some handler) (throws_rpc e) = throws_rpc e
expected (some handler) (throws what) =
    throws_rpc
      (record { code = 1500; message = "Application error in method handler"; data' = what })
expected (some handler) throws_unknown = throws_rpc (record {
  code = 1500;
  message = "Application error in method handler";
  data' = "unknown error";
})

sees_expected :
    (handler : Option ℕ) (handled : Handled)
    → caller_sees (response_of handler handled) ≡ expected handler handled
unfolding response_of built_in code_of default_message_for
sees_expected none handled = ap throws_rpc (from_proto-to_proto _)
sees_expected (some handler) (returns payload) = refl
sees_expected (some handler) (throws_rpc e) = ap throws_rpc (from_proto-to_proto e)
sees_expected (some handler) (throws what) = ap throws_rpc (from_proto-to_proto _)
sees_expected (some handler) throws_unknown = ap throws_rpc (from_proto-to_proto _)

invocation_runs :
    (id : ℕ) (method : String) (handled : Handled) (p : LocalParticipant)
    → p.shutting_down ≡ false
    → lookup id p.invocations ≡ none
    → let p' = run (arrives id method ∷ handles id handled ∷ sends id ∷ leaves id ∷ []) p in
      (p'.sent ≡ (id, response_of (lookup method p.rpc_handlers) handled) ∷ p.sent)
      × (p'.active_invocations ≡ p.active_invocations)
      × (p'.invocations ≡ p.invocations)
unfolding step arrive handle_done send leave lookup insert erase
invocation_runs id method handled p running absent =
    ground (arith, beq_refl id, erase_absent id p.invocations)

-- An invocation that arrives at a participant that is not shutting down, under an id that is not in
-- progress, and runs through, sends one response, by which its caller sees what the handler did, and
-- leaves no more invocations active or in progress than before.
pub invocation_answered :
    (id : ℕ) (method : String) (handled : Handled) (p : LocalParticipant)
    → p.shutting_down ≡ false
    → lookup id p.invocations ≡ none
    → let p' = run (arrives id method ∷ handles id handled ∷ sends id ∷ leaves id ∷ []) p in
      (response : Response) × (p'.sent ≡ (id, response) ∷ p.sent)
      × (caller_sees response ≡ expected (lookup method p.rpc_handlers) handled)
      × (p'.active_invocations ≡ p.active_invocations)
      × (p'.invocations ≡ p.invocations)
invocation_answered id method handled p running absent =
    let handler = lookup method p.rpc_handlers in
    let (sent, active, same) = invocation_runs id method handled p running absent in
    (response_of handler handled, sent, sees_expected handler handled, active, same)
