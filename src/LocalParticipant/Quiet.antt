-- ===== src/LocalParticipant/Quiet.antt =====
-- The end of a local participant: no response after it.
use client_sdk_cpp.Prelude.{
  ℕ, ◌+◌, true, List, [], ◌∷◌, some, if◌then◌else◌, length, ◌≡◌, refl, ◌∙◌, arith, option_rule, ◌≤◌,
}
use client_sdk_cpp.Prelude.Assoc.{nat_eq, lookup, erase, length-insert, length-erase-le}
use client_sdk_cpp.LocalParticipant.{
  Handled, Phase, handling, sending, leaving, LocalParticipant, set_phase, Step, arrives, handles,
  sends, leaves, registers, unregisters, begins_shutdown, ends_shutdown, step, run, arrive,
  handle_done, send, leave, register_rpc_method, unregister_rpc_method, shutdown_begin,
  shutdown_end, response_of,
}

-- Every invocation in progress is counted. (An id that arrives again while it is in progress is
-- counted twice.)
abbrev pub IsCounted : LocalParticipant → Type 0
IsCounted p = length p.invocations ≤ p.active_invocations

-- What is left once the shutdown has waited: it is marked, and no invocation is in progress.
abbrev pub IsDown : LocalParticipant → Type 0
IsDown p = (p.shutting_down ≡ true) × (p.invocations ≡ [])

step-IsDown :
    (s : Step) (p : LocalParticipant) → IsDown p → IsDown (step s p) × ((step s p).sent ≡ p.sent)
unfolding step arrive handle_done send leave register_rpc_method unregister_rpc_method
    shutdown_begin shutdown_end lookup
step-IsDown (arrives id method) p h = ground arith
step-IsDown (handles id handled) p h = ground arith
step-IsDown (sends id) p h = ground arith
step-IsDown (leaves id) p h = ground arith
step-IsDown (registers method handler) p h = ground arith
step-IsDown (unregisters method) p h = ground arith
step-IsDown begins_shutdown p h = ((refl, h.1), refl)
step-IsDown ends_shutdown p h = (h, refl)

length-erase_present :
    (id : ℕ) (phase : Phase) (m : List (ℕ × Phase))
    → lookup id m ≡ some phase
    → length (erase id m) + 1 ≤ length m
unfolding lookup erase
length-erase_present id phase [] h = absurd cc
length-erase_present id phase ((i, w) ∷ m) h =
    ground (arith, length-erase_present id phase m, length-erase-le id m)

handled-IsCounted :
    (id : ℕ) (handled : Handled) (phase : Phase) (p : LocalParticipant)
    → IsCounted p
    → lookup id p.invocations ≡ some phase
    → IsCounted (elim phase as (λ _. LocalParticipant) [
      | handling handler ↦
          set_phase id
            (if p.shutting_down then leaving else sending (response_of handler handled))
            p
      | sending _ ↦ p
      | leaving ↦ p
    ])
handled-IsCounted id handled (handling handler) p h e =
    let phase = if p.shutting_down then leaving else sending (response_of handler handled) in
    ground (arith, length-insert id phase p.invocations)
handled-IsCounted id handled (sending response) p h e = h
handled-IsCounted id handled leaving p h e = h

step-IsCounted : (s : Step) (p : LocalParticipant) → IsCounted p → IsCounted (step s p)
unfolding step arrive handle_done send leave register_rpc_method unregister_rpc_method
    shutdown_begin shutdown_end
step-IsCounted (arrives id method) p h = ground arith
step-IsCounted (handles id handled) p h =
    option_rule {B = LocalParticipant} IsCounted (lookup id p.invocations) (λ _. h)
      (λ phase e. handled-IsCounted id handled phase p h e)
step-IsCounted (sends id) p h = ground (arith, length-insert id leaving p.invocations)
step-IsCounted (leaves id) p h = ground (arith, length-erase_present id leaving p.invocations)
step-IsCounted (registers method handler) p h = ground arith
step-IsCounted (unregisters method) p h = ground arith
step-IsCounted begins_shutdown p h = h
step-IsCounted ends_shutdown p h = h

run-IsCounted : (steps : List Step) (p : LocalParticipant) → IsCounted p → IsCounted (run steps p)
run-IsCounted [] p h = h
run-IsCounted (s ∷ steps) p h = run-IsCounted steps (step s p) (step-IsCounted s p h)

run-IsDown : (steps : List Step) (p : LocalParticipant) → IsDown p → (run steps p).sent ≡ p.sent
run-IsDown [] p h = refl
run-IsDown (s ∷ steps) p h =
    let (down, same) = step-IsDown s p h in run-IsDown steps (step s p) down ∙ same

empty_list : (m : List (ℕ × Phase)) → length m ≤ 0 → m ≡ []
empty_list [] h = refl
empty_list (x ∷ m) h = absurd (omega arith)

nothing_left : (p : LocalParticipant) → IsCounted p → p.active_invocations ≡ 0 → p.invocations ≡ []
nothing_left p h z = empty_list p.invocations (omega arith)

-- Once a shutdown has begun and its wait has seen that no invocation is active, no response goes to
-- the native library any more, whatever invocations arrive and whatever else the threads do.
pub no_response_after_shutdown :
    (before after : List Step) (p : LocalParticipant)
    → IsCounted p
    → (run before p).shutting_down ≡ true
    → (run before p).active_invocations ≡ 0
    → (run after (run before p)).sent ≡ (run before p).sent
no_response_after_shutdown before after p h down idle =
    run-IsDown after (run before p)
      (down, nothing_left (run before p) (run-IsCounted before p h) idle)
