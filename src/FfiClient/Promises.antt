-- ===== src/FfiClient/Promises.antt =====
-- Every promise of an asynchronous request is settled at most once, and none is forgotten.
use client_sdk_cpp.Prelude.{
  ℕ, Bool, true, false, ◌&&◌, List, [], ◌∷◌, ◌++◌, none, some, if◌then◌else◌, ◌==◌, ltb, length,
  ◌+◌, ◌^◌, ◌≤◌, ◌<◌, ◌≡◌, ◌≢◌, refl, arith, Option-cases, inl, inr, ◌⊎◌,
}
use client_sdk_cpp.Prelude.Assoc.{lookup, erase, emplace, nat_eq, lookup-erase, erase_absent}
use client_sdk_cpp.FfiClient.Event.{Kind, FfiEvent, extract_async_id_cases, kind_eq_iff, is_answer}
use client_sdk_cpp.FfiClient.{
  initialized, is_initialized, Settled, completed, cancelled, Client, throws, initialize,
  cancel_all, shutdown_begin, shutdown_end, add_listener, remove_listener, generate_async_id,
  register_async, cancel_pending, complete_pending, push_event, request_async, initial,
}

pub data Call : Type 0 where
  initializes : Bool → Call
  begins_shutdown ends_shutdown adds_listener : Call
  removes_listener : ℕ → Call
  pushes : FfiEvent → Call
  cancels : ℕ → Call
  requests : Kind → Bool → Call

unfoldable pub step : Client → Call → Client
step c (initializes ffi_ok) = (initialize ffi_ok c).1
step c begins_shutdown = (shutdown_begin c).1
step c ends_shutdown = shutdown_end c
step c adds_listener = (add_listener c).1
step c (removes_listener id) = remove_listener id c
step c (pushes e) = (push_event e c).0
step c (cancels id) = (cancel_pending id c).1
step c (requests kind response_ok) = (request_async kind response_ok c).1

unfoldable pub run : Client → List Call → Client
run c [] = c
run c (x ∷ calls) = run (step c x) calls

-- How many entries a list has under a key.
abbrev pub entries {ℓ} : {V : Type ℓ} → ℕ → List (ℕ × V) → ℕ
entries id [] = 0
entries id ((k, v) ∷ m) = (if k == id then 1 else 0) + entries id m

module _ {ℓ} {V : Type ℓ} where
  entries-append :
      (id : ℕ) (xs ys : List (ℕ × V)) → entries id (xs ++ ys) ≡ entries id xs + entries id ys
  entries-append id [] ys = omega arith
  entries-append id ((k, v) ∷ xs) ys = omega (arith, entries-append id xs ys)

  entries-erase :
      (id k : ℕ) (m : List (ℕ × V)) → entries id (erase k m) ≡ (if k == id then 0 else entries id m)
  unfolding erase
  entries-erase id k [] = ground arith
  entries-erase id k ((j, v) ∷ m) = ground (arith, entries-erase id k m)

  entries_absent : (id : ℕ) (m : List (ℕ × V)) → entries id m ≡ 0 → lookup id m ≡ none
  unfolding lookup
  entries_absent id [] h = refl
  entries_absent id ((j, v) ∷ m) h = ground (arith, entries_absent id m)

  entries_present : (id : ℕ) (m : List (ℕ × V)) (v : V) → lookup id m ≡ some v → 1 ≤ entries id m
  unfolding lookup
  entries_present id [] v h = cc
  entries_present id ((j, w) ∷ m) v h = ground (arith, entries_present id m v)

entries-cancel_all : (id : ℕ) (m : List (ℕ × Kind)) → entries id (cancel_all m) ≡ entries id m
entries-cancel_all id [] = refl
entries-cancel_all id ((k, v) ∷ m) = omega (arith, entries-cancel_all id m)

-- An id that was given out is pending or settled, once in all; any other is neither.
abbrev pub Accounted : ℕ → Client → Type 0
Accounted id c =
    entries id c.pending + entries id c.settled
    ≡ (if ltb 0 id && ltb id c.next_async_id then 1 else 0)

request-Accounted :
    (id : ℕ) (c : Client) (kind : Kind) (ok : Bool)
    → 0 < c.next_async_id
    → c.next_async_id + 1 < 2 ^ 64
    → Accounted c.next_async_id c
    → Accounted id c
    → Accounted id (request_async kind ok c).1
unfolding request_async generate_async_id register_async cancel_pending emplace
request-Accounted id c kind ok pos h fresh v =
    let n = c.next_async_id in
    ground
      (arith, entries_absent n c.pending (ground arith), entries-erase id n ((n, kind) ∷ c.pending))

cancel-Accounted :
    (id k : ℕ) (c : Client) → Accounted k c → Accounted id c → Accounted id (cancel_pending k c).1
unfolding cancel_pending
cancel-Accounted id k c own v = elim (Option-cases (lookup k c.pending)) [
  | inl e ↦ rw (e, cancel_pending) v
  | inr (kind, e) ↦
      rw (e, cancel_pending)
        (ground (arith, entries-erase id k c.pending, entries_present k c.pending kind e))
]

complete_pending-Accounted :
    (id k : ℕ) (e : FfiEvent) (c : Client)
    → Accounted k c
    → Accounted id c
    → Accounted id (complete_pending k e c)
unfolding complete_pending
complete_pending-Accounted id k ev c own v = elim (Option-cases (lookup k c.pending)) [
  | inl e ↦ rw (e, complete_pending) v
  | inr (kind, e) ↦
      rw (e, complete_pending)
        (ground (arith, entries-erase id k c.pending, entries_present k c.pending kind e))
]

pub record IsAccounted (c : Client) : Type 0 where
  pub positive : 0 < c.next_async_id
  pub each : (id : ℕ) → Accounted id c

initialize-Accounted :
    (id : ℕ) (ok : Bool) (c : Client) → Accounted id c → Accounted id (initialize ok c).1
unfolding initialize
initialize-Accounted id ok c v = ground arith

shutdown_begin-Accounted :
    (id : ℕ) (c : Client) → Accounted id c → Accounted id (shutdown_begin c).1
unfolding shutdown_begin
shutdown_begin-Accounted id c v =
    ground
      (arith, entries-append id (cancel_all c.pending) c.settled, entries-cancel_all id c.pending)

add_listener-Accounted : (id : ℕ) (c : Client) → Accounted id c → Accounted id (add_listener c).1
unfolding add_listener
add_listener-Accounted id c v = ground arith

push_event-Accounted :
    (id : ℕ) (e : FfiEvent) (c : Client) → IsAccounted c → Accounted id (push_event e c).0
unfolding push_event
push_event-Accounted id e c v =
    let own = v.each e.async_id in
    let this = v.each id in
    ground (arith, complete_pending-Accounted id e.async_id e c own this, extract_async_id_cases e)

step-Accounted :
    (id : ℕ) (c : Client) (x : Call)
    → c.next_async_id + 1 < 2 ^ 64
    → IsAccounted c
    → Accounted id (step c x)
unfolding step shutdown_end remove_listener
step-Accounted id c (initializes ok) h v = initialize-Accounted id ok c (v.each id)
step-Accounted id c begins_shutdown h v = shutdown_begin-Accounted id c (v.each id)
step-Accounted id c ends_shutdown h v = v.each id
step-Accounted id c adds_listener h v = add_listener-Accounted id c (v.each id)
step-Accounted id c (removes_listener l) h v = v.each id
step-Accounted id c (pushes e) h v = push_event-Accounted id e c v
step-Accounted id c (cancels k) h v = cancel-Accounted id k c (v.each k) (v.each id)
step-Accounted id c (requests kind ok) h v =
    request-Accounted id c kind ok v.positive h (v.each c.next_async_id) (v.each id)

step-next_async_id :
    (c : Client) (x : Call)
    → c.next_async_id + 1 < 2 ^ 64
    → 0 < c.next_async_id
    → (0 < (step c x).next_async_id) × ((step c x).next_async_id ≤ c.next_async_id + 1)
unfolding step initialize shutdown_begin shutdown_end add_listener remove_listener push_event
    complete_pending cancel_pending request_async generate_async_id register_async
step-next_async_id c (initializes ok) h v = ground arith
step-next_async_id c begins_shutdown h v = ground arith
step-next_async_id c ends_shutdown h v = ground arith
step-next_async_id c adds_listener h v = ground arith
step-next_async_id c (removes_listener l) h v = ground arith
step-next_async_id c (pushes e) h v = ground arith
step-next_async_id c (cancels k) h v = ground arith
step-next_async_id c (requests kind ok) h v = ground arith

run-IsAccounted :
    (c : Client) (calls : List Call)
    → c.next_async_id + length calls < 2 ^ 64
    → IsAccounted c
    → IsAccounted (run c calls)
unfolding run
run-IsAccounted c [] h v = v
run-IsAccounted c (x ∷ calls) h v =
    let (pos, next) = step-next_async_id c x (omega arith) v.positive in
    run-IsAccounted (step c x) calls (omega arith)
      (record { positive = pos; each = λ id. step-Accounted id c x (omega arith) v })

-- After any sequence of calls on a new client, short enough for the 64-bit counter not to wrap, every
-- async id that was given out is either pending once or settled once, and no other id is either: a
-- promise is settled at most once, by its event, by a cancel or by a shutdown, and none is lost.
pub run_accounts :
    (calls : List Call) (id : ℕ) → 1 + length calls < 2 ^ 64 → Accounted id (run initial calls)
run_accounts calls id h =
    (run-IsAccounted initial calls h
        (record { positive = omega arith; each = λ k. ground arith })).each
      id

lookup-cancel_all :
    (id : ℕ) (kind : Kind) (pending : List (ℕ × Kind)) (settled : List (ℕ × Settled))
    → lookup id pending ≡ some kind
    → lookup id (cancel_all pending ++ settled) ≡ some cancelled
unfolding lookup
lookup-cancel_all id kind [] settled h = cc
lookup-cancel_all id kind ((k, v) ∷ pending) settled h =
    ground (arith, lookup-cancel_all id kind pending settled)

-- A shutdown of a running client leaves no operation pending and no listener, and settles each pending promise as
-- cancelled, so that nobody waits for it forever. No event settles anything before the next
-- `initialize`.
pub shutdown_cancels :
    (c : Client) (id : ℕ) (kind : Kind) (e : FfiEvent)
    → c.lifecycle ≡ initialized
    → lookup id c.pending ≡ some kind
    → let (claimed, c') = shutdown_begin c in
      (claimed ≡ true)
      × (c'.pending ≡ [])
      × (c'.listeners ≡ [])
      × (lookup id c'.settled ≡ some cancelled)
      × (push_event e c' ≡ (c', []))
      × (push_event e (shutdown_end c') ≡ (shutdown_end c', []))
unfolding shutdown_begin shutdown_end push_event
shutdown_cancels c id kind e h p = ground (arith, lookup-cancel_all id kind c.pending c.settled p)

-- An event completes the operation that waits for it and no other: it is taken off the pending ones
-- and its promise gets the event. The other operations stay pending.
pub push_event_completes :
    (c : Client) (e : FfiEvent) (other : ℕ)
    → c.lifecycle ≡ initialized
    → is_answer e.kind ≡ true
    → lookup e.async_id c.pending ≡ some e.kind
    → other ≢ e.async_id
    → let c' = (push_event e c).0 in
      (lookup e.async_id c'.pending ≡ none)
      × (c'.settled ≡ (e.async_id, completed e) ∷ c.settled)
      × (lookup other c'.pending ≡ lookup other c.pending)
unfolding push_event complete_pending
push_event_completes c e other i a p ne = ground (
  arith,
  extract_async_id_cases e,
  kind_eq_iff e.kind e.kind,
  lookup-erase e.async_id e.async_id c.pending,
  lookup-erase e.async_id other c.pending,
)

-- An event whose id is not pending, or is pending for another kind of event, settles nothing, and
-- neither does one that answers no request or comes outside the running state.
pub push_event_ignored :
    (c : Client) (e : FfiEvent)
    → (c.lifecycle ≢ initialized)
      ⊎ ((is_answer e.kind ≡ false) ⊎ (lookup e.async_id c.pending ≢ some e.kind))
    → (push_event e c).0 ≡ c
unfolding push_event complete_pending
push_event_ignored c e h = elim (Option-cases (lookup e.async_id c.pending)) [
  | inl p ↦ ground (arith, extract_async_id_cases e)
  | inr (kind, p) ↦ ground (arith, extract_async_id_cases e, kind_eq_iff kind e.kind)
]

-- A request that fails, in a client that is not running or for its response, under an id that is not
-- pending yet, throws, leaves the pending operations as they were and settles its promise as cancelled.
request_async_fails :
    (c : Client) (kind : Kind) (response_ok : Bool)
    → is_initialized c.lifecycle && response_ok ≡ false
    → lookup c.next_async_id c.pending ≡ none
    → let (r, c') = request_async kind response_ok c in
      (r ≡ throws)
      × (c'.pending ≡ c.pending)
      × (c'.settled ≡ (c.next_async_id, cancelled) ∷ c.settled)
unfolding request_async generate_async_id register_async cancel_pending emplace lookup erase
request_async_fails c kind ok h n =
    rw (h, request_async) (ground (arith, erase_absent c.next_async_id c.pending n))
