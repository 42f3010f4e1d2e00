-- ===== src/FfiClient.antt =====
-- `FfiClient` of src/ffi_client.cpp: the life cycle, the asynchronous requests that wait for their
-- event, and the listeners. The code under the mutex `lock_` is one step; what runs outside it on
-- many threads is in `Slots`.
pub mod Event
pub mod Promises
pub mod Slots
pub mod Requests
use client_sdk_cpp.Prelude.{
  ℕ, Bool, true, false, ◌&&◌, List, [], ◌∷◌, ◌++◌, Option, none, some, if◌then◌else◌, ◌==◌, map,
  ◌+◌, ◌%◌, ◌^◌,
}
use client_sdk_cpp.Prelude.Assoc.{lookup, insert, erase, emplace, nat_eq}
use Event.{Kind, FfiEvent, extract_async_id, kind_eq}

pub data LifecycleState : Type 0 where
  uninitialized initializing initialized shutting_down : LifecycleState

abbrev pub is_initialized : LifecycleState → Bool
is_initialized initialized = true
is_initialized _ = false

-- How a promise was settled: by the handler, which was given the event, or by `cancel`.
pub data Settled : Type 0 where
  completed : FfiEvent → Settled
  cancelled : Settled

-- A pending operation is the kind of the event that it waits for: its `match` asks for that kind and
-- for its own async id, under which it is filed. A promise is named by the async id. `settled` has
-- the promises that were settled, the latest first. The pending operations' handlers and the
-- listeners' callbacks are code of the callers; a listener is named by its id.
pub record Client : Type 0 where
  pub lifecycle : LifecycleState
  pub listeners : List ℕ
  pub next_listener_id : ℕ
  pub pending : List (ℕ × Kind)
  pub next_async_id : ℕ
  pub settled : List (ℕ × Settled)

abbrev pub initial : Client
initial = record {
  lifecycle = uninitialized;
  listeners = [];
  next_listener_id = 1;
  pending = [];
  next_async_id = 1;
  settled = [];
}

pub data Result {ℓ} (A : Type ℓ) : Type ℓ where
  returns : A → Result A
  throws : Result A

-- `livekit_ffi_initialize` returns (`true`) or throws.
unfoldable pub initialize : Bool → Client → Result Bool × Client
initialize ffi_ok c = elim c.lifecycle [
  | uninitialized ↦
      if ffi_ok
      then (returns true, record c { lifecycle = initialized })
      else (throws, record c { lifecycle = uninitialized })
  | _ ↦ (returns false, c)
]

abbrev pub cancel_all : List (ℕ × Kind) → List (ℕ × Settled)
cancel_all [] = []
cancel_all ((id, kind) ∷ pending) = (id, cancelled) ∷ cancel_all pending

-- `shutdown` up to the wait for the callbacks that run: `true` if this call claimed the shutdown.
unfoldable pub shutdown_begin : Client → Bool × Client
shutdown_begin c = elim c.lifecycle [
  | initialized ↦ (
    true,
    record c {
      lifecycle = shutting_down;
      listeners = [];
      pending = [];
      settled = cancel_all c.pending ++ c.settled;
    },
  )
  | _ ↦ (false, c)
]

-- The end of `shutdown`, after the wait and the disposal of the native library.
unfoldable pub shutdown_end : Client → Client
shutdown_end c = record c { lifecycle = uninitialized }

unfoldable pub add_listener : Client → Result ℕ × Client
add_listener c = elim c.lifecycle [
  | shutting_down ↦ (throws, c)
  | _ ↦ (
    returns c.next_listener_id,
    record c {
      listeners = c.next_listener_id ∷ c.listeners;
      next_listener_id = c.next_listener_id + 1;
    },
  )
]

abbrev pub without : ℕ → List ℕ → List ℕ
without id [] = []
without id (x ∷ xs) = let rest = without id xs in if x == id then rest else x ∷ rest

-- `removeListener` up to the wait on the slot.
unfoldable pub remove_listener : ℕ → Client → Client
remove_listener id c = record c { listeners = without id c.listeners }

-- `generateAsyncId`: a 64-bit counter.
unfoldable pub generate_async_id : Client → ℕ × Client
generate_async_id c = (c.next_async_id, record c { next_async_id = (c.next_async_id + 1) % 2 ^ 64 })

unfoldable pub register_async : ℕ → Kind → Client → Client
register_async id kind c = record c { pending = emplace id kind c.pending }

unfoldable pub cancel_pending : ℕ → Client → Bool × Client
cancel_pending id c = elim (lookup id c.pending) [
  | none ↦ (false, c)
  | some kind ↦
      (true, record c { pending = erase id c.pending; settled = (id, cancelled) ∷ c.settled })
]

-- The completion of a pending operation in `pushEvent`.
unfoldable pub complete_pending : ℕ → FfiEvent → Client → Client
complete_pending id e c = elim (lookup id c.pending) [
  | none ↦ c
  | some kind ↦
      if kind_eq kind e.kind
      then record c { pending = erase id c.pending; settled = (id, completed e) ∷ c.settled }
      else c
]

-- `pushEvent`: the client that is left, and the listeners that are then notified.
unfoldable pub push_event : FfiEvent → Client → Client × List ℕ
push_event e c =
    if is_initialized c.lifecycle
    then (elim (extract_async_id e) [
      | none ↦ (c, c.listeners)
      | some id ↦ (complete_pending id e c, c.listeners)
    ])
    else (c, [])

-- The shape of `connectAsync` and of the other asynchronous requests: a fresh id is registered for
-- the kind of event that answers, then the request is sent; `response_ok` says that the native
-- library takes it and that its response has the expected part. A failure cancels and rethrows. No
-- other thread's call comes in between, although the source lets go of its lock there.
unfoldable pub request_async : Kind → Bool → Client → Result ℕ × Client
request_async kind response_ok c =
    let (id, c') = generate_async_id c in
    let c'' = register_async id kind c' in
    if is_initialized c.lifecycle && response_ok
    then (returns id, c'')
    else (throws, (cancel_pending id c'').1)
