-- ===== src/FfiClient/Slots.antt =====
-- The listeners' slots of src/ffi_client.cpp: the callbacks that `pushEvent` runs outside the client's

-- lock on many threads, and the waits of `removeListener` and `shutdown` for them. One `Slot` is one
-- `ListenerSlot`; a step is what one thread does under the slot's mutex.
pub mod Quiet
use client_sdk_cpp.Prelude.{
  is_some, ℕ, Bool, true, false, ◌&&◌, ◌||◌, List, [], ◌∷◌, Option, none, some, if◌then◌else◌, ◌==◌,
  ◌+◌, ◌-◌, ◌≤◌, ◌≡◌, ◌≢◌, refl, arith,
}
use client_sdk_cpp.Prelude.Assoc.{lookup, nat_eq}

pub record Slot : Type 0 where
  pub removed : Bool
  pub active_callbacks : ℕ
  pub active_threads : List (ℕ × ℕ)

abbrev pub new_slot : Slot
new_slot = record { removed = false; active_callbacks = 0; active_threads = [] }

-- `++slot->active_threads[this_thread]`
unfoldable pub bump : ℕ → List (ℕ × ℕ) → List (ℕ × ℕ)
bump t [] = (t, 1) ∷ []
bump t ((u, n) ∷ m) = if u == t then (u, n + 1) ∷ m else (u, n) ∷ bump t m

-- The thread's entry is counted down, and erased at 0.
unfoldable pub unbump : ℕ → List (ℕ × ℕ) → List (ℕ × ℕ)
unbump t [] = []
unbump t ((u, n) ∷ m) =
    if u == t then (if n - 1 == 0 then m else (u, n - 1) ∷ m) else (u, n) ∷ unbump t m

-- `pushEvent` before it calls the listener: `none` where it passes the slot over.
unfoldable pub enter : ℕ → Slot → Option Slot
enter t s =
    if s.removed
    then none
    else some (record s {
      active_callbacks = s.active_callbacks + 1;
      active_threads = bump t s.active_threads;
    })

-- `pushEvent` after the listener returned or threw.
unfoldable pub leave : ℕ → Slot → Slot
leave t s = record s {
  active_callbacks = s.active_callbacks - 1;
  active_threads = unbump t s.active_threads;
}

-- What the wait of `removeListener` on thread `t` waits for.
unfoldable pub remove_ready : ℕ → Slot → Bool
remove_ready t s =
    (s.active_callbacks == 0) || (is_some (lookup t s.active_threads) && (s.active_callbacks == 1))

unfoldable pub self_active : ℕ → Slot → ℕ
self_active t s = elim (lookup t s.active_threads) [ none ↦ 0 | some n ↦ n ]

-- What the wait of `shutdown` on thread `t` waits for.
unfoldable pub drain_ready : ℕ → Slot → Bool
drain_ready t s = s.active_callbacks == self_active t s

-- `slot->removed = true`, after the wait in `removeListener`, before it in `shutdown`.
unfoldable pub mark : Slot → Slot
mark s = record s { removed = true }

-- How many callbacks the thread runs, one inside another.
abbrev pub running : ℕ → List (ℕ × ℕ) → ℕ
running t [] = 0
running t ((u, n) ∷ m) = (if u == t then n else 0) + running t m

-- A thread enters the callback, or leaves one that it runs, or the slot is marked.
pub data Step (s : Slot) : Slot → Type 0 where
  enters : (t : ℕ) {s' : Slot} → enter t s ≡ some s' → Step s s'
  leaves : (t : ℕ) → 1 ≤ running t s.active_threads → Step s (leave t s)
  marks : Step s (mark s)

pub data Reach (s : Slot) : Slot → Type 0 where
  here : Reach s s
  after : {s' s'' : Slot} → Reach s s' → Step s' s'' → Reach s s''
