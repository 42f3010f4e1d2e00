-- ===== src/FfiClient/Slots/Quiet.antt =====
-- The waits of `removeListener` and `shutdown`: once they return, the listener is not running on
-- another thread and is not called again.
use client_sdk_cpp.Prelude.{
  ℕ, true, List, [], ◌∷◌, none, some, ◌+◌, ◌≤◌, ◌≡◌, ◌≢◌, refl, arith, Option-cases, inl, inr,
}
use client_sdk_cpp.Prelude.Assoc.{lookup, nat_eq}
use client_sdk_cpp.FfiClient.Slots.{
  Slot, new_slot, bump, unbump, enter, leave, remove_ready, self_active, drain_ready, mark, running,
  Step, enters, leaves, marks, Reach, here, after,
}

total : List (ℕ × ℕ) → ℕ
total [] = 0
total ((u, n) ∷ m) = n + total m

Positive : List (ℕ × ℕ) → Type 0
Positive [] = Unit
Positive ((u, n) ∷ m) = (1 ≤ n) × Positive m

total-bump : (t : ℕ) (m : List (ℕ × ℕ)) → total (bump t m) ≡ total m + 1
unfolding total bump
total-bump t [] = refl
total-bump t ((u, n) ∷ m) = ground (arith, total-bump t m)

total-unbump :
    (t : ℕ) (m : List (ℕ × ℕ)) → Positive m → 1 ≤ running t m → total (unbump t m) + 1 ≡ total m
unfolding total unbump Positive
total-unbump t [] p h = omega arith
total-unbump t ((u, n) ∷ m) p h = ground (arith, total-unbump t m p.1)

bump-Positive : (t : ℕ) (m : List (ℕ × ℕ)) → Positive m → Positive (bump t m)
unfolding Positive bump
bump-Positive t [] p = (omega arith, tt)
bump-Positive t ((u, n) ∷ m) p = ground (arith, bump-Positive t m p.1)

unbump-Positive : (t : ℕ) (m : List (ℕ × ℕ)) → Positive m → Positive (unbump t m)
unfolding Positive unbump
unbump-Positive t [] p = tt
unbump-Positive t ((u, n) ∷ m) p = ground (arith, unbump-Positive t m p.1)

running-unbump : (t u : ℕ) (m : List (ℕ × ℕ)) → running u (unbump t m) ≤ running u m
unfolding unbump
running-unbump t u [] = omega arith
running-unbump t u ((v, n) ∷ m) = ground (arith, running-unbump t u m)

running-le-total : (t : ℕ) (m : List (ℕ × ℕ)) → running t m ≤ total m
unfolding total
running-le-total t [] = omega arith
running-le-total t ((v, n) ∷ m) = ground (arith, running-le-total t m)

running_two : (t u : ℕ) (m : List (ℕ × ℕ)) → t ≢ u → running t m + running u m ≤ total m
unfolding total
running_two t u [] ne = omega arith
running_two t u ((v, n) ∷ m) ne = ground (arith, running_two t u m ne)

running_found :
    (t n : ℕ) (m : List (ℕ × ℕ))
    → Positive m
    → lookup t m ≡ some n
    → (1 ≤ running t m) × (n ≤ running t m)
unfolding Positive lookup
running_found t n [] p h = cc
running_found t n ((v, k) ∷ m) p h = ground (arith, running_found t n m p.1)

record Counts (s : Slot) : Type 0 where
  agree : total s.active_threads ≡ s.active_callbacks
  positive : Positive s.active_threads

Step-Counts : {s s' : Slot} → Counts s → Step s s' → Counts s'
unfolding enter leave mark
Step-Counts {s} {s'} c (enters t e) =
    let added : total s'.active_threads ≡ s'.active_callbacks =
      ground (arith, total-bump t s.active_threads, c.agree) in
    let kept : Positive s'.active_threads =
      ground (arith, bump-Positive t s.active_threads c.positive) in
    record { agree = added; positive = kept }
Step-Counts {s} c (leaves t h) = record {
  agree = ground (arith, total-unbump t s.active_threads c.positive h, c.agree);
  positive = unbump-Positive t s.active_threads c.positive;
}
Step-Counts {s} c marks = record { agree = c.agree; positive = c.positive }

Reach-Counts : {s s' : Slot} → Counts s → Reach s s' → Counts s'
Reach-Counts c here = c
Reach-Counts c (after r x) = Step-Counts (Reach-Counts c r) x

Quiet : ℕ → Slot → Type 0
Quiet u s = (s.removed ≡ true) × (running u s.active_threads ≡ 0)

Step-Quiet : (u : ℕ) {s s' : Slot} → Quiet u s → Step s s' → Quiet u s'
unfolding Quiet enter leave mark
Step-Quiet u {s} q (enters t e) = ground arith
Step-Quiet u {s} q (leaves t h) = ground (arith, running-unbump t u s.active_threads)
Step-Quiet u q marks = (refl, q.1)

Reach-Quiet : (u : ℕ) {s s' : Slot} → Quiet u s → Reach s s' → Quiet u s'
Reach-Quiet u q here = q
Reach-Quiet u q (after r x) = Step-Quiet u (Reach-Quiet u q r) x

Quiet-end : (u v : ℕ) (s : Slot) → Quiet u s → (running u s.active_threads ≡ 0) × (enter v s ≡ none)
unfolding Quiet enter
Quiet-end u v s q = ground arith

-- When the wait of `removeListener` on thread `t` is over, whatever calls of the listener came
-- before, and the slot is marked, then from there on no other thread runs the listener and no thread
-- enters it.
pub remove_listener_quiet :
    {s s' : Slot} (t u v : ℕ)
    → Reach new_slot s
    → remove_ready t s ≡ true
    → Reach (mark s) s'
    → u ≢ t
    → (running u s'.active_threads ≡ 0) × (enter v s' ≡ none)
unfolding remove_ready Quiet mark Positive total
remove_listener_quiet {s} {s'} t u v r ready later ne =
    let c = Reach-Counts (record { agree = refl; positive = tt }) r in
    let none_else : running u s.active_threads ≡ 0 =
      elim (Option-cases (lookup t s.active_threads)) [
        | inl e ↦ ground (arith, c.agree, running-le-total u s.active_threads)
        | inr (n, e) ↦ ground (
          arith,
          c.agree,
          running-le-total u s.active_threads,
          running_found t n s.active_threads c.positive e,
          running_two u t s.active_threads ne,
        )
      ] in
    Quiet-end u v s' (Reach-Quiet u (refl, none_else) later)

-- When the wait of `shutdown` on thread `t` is over, in a slot that it marked before, then from there
-- on no other thread runs the listener and no thread enters it.
shutdown_quiet :
    {s s' : Slot} (t u v : ℕ)
    → Reach new_slot s
    → s.removed ≡ true
    → drain_ready t s ≡ true
    → Reach s s'
    → u ≢ t
    → (running u s'.active_threads ≡ 0) × (enter v s' ≡ none)
unfolding drain_ready self_active Quiet Positive total
shutdown_quiet {s} {s'} t u v r gone ready later ne =
    let c = Reach-Counts (record { agree = refl; positive = tt }) r in
    let none_else : running u s.active_threads ≡ 0 =
      elim (Option-cases (lookup t s.active_threads)) [
        | inl e ↦ ground (arith, c.agree, running-le-total u s.active_threads)
        | inr (n, e) ↦ ground (
          arith,
          c.agree,
          running_found t n s.active_threads c.positive e,
          running_two u t s.active_threads ne,
        )
      ] in
    Quiet-end u v s' (Reach-Quiet u (gone, none_else) later)
