-- ===== src/Dispatcher/Loops/Ending.antt =====
-- The end of a reader thread, which the dispatcher's joins wait for.
use client_sdk_cpp.Prelude.{
  ℕ, suc, true, false, List, [], ◌∷◌, ◌≡◌, ◌⊎◌, inl, inr, ◌+◌, ◌≤◌, length, refl, arith, Bool-cases,
}
use client_sdk_cpp.MediaStream.{
  FfiEvent, stream_event, other_event, frame_received, eos, not_set, read, read_front, close,
  on_ffi_event, push_frame, push_eos,
}
use client_sdk_cpp.Dispatcher.Loops.{
  CallbackEnd, Loop, Step, turns, arrives, closes, after_read, turn, loop_step, loop_steps,
}

module _ {ℓ} {A : Type ℓ} where
  -- How many turns the thread has in these steps.
  abbrev pub turns_in : List (Step A) → ℕ
  turns_in [] = 0
  turns_in (turns e ∷ xs) = suc (turns_in xs)
  turns_in (arrives e ∷ xs) = turns_in xs
  turns_in (closes ∷ xs) = turns_in xs

  -- After `n` turns the thread has returned.
  abbrev Ends : ℕ → Loop A → Type 0
  Ends n l =
      (l.running ≡ false)
      ⊎ (((l.stream.closed ≡ true) × (1 ≤ n))
          ⊎ ((l.stream.eof ≡ true) × (length l.stream.queue + 1 ≤ n)))

  read_front-Ends :
      (n : ℕ) (e : CallbackEnd) (q : List A) (l : Loop A)
      → l.stream.queue ≡ q
      → l.running ≡ true
      → ((l.stream.closed ≡ true) × (1 ≤ suc n)) ⊎ ((l.stream.eof ≡ true) × (length q + 1 ≤ suc n))
      → Ends n (after_read e (read_front q l.stream) l)
  unfolding read_front
  read_front-Ends n e [] l h g (inl (c, m)) = ground arith
  read_front-Ends n e [] l h g (inr (c, m)) = ground arith
  read_front-Ends n e (x ∷ q) l h g (inl (c, m)) = ground arith
  read_front-Ends n e (x ∷ q) l h g (inr (c, m)) = ground arith

  turn-Ends : (n : ℕ) (e : CallbackEnd) (l : Loop A) → Ends (suc n) l → Ends n (turn e l)
  unfolding read
  turn-Ends n e l v = elim (Bool-cases l.running) [
    | inl r ↦ (elim v [
      | inl q ↦ absurd (ground arith)
      | inr w ↦ simp r (read_front-Ends n e l.stream.queue l refl r w)
    ])
    | inr r ↦ ground arith
  ]

  arrives-Ends :
      (n : ℕ) (e : FfiEvent A) (l : Loop A)
      → Ends n l
      → Ends n (record l { stream = (on_ffi_event e l.stream).0 })
  unfolding on_ffi_event push_frame push_eos
  arrives-Ends n other_event l v = v
  arrives-Ends n (stream_event h not_set) l v = v
  arrives-Ends n (stream_event h (frame_received x)) l v = ground arith
  arrives-Ends n (stream_event h eos) l v = ground arith

  closes-Ends : (n : ℕ) (l : Loop A) → Ends n l → Ends n (record l { stream = (close l.stream).0 })
  unfolding close
  closes-Ends n l v = ground arith

  steps-Ends : (xs : List (Step A)) (l : Loop A) → Ends (turns_in xs) l → Ends 0 (loop_steps xs l)
  unfolding loop_steps
  steps-Ends [] l v = v
  steps-Ends (turns e ∷ xs) l v = steps-Ends xs (turn e l) (turn-Ends (turns_in xs) e l v)
  steps-Ends (arrives e ∷ xs) l v =
      steps-Ends xs (loop_step (arrives e) l) (arrives-Ends (turns_in xs) e l v)
  steps-Ends (closes ∷ xs) l v = steps-Ends xs (loop_step closes l) (closes-Ends (turns_in xs) l v)

  -- A thread whose stream is closed returns in its next turn, and one whose stream has ended returns
  -- within as many turns as there are frames queued, and one more: whatever the callback throws,
  -- whatever else arrives in between, and also if the stream is closed in between.
  pub reader_returns :
      (xs : List (Step A)) (l : Loop A)
      → ((l.stream.closed ≡ true) × (1 ≤ turns_in xs))
        ⊎ ((l.stream.eof ≡ true) × (length l.stream.queue + 1 ≤ turns_in xs))
      → (loop_steps xs l).running ≡ false
  reader_returns xs l v = elim (steps-Ends xs l (inr v)) [
    | inl r ↦ r
    | inr (inl (c, m)) ↦ absurd (omega arith)
    | inr (inr (c, m)) ↦ absurd (omega arith)
  ]
