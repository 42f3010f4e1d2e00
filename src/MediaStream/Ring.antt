-- ===== src/MediaStream/Ring.antt =====
-- The queue of a media stream: bounded, first in first out, and the oldest frames go first.
use client_sdk_cpp.Prelude.{
  ℕ, zero, suc, false, ◌&&◌, List, [], ◌∷◌, ◌++◌, ◌≡◌, refl, sym, ap, ◌∙◌, arith, if◌then◌else◌,
  ltb, leb, length, drop, ◌-◌, ◌≤◌, ◌<◌, length-append, append_assoc, append-nil, drop-drop,
  length-drop, ◌⊎◌, subst,
}
use native.Mathlib.Decide.{dec_lt}
use client_sdk_cpp.Prelude.Assoc.{beq_refl, nat_eq}
use client_sdk_cpp.MediaStream.{
  MediaStream, frame_received, eos, not_set, stream_event, other_event, Call, event, reads, closes,
  pop_front, read, read_front, push_frame, push_eos, close, on_ffi_event, step, run,
}

module _ {ℓ} {A : Type ℓ} where
  abbrev pub IsBounded : MediaStream A → Type 0
  IsBounded s = (s.capacity ≡ 0) ⊎ (length s.queue ≤ s.capacity)

  length-pop_front : (xs : List A) → length (pop_front xs) ≡ length xs - 1
  length-pop_front [] = refl
  length-pop_front (x ∷ xs) = omega arith

  push_frame-IsBounded : (f : A) (s : MediaStream A) → IsBounded s → IsBounded (push_frame f s).0
  unfolding push_frame
  push_frame-IsBounded f s b = ground (
    arith,
    length-pop_front s.queue,
    length-append (pop_front s.queue) (f ∷ []),
    length-append s.queue (f ∷ []),
  )

  read_front-IsBounded :
      (q : List A) (s : MediaStream A) → s.queue ≡ q → IsBounded s → IsBounded (read_front q s).1
  unfolding read_front
  read_front-IsBounded [] s e b = ground arith
  read_front-IsBounded (x ∷ q) s e b = ground (arith, ap length e)

  step-IsBounded : (s : MediaStream A) (c : Call A) → IsBounded s → IsBounded (step s c).1
  unfolding step on_ffi_event push_eos close read
  step-IsBounded s (event other_event) b = b
  step-IsBounded s (event (stream_event h (frame_received f))) b =
      ground (arith, push_frame-IsBounded f s)
  step-IsBounded s (event (stream_event h eos)) b = ground arith
  step-IsBounded s (event (stream_event h not_set)) b = b
  step-IsBounded s reads b = read_front-IsBounded s.queue s refl b
  step-IsBounded s closes b = ground arith

  -- Whatever the user and the native library call, a queue with a capacity that holds no more frames
  -- at first never does.
  run-IsBounded :
      (s : MediaStream A) (calls : List (Call A)) → IsBounded s → IsBounded (run s calls).1
  unfolding run
  run-IsBounded s [] b = b
  run-IsBounded s (c ∷ calls) b = run-IsBounded (step s c).1 calls (step-IsBounded s c b)

  -- The last `n` entries.
  abbrev pub keep_last : ℕ → List A → List A
  keep_last n xs = drop (length xs - n) xs

  drop-append : (n : ℕ) (xs ys : List A) → n ≤ length xs → drop n xs ++ ys ≡ drop n (xs ++ ys)
  drop-append zero xs ys h = refl
  drop-append (suc n) [] ys h = absurd (omega arith)
  drop-append (suc n) (x ∷ xs) ys h = drop-append n xs ys (omega arith)

  -- Discarding early or late is the same.
  keep_last-append :
      (n : ℕ) (xs ys : List A) → keep_last n (keep_last n xs ++ ys) ≡ keep_last n (xs ++ ys)
  keep_last-append n xs ys =
      let k = length xs - n in
      let e = drop-append k xs ys (omega arith) in
      let l = length-drop k (xs ++ ys) in
      let a = length-append xs ys in
      rw (e, drop-drop (length (drop k (xs ++ ys)) - n) k (xs ++ ys))
        (ap (λ j. drop j (xs ++ ys)) (omega (arith, l, a)))

  pop_front-append :
      (xs : List A) (f : A) → 0 < length xs → pop_front xs ++ f ∷ [] ≡ drop 1 (xs ++ f ∷ [])
  pop_front-append [] f h = absurd (omega arith)
  pop_front-append (x ∷ xs) f h = refl

  ring_push :
      (q : List A) (f : A) (capacity : ℕ)
      → 0 < capacity
      → length q ≤ capacity
      → (if ltb 0 capacity && leb capacity (length q) then pop_front q else q) ++ f ∷ []
        ≡ keep_last capacity (q ++ f ∷ [])
  ring_push q f capacity pos h = elim (dec_lt (length q) capacity) [
    | yes room ↦
        let e : length (q ++ f ∷ []) - capacity ≡ 0 = omega (arith, length-append q (f ∷ [])) in
        rw e (ground arith)
    | no full ↦
        let e : length (q ++ f ∷ []) - capacity ≡ 1 = omega (arith, length-append q (f ∷ [])) in
        rw e (ground (arith, pop_front-append q f (omega arith)))
  ]

  abbrev ring_pushed : A → MediaStream A → MediaStream A
  ring_pushed f s = record s {
    queue =
        (if ltb 0 s.capacity && leb s.capacity (length s.queue) then pop_front s.queue else s.queue)
        ++ f ∷ [];
  }

  abbrev pub arrivals : ℕ → List A → List (Call A)
  arrivals handle [] = []
  arrivals handle (f ∷ fs) = event (stream_event handle (frame_received f)) ∷ arrivals handle fs

  arrival :
      (f : A) (s : MediaStream A)
      → s.closed ≡ false
      → s.eof ≡ false
      → (step s (event (stream_event s.stream_handle (frame_received f)))).1 ≡ ring_pushed f s
  unfolding step on_ffi_event push_frame
  arrival f s c n = simp (c, n, beq_refl s.stream_handle)

  -- While nobody reads, a stream with capacity n > 0 that is open, has not ended and has no more than n
  -- frames queued holds, after frames of its own have arrived, the last n of the frames that were
  -- queued or arrived: the oldest are discarded, never the newest.
  pub run-arrivals :
      (fs : List A) (s : MediaStream A)
      → 0 < s.capacity
      → length s.queue ≤ s.capacity
      → s.closed ≡ false
      → s.eof ≡ false
      → (run s (arrivals s.stream_handle fs)).1.queue ≡ keep_last s.capacity (s.queue ++ fs)
  unfolding run
  run-arrivals [] s pos b c n =
      let e : length (s.queue ++ []) - s.capacity ≡ 0 = omega (arith, length-append s.queue []) in
      rw e (sym (append-nil s.queue))
  run-arrivals (f ∷ fs) s pos b c n =
      subst
        (λ t.
          (run t (arrivals s.stream_handle fs)).1.queue ≡ keep_last s.capacity (s.queue ++ f ∷ fs))
        (sym (arrival f s c n)) (run-arrivals fs (ring_pushed f s) pos bound c n ∙ discard)
    where
      pushed : (ring_pushed f s).queue ≡ keep_last s.capacity (s.queue ++ f ∷ [])
      pushed = ring_push s.queue f s.capacity pos b

      bound : length (ring_pushed f s).queue ≤ s.capacity
      bound =
          rw pushed (
            omega
              (arith, length-drop (length (s.queue ++ f ∷ []) - s.capacity) (s.queue ++ f ∷ [])))

      discard :
          keep_last s.capacity ((ring_pushed f s).queue ++ fs)
          ≡ keep_last s.capacity (s.queue ++ f ∷ fs)
      discard =
          rw (pushed, keep_last-append s.capacity (s.queue ++ f ∷ []) fs)
            (ap (keep_last s.capacity) (append_assoc s.queue (f ∷ []) fs))
