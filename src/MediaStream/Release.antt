-- ===== src/MediaStream/Release.antt =====
-- The native handle and the listener of a media stream, the end of the stream and its close.
use client_sdk_cpp.Prelude.{
  ℕ, zero, suc, true, false, List, [], ◌∷◌, ◌++◌, ◌≡◌, refl, sym, ap, ◌∙◌, arith, if◌then◌else◌,
  ◌==◌, length, ◌+◌, ◌<◌, subst,
}
use client_sdk_cpp.MediaStream.{
  MediaStream, frame_received, eos, not_set, stream_event, other_event, Call, event, reads, closes,
  read, read_front, push_frame, push_eos, close, on_ffi_event, handed, step, run, delivered, ended,
  Effect, adds_listener, removes_listener, drops_handle, notifies_one, notifies_all,
}

-- How often an effect list disposes of the handle `h`, and how often it removes the listener `l`.
abbrev pub drops : ℕ → List Effect → ℕ
drops h [] = 0
drops h (drops_handle k ∷ fx) = (if k == h then 1 else 0) + drops h fx
drops h (adds_listener k ∷ fx) = drops h fx
drops h (removes_listener k ∷ fx) = drops h fx
drops h (notifies_one ∷ fx) = drops h fx
drops h (notifies_all ∷ fx) = drops h fx

abbrev pub removals : ℕ → List Effect → ℕ
removals l [] = 0
removals l (drops_handle k ∷ fx) = removals l fx
removals l (adds_listener k ∷ fx) = removals l fx
removals l (removes_listener k ∷ fx) = (if k == l then 1 else 0) + removals l fx
removals l (notifies_one ∷ fx) = removals l fx
removals l (notifies_all ∷ fx) = removals l fx

drops-append : (h : ℕ) (xs ys : List Effect) → drops h (xs ++ ys) ≡ drops h xs + drops h ys
drops-append h [] ys = omega arith
drops-append h (drops_handle k ∷ xs) ys = omega (arith, drops-append h xs ys)
drops-append h (adds_listener k ∷ xs) ys = drops-append h xs ys
drops-append h (removes_listener k ∷ xs) ys = drops-append h xs ys
drops-append h (notifies_one ∷ xs) ys = drops-append h xs ys
drops-append h (notifies_all ∷ xs) ys = drops-append h xs ys

removals-append :
    (l : ℕ) (xs ys : List Effect) → removals l (xs ++ ys) ≡ removals l xs + removals l ys
removals-append l [] ys = omega arith
removals-append l (drops_handle k ∷ xs) ys = removals-append l xs ys
removals-append l (adds_listener k ∷ xs) ys = removals-append l xs ys
removals-append l (removes_listener k ∷ xs) ys = omega (arith, removals-append l xs ys)
removals-append l (notifies_one ∷ xs) ys = removals-append l xs ys
removals-append l (notifies_all ∷ xs) ys = removals-append l xs ys

module _ {ℓ} {A : Type ℓ} where
  -- What the stream still holds, of its handle `h` and its listener `l`; a closed stream has let go
  -- of both.
  pub record Holds (h l : ℕ) (s : MediaStream A) (dropped removed : ℕ) : Type 0 where
    pub handle : dropped + (if s.stream_handle == h then 1 else 0) ≡ 1
    pub listener : removed + (if s.listener_id == l then 1 else 0) ≡ 1
    pub kept : s.closed ≡ false → (s.stream_handle ≡ h) × (s.listener_id ≡ l)
    pub released : s.closed ≡ true → (s.stream_handle ≡ 0) × (s.listener_id ≡ 0)

  read_front-Holds :
      (h l d r : ℕ) (q : List A) (s : MediaStream A)
      → Holds h l s d r
      → Holds h l (read_front q s).1 (d + 0) (r + 0)
  unfolding read_front
  read_front-Holds h l d r [] s v = ground arith
  read_front-Holds h l d r (x ∷ q) s v = ground arith

  step-Holds :
      (h l d r : ℕ) (s : MediaStream A) (c : Call A)
      → 0 < h
      → 0 < l
      → Holds h l s d r
      → let (out, s', fx) = step s c in Holds h l s' (d + drops h fx) (r + removals l fx)
  unfolding step on_ffi_event push_eos close read push_frame
  step-Holds h l d r s (event other_event) ph pl v = ground arith
  step-Holds h l d r s (event (stream_event k (frame_received f))) ph pl v = ground arith
  step-Holds h l d r s (event (stream_event k eos)) ph pl v = ground arith
  step-Holds h l d r s (event (stream_event k not_set)) ph pl v = ground arith
  step-Holds h l d r s reads ph pl v = read_front-Holds h l d r s.queue s v
  step-Holds h l d r s closes ph pl v = ground arith

  run-Holds :
      (h l d r : ℕ) (s : MediaStream A) (calls : List (Call A))
      → 0 < h
      → 0 < l
      → Holds h l s d r
      → let (out, s', fx) = run s calls in Holds h l s' (d + drops h fx) (r + removals l fx)
  unfolding run
  run-Holds h l d r s [] ph pl v =
      let e : d + 0 ≡ d = omega arith in let e' : r + 0 ≡ r = omega arith in rw (e, e') v
  run-Holds h l d r s (c ∷ calls) ph pl v =
      let (out, s', fx) = step s c in
      let (out', s'', fx') = run s' calls in
      let e : d + drops h (fx ++ fx') ≡ d + drops h fx + drops h fx' =
        omega (arith, drops-append h fx fx') in
      let e' : r + removals l (fx ++ fx') ≡ r + removals l fx + removals l fx' =
        omega (arith, removals-append l fx fx') in
      rw (e, e')
        (run-Holds h l (d + drops h fx) (r + removals l fx) s' calls ph pl
          (step-Holds h l d r s c ph pl v))

  -- Over any sequence of calls on an open stream, the native handle is disposed of and the listener
  -- is removed exactly once if the stream was closed, and never if it was not; closing again has no
  -- further effect on them.
  pub run_releases_once :
      (s : MediaStream A) (calls : List (Call A))
      → 0 < s.stream_handle
      → 0 < s.listener_id
      → s.closed ≡ false
      → let (out, s', fx) = run s calls in
        let n : ℕ = if s'.closed then 1 else 0 in
        (drops s.stream_handle fx ≡ n) × (removals s.listener_id fx ≡ n)
  run_releases_once s calls ph pl c =
      let v = run-Holds s.stream_handle s.listener_id 0 0 s calls ph pl (record {
        handle = ground arith;
        listener = ground arith;
        kept = λ _. (refl, refl);
        released = λ e. cc;
      }) in
      ground (arith, v)

  read_front-closed :
      (q : List A) (s : MediaStream A)
      → s.closed ≡ true
      → ((read_front q s).0 ≡ ended) × ((read_front q s).1 ≡ s)
  unfolding read_front
  read_front-closed [] s c = ground arith
  read_front-closed (x ∷ q) s c = ground arith

  step-closed :
      (s : MediaStream A) (c : Call A)
      → s.closed ≡ true
      → ((step s c).0 ≡ []) × ((step s c).1.queue ≡ s.queue) × ((step s c).1.closed ≡ true)
  unfolding step on_ffi_event push_frame push_eos close read
  step-closed s (event other_event) c = (refl, refl, c)
  step-closed s (event (stream_event k (frame_received f))) c = ground arith
  step-closed s (event (stream_event k eos)) c = ground arith
  step-closed s (event (stream_event k not_set)) c = (refl, refl, c)
  step-closed s reads c = ground (arith, read_front-closed s.queue s c)
  step-closed s closes c = ground arith

  -- After `close` no call hands out a frame, although frames may still be queued, and none is added.
  run-closed :
      (s : MediaStream A) (calls : List (Call A))
      → s.closed ≡ true
      → ((run s calls).0 ≡ []) × ((run s calls).1.queue ≡ s.queue)
  unfolding run
  run-closed s [] c = (refl, refl)
  run-closed s (x ∷ calls) c =
      let (o, q, c') = step-closed s x c in
      let (o', q') = run-closed (step s x).1 calls c' in (rw (o, o') refl, q' ∙ q)

  abbrev pub times : ℕ → Call A → List (Call A)
  times zero c = []
  times (suc n) c = c ∷ times n c

  read_delivers :
      (x : A) (q : List A) (s : MediaStream A)
      → s.queue ≡ x ∷ q
      → s.closed ≡ false
      → read s ≡ (delivered x, record s { queue = q })
  unfolding read read_front
  read_delivers x q s e c = ground arith

  run_drains_at :
      (q : List A) (s : MediaStream A)
      → s.queue ≡ q
      → s.closed ≡ false
      → s.eof ≡ true
      → let (out, s', fx) = run s (times (length q) reads) in
        (out ≡ q) × (s' ≡ record s { queue = [] })
  unfolding run step
  run_drains_at [] s e c n = ground arith
  run_drains_at (x ∷ q) s e c n =
      let (o, r) = run_drains_at q (record s { queue = q }) refl c n in
      subst
        (λ p.
          (handed p.0 ++ (run p.1 (times (length q) reads)).0 ≡ x ∷ q)
          × ((run p.1 (times (length q) reads)).1 ≡ record s { queue = [] }))
        (sym (read_delivers x q s e c)) (ap (λ t. x ∷ t) o, r)

  -- A stream that has ended but is open hands out every queued frame, in order, and then reads as
  -- ended without waiting.
  run_drains :
      (s : MediaStream A)
      → s.closed ≡ false
      → s.eof ≡ true
      → let (out, s', fx) = run s (times (length s.queue) reads) in
        (out ≡ s.queue) × ((read s').0 ≡ ended)
  unfolding read read_front
  run_drains s c n = let (o, e) = run_drains_at s.queue s refl c n in (o, rw (e, n))
