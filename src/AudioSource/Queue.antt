-- ===== src/AudioSource/Queue.antt =====
-- What an audio source tells of its queue, against a queue that plays its frames as time goes by.
use client_sdk_cpp.Prelude.{
  Bool-cases, subst, sym, ap, ◌∙◌, Bool, true, false, leb, ◌&&◌, ◌⊎◌, inl, inr, ℕ, List, [], ◌∷◌,
  Option, none, some, if◌then◌else◌, ◌==◌, ◌+◌, ◌-◌, ◌*◌, ◌≤◌, ◌≡◌, refl, arith,
}
use client_sdk_cpp.AudioSource.{
  AudioSource, millis, Reply, queued_duration, reset_queue_tracking, track_queue, capture_frame,
  capture_from, submit,
}

-- A capture: the time since the one before, the samples, the deadline and what becomes of the request.
pub record Capture : Type 0 where
  pub pause : ℕ
  pub samples : ℕ
  pub timeout : ℕ
  pub reply : Reply

-- The source after the captures, and the time of the last one.
unfoldable pub run : List Capture → ℕ → AudioSource → AudioSource × ℕ
run [] now s = (s, now)
run (c ∷ captures) now s =
    let now' = now + c.pause in
    run captures now' (capture_frame now' c.samples (millis c.timeout) s c.reply).2

-- What is left to play after the captures: time takes away what there is, a frame adds its samples.
unfoldable pub backlog : ℕ → List Capture → ℕ → ℕ
backlog sample_time [] left = left
backlog sample_time (c ∷ captures) left =
    backlog sample_time captures ((left - c.pause) + c.samples * sample_time)

-- Whether the queue never runs dry before a capture.
unfoldable pub busy : ℕ → List Capture → ℕ → Bool
busy sample_time [] left = true
busy sample_time (c ∷ captures) left =
    leb c.pause left && busy sample_time captures ((left - c.pause) + c.samples * sample_time)

-- No more than `left`, at the time `now`.
Below : ℕ → ℕ → AudioSource → Type 0
Below now left s =
    (s.last_capture ≤ now)
    × (s.q_size - (now - s.last_capture) ≤ left)
    × ((1 ≤ s.last_capture) ⊎ (s.q_size ≡ 0))

-- Just `left`, at the time `now`.
Exact : ℕ → ℕ → AudioSource → Type 0
Exact now left s =
    (s.last_capture ≤ now)
    × (((1 ≤ s.last_capture) × (s.q_size + s.last_capture ≡ left + now))
        ⊎ ((s.last_capture ≡ 0) × (s.q_size ≡ 0) × (left ≡ 0)))

below_tracked :
    (q last d now left p : ℕ)
    → 1 ≤ now
    → last ≤ now
    → q - (now - last) ≤ left
    → (1 ≤ last) ⊎ (q ≡ 0)
    → ((q + d) - (if last == 0 then 0 else (now + p) - last)) - ((now + p) - (now + p))
      ≤ (left - p) + d
below_tracked q last d now left p h b c e = ground arith

exact_tracked :
    (q last d now left p : ℕ)
    → last ≤ now
    → p ≤ left
    → ((1 ≤ last) × (q + last ≡ left + now)) ⊎ ((last ≡ 0) × (q ≡ 0) × (left ≡ 0))
    → ((q + d) - (if last == 0 then 0 else (now + p) - last)) + (now + p)
      ≡ ((left - p) + d) + (now + p)
exact_tracked q last d now left p b h e = ground arith

submitted : (h ms : ℕ) (s : AudioSource) (r : Reply) → (submit h ms s r).2 ≡ s
submitted h ms s r = ground arith

-- What a capture leaves.
after : Option ℕ → ℕ → ℕ → AudioSource → AudioSource
after none now samples s = s
after (some h) now samples s = if samples == 0 then s else track_queue now samples s

captured :
    (o : Option ℕ) (now samples ms : ℕ) (s : AudioSource) (r : Reply)
    → (capture_from o now samples ms s r).2 ≡ after o now samples s
unfolding after
captured none now samples ms s r = refl
captured (some h) now samples ms s r = ground (arith, submitted h ms (track_queue now samples s) r)

still_below :
    (q last now left p d : ℕ)
    → last ≤ now
    → q - (now - last) ≤ left
    → q - ((now + p) - last) ≤ (left - p) + d
still_below q last now left p d b c = omega arith

after-Below :
    (o : Option ℕ) (now left p : ℕ) (s : AudioSource) (samples : ℕ)
    → 1 ≤ now
    → Below now left s
    → Below (now + p) ((left - p) + samples * s.sample_time) (after o (now + p) samples s)
unfolding Below after track_queue
after-Below none now left p s samples h (b, c, e) =
    (omega arith, still_below s.q_size s.last_capture now left p (samples * s.sample_time) b c, e)
after-Below (some _) now left p s samples h (b, c, e) =
    let tracked =
      below_tracked s.q_size s.last_capture (samples * s.sample_time) now left p h b c e in
    let same = still_below s.q_size s.last_capture now left p (samples * s.sample_time) b c in
    ground arith

after-Exact :
    (h now left p : ℕ) (s : AudioSource) (samples : ℕ)
    → 1 ≤ now
    → p ≤ left
    → Exact now left s
    → Exact (now + p) ((left - p) + samples * s.sample_time) (after (some h) (now + p) samples s)
unfolding Exact after track_queue
after-Exact h now left p s samples one le (b, e) =
    let tracked =
      exact_tracked s.q_size s.last_capture (samples * s.sample_time) now left p b le e in
    ground arith

-- A source with this handle and this length of a sample.
Same : ℕ → ℕ → AudioSource → Type 0
Same h sample_time s = (s.handle ≡ some h) × (s.sample_time ≡ sample_time)

after-Same :
    (h u now samples : ℕ) (s : AudioSource) → Same h u s → Same h u (after (some h) now samples s)
unfolding Same after track_queue
after-Same h u now samples s e = ground arith

step-after :
    (h u now : ℕ) (s : AudioSource) (c : Capture)
    → Same h u s
    → (capture_frame now c.samples (millis c.timeout) s c.reply).2 ≡ after (some h) now c.samples s
unfolding Same capture_frame
step-after h u now s c (e, _) =
    captured s.handle now c.samples c.timeout s c.reply ∙ ap (λ o. after o now c.samples s) e

-- The state of the queue after a capture, from its state after `after`.
kept :
    (P : ℕ → ℕ → AudioSource → Type 0) (h u now' left : ℕ) (s : AudioSource) (c : Capture)
    → Same h u s
    → P now' (left + c.samples * s.sample_time) (after (some h) now' c.samples s)
    → let s' = (capture_frame now' c.samples (millis c.timeout) s c.reply).2 in
      Same h u s' × P now' (left + c.samples * u) s'
unfolding Same
kept P h u now' left s c same b =
    let eq = sym (step-after h u now' s c same) in
    (
      subst (Same h u) eq (after-Same h u now' c.samples s same),
      subst (P now' (left + c.samples * u)) eq
          (subst (λ t. P now' (left + c.samples * t) (after (some h) now' c.samples s)) same.1 b),
    )

run-Below :
    (h u now left : ℕ) (captures : List Capture) (s : AudioSource)
    → 1 ≤ now
    → Same h u s
    → Below now left s
    → let (s', now') = run captures now s in Below now' (backlog u captures left) s'
unfolding run backlog
run-Below h u now left [] s one same b = b
run-Below h u now left (c ∷ captures) s one same b =
    let (same', b') =
      kept Below h u (now + c.pause) (left - c.pause) s c same
        (after-Below (some h) now left c.pause s c.samples one b) in
    run-Below h u (now + c.pause) _ captures _ (omega arith) same' b'

run-Exact :
    (h u now left : ℕ) (captures : List Capture) (s : AudioSource)
    → 1 ≤ now
    → Same h u s
    → Exact now left s
    → busy u captures left ≡ true
    → let (s', now') = run captures now s in Exact now' (backlog u captures left) s'
unfolding run backlog busy
run-Exact h u now left [] s one same b t = b
run-Exact h u now left (c ∷ captures) s one same b t =
    let le : c.pause ≤ left = ground arith in
    let rest : busy u captures ((left - c.pause) + c.samples * u) ≡ true = ground arith in
    let (same', b') =
      kept Exact h u (now + c.pause) (left - c.pause) s c same
        (after-Exact h now left c.pause s c.samples one le b) in
    run-Exact h u (now + c.pause) _ captures _ (omega arith) same' b' rest

queued_duration-Below :
    (now left rest : ℕ) (s : AudioSource)
    → Below now left s
    → queued_duration s (now + rest) ≤ left - rest
unfolding Below queued_duration
queued_duration-Below now left rest s b = ground arith

queued_duration-Exact :
    (now left rest : ℕ) (s : AudioSource)
    → Exact now left s
    → queued_duration s (now + rest) ≡ left - rest
unfolding Exact queued_duration
queued_duration-Exact now left rest s b = ground arith

-- Whatever frames are captured by a source that has captured none yet or whose tracking was reset,
-- whatever the native library makes of them, at times after the clock's zero: then and at any later
-- time the source tells of no more than what a queue that plays the frames as time goes by has left.
-- It tells of just that if no capture came later than the queue had run dry, the first one not waiting.
pub queued_duration_tracks :
    (h now rest : ℕ) (captures : List Capture) (s : AudioSource)
    → 1 ≤ now
    → s.handle ≡ some h
    → let (s', now') = run captures now (reset_queue_tracking s) in
      let left = backlog s.sample_time captures 0 - rest in
      (queued_duration s' (now' + rest) ≤ left)
      × ((busy s.sample_time captures 0 ≡ false) ⊎ (queued_duration s' (now' + rest) ≡ left))
unfolding Same Below Exact reset_queue_tracking
queued_duration_tracks h now rest captures s one e =
    let u = s.sample_time in
    let fresh = reset_queue_tracking s in
    let below =
      run-Below h u now 0 captures fresh one (e, refl) (omega arith, omega arith, inr refl) in
    (
      queued_duration-Below _ _ rest _ below,
      elim (Bool-cases (busy u captures 0)) [
        | inl t ↦ inr (
            queued_duration-Exact _ _ rest _ (
              run-Exact h u now 0 captures fresh one (e, refl) (omega arith, inr (refl, refl, refl))
                t))
        | inr f ↦ inl f
      ],
    )
