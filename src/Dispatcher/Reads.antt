-- ===== src/Dispatcher/Reads.antt =====
-- Which stream a thread of src/subscription_thread_dispatcher.cpp reads, and how operations on the map
-- of the active readers change it.
use client_sdk_cpp.Prelude.{
  ℕ, Bool, true, false, ◌&&◌, ◌||◌, List, [], ◌∷◌, ◌++◌, none, some, ◌≡◌, ◌⊎◌, refl, arith,
}
use client_sdk_cpp.Prelude.Assoc.{lookup, insert, erase, nat_eq, string_eq, ◌==◌, Distinct}
use client_sdk_cpp.Dispatcher.{Key, key_eq, ActiveReader, waits_for, streams}
use client_sdk_cpp.Dispatcher.DataTracks.{reader_values, all_streams}

-- Whether an active reader has this thread and this stream.
abbrev pub reads_now : ℕ → ℕ → List (Key × ActiveReader) → Bool
reads_now t s [] = false
reads_now t s ((k, r) ∷ m) = ((r.thread == t) && waits_for s (streams r)) || reads_now t s m

abbrev pub ActiveOrClosed : List (Key × ActiveReader) → List ℕ → ℕ × ℕ → Type 0
ActiveOrClosed m closed (t, s) = (reads_now t s m ≡ true) ⊎ (waits_for s closed ≡ true)

pub waits_for-right :
    (s : ℕ) (xs ys : List ℕ) → waits_for s ys ≡ true → waits_for s (xs ++ ys) ≡ true
waits_for-right s [] ys h = h
waits_for-right s (x ∷ xs) ys h = ground (arith, waits_for-right s xs ys h)

pub waits_for-left :
    (s : ℕ) (xs ys : List ℕ) → waits_for s xs ≡ true → waits_for s (xs ++ ys) ≡ true
waits_for-left s [] ys h = absurd cc
waits_for-left s (x ∷ xs) ys h = ground (arith, waits_for-left s xs ys)

pub reads_now-absent :
    (t s : ℕ) (k : Key) (m : List (Key × ActiveReader))
    → lookup k m ≡ none
    → reads_now t s (erase k m) ≡ reads_now t s m
unfolding lookup erase
reads_now-absent t s k [] h = refl
reads_now-absent t s k ((j, r) ∷ m) h = ground (arith, reads_now-absent t s k m)

pub reads_now-erase :
    (t s : ℕ) (k : Key) (r : ActiveReader) (m : List (Key × ActiveReader))
    → Distinct m
    → lookup k m ≡ some r
    → reads_now t s m ≡ true
    → (reads_now t s (erase k m) ≡ true) ⊎ (waits_for s (streams r) ≡ true)
unfolding lookup erase
reads_now-erase t s k r [] d h e = absurd cc
reads_now-erase t s k r ((j, q) ∷ m) d h e =
    ground (arith, key_eq.same_iff j k, reads_now-absent t s k m, reads_now-erase t s k r m d.1)

pub reads_now-insert :
    (t s : ℕ) (k : Key) (r : ActiveReader) (m : List (Key × ActiveReader))
    → lookup k m ≡ none
    → reads_now t s (insert k r m)
      ≡ (((r.thread == t) && waits_for s (streams r)) || reads_now t s m)
unfolding lookup insert
reads_now-insert t s k r [] h = refl
reads_now-insert t s k r ((j, q) ∷ m) h = ground (arith, reads_now-insert t s k r m)

pub reads_now-all :
    (t s : ℕ) (m : List (Key × ActiveReader))
    → reads_now t s m ≡ true
    → waits_for s (all_streams (reader_values m)) ≡ true
reads_now-all t s [] h = absurd cc
reads_now-all t s ((j, q) ∷ m) h = ground (
  arith,
  reads_now-all t s m,
  waits_for-left s (streams q) (all_streams (reader_values m)),
  waits_for-right s (streams q) (all_streams (reader_values m)),
)
