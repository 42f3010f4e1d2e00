-- ===== src/Dispatcher/Counts.antt =====
-- How often a thread occurs in the dispatcher's maps, and how their operations change it.
use client_sdk_cpp.Prelude.{
  ℕ, true, List, [], ◌∷◌, ◌++◌, none, some, if◌then◌else◌, ◌+◌, String, ◌≡◌, refl, arith,
  ◌==◌ as eqb,
}
use client_sdk_cpp.Prelude.Assoc.{lookup, insert, erase, nat_eq, string_eq, Distinct, erase_absent}
use client_sdk_cpp.Dispatcher.{Key, key_eq, ActiveReader, ActiveDataReader, waits_for, remove_one}
use client_sdk_cpp.Dispatcher.DataTracks.{
  keep_readers, taken_readers, data_threads, reader_values, threads, set_stream,
}

-- How many times a thread occurs.
abbrev pub count : ℕ → List ℕ → ℕ
count t [] = 0
count t (x ∷ xs) = (if eqb x t then 1 else 0) + count t xs

pub count-remove_one :
    (t u : ℕ) (xs : List ℕ)
    → waits_for u xs ≡ true
    → count t (remove_one u xs) + count t (u ∷ []) ≡ count t xs
count-remove_one t u [] h = absurd cc
count-remove_one t u (x ∷ xs) h = ground (arith, count-remove_one t u xs)

pub count-append : (t : ℕ) (xs ys : List ℕ) → count t (xs ++ ys) ≡ count t xs + count t ys
count-append t [] ys = omega arith
count-append t (x ∷ xs) ys = omega (arith, count-append t xs ys)

abbrev pub readers_count : ℕ → List (Key × ActiveReader) → ℕ
readers_count t m = count t (threads (reader_values m))

abbrev pub data_count : ℕ → List (ℕ × ActiveDataReader) → ℕ
data_count t m = count t (data_threads (reader_values m))

pub readers_count-erase :
    (t : ℕ) (k : Key) (r : ActiveReader) (m : List (Key × ActiveReader))
    → Distinct m
    → lookup k m ≡ some r
    → count t (r.thread ∷ []) + readers_count t (erase k m) ≡ readers_count t m
unfolding lookup erase
readers_count-erase t k r [] d h = cc
readers_count-erase t k r ((j, s) ∷ m) d h =
    ground (arith, key_eq.same_iff j k, readers_count-erase t k r m d.1, erase_absent k m)

pub readers_count-insert :
    (t : ℕ) (k : Key) (r : ActiveReader) (m : List (Key × ActiveReader))
    → lookup k m ≡ none
    → readers_count t (insert k r m) ≡ count t (r.thread ∷ []) + readers_count t m
unfolding lookup insert
readers_count-insert t k r [] h = ground arith
readers_count-insert t k r ((j, s) ∷ m) h = ground (arith, readers_count-insert t k r m)

pub data_count-erase :
    (t k : ℕ) (r : ActiveDataReader) (m : List (ℕ × ActiveDataReader))
    → Distinct m
    → lookup k m ≡ some r
    → count t (r.thread ∷ []) + data_count t (erase k m) ≡ data_count t m
unfolding lookup erase
data_count-erase t k r [] d h = cc
data_count-erase t k r ((j, s) ∷ m) d h =
    ground (arith, nat_eq.same_iff j k, data_count-erase t k r m d.1, erase_absent k m)

pub data_count-insert :
    (t k : ℕ) (r : ActiveDataReader) (m : List (ℕ × ActiveDataReader))
    → lookup k m ≡ none
    → data_count t (insert k r m) ≡ count t (r.thread ∷ []) + data_count t m
unfolding lookup insert
data_count-insert t k r [] h = ground arith
data_count-insert t k r ((j, s) ∷ m) h = ground (arith, data_count-insert t k r m)

pub data_count-keep :
    (t : ℕ) (sid : String) (m : List (ℕ × ActiveDataReader))
    → count t (data_threads (taken_readers sid m)) + data_count t (keep_readers sid m)
      ≡ data_count t m
data_count-keep t sid [] = refl
data_count-keep t sid ((j, s) ∷ m) = ground (arith, data_count-keep t sid m)

pub keep-absent :
    (k : ℕ) (sid : String) (m : List (ℕ × ActiveDataReader))
    → lookup k m ≡ none
    → lookup k (keep_readers sid m) ≡ none
unfolding lookup
keep-absent k sid [] h = refl
keep-absent k sid ((j, s) ∷ m) h = ground (arith, keep-absent k sid m)

pub keep-Distinct :
    (sid : String) (m : List (ℕ × ActiveDataReader)) → Distinct m → Distinct (keep_readers sid m)
keep-Distinct sid [] h = tt
keep-Distinct sid ((j, s) ∷ m) h = ground (arith, keep-absent j sid m h.0, keep-Distinct sid m h.1)

pub data_count-set_stream :
    (t u stream : ℕ) (m : List (ℕ × ActiveDataReader))
    → data_count t (set_stream u stream m) ≡ data_count t m
data_count-set_stream t u stream [] = refl
data_count-set_stream t u stream ((j, s) ∷ m) = ground (arith, data_count-set_stream t u stream m)

pub set_stream-absent :
    (k u stream : ℕ) (m : List (ℕ × ActiveDataReader))
    → lookup k m ≡ none
    → lookup k (set_stream u stream m) ≡ none
unfolding lookup
set_stream-absent k u stream [] h = refl
set_stream-absent k u stream ((j, s) ∷ m) h = ground (arith, set_stream-absent k u stream m)

pub set_stream-Distinct :
    (u stream : ℕ) (m : List (ℕ × ActiveDataReader)) → Distinct m → Distinct (set_stream u stream m)
set_stream-Distinct u stream [] h = tt
set_stream-Distinct u stream ((j, s) ∷ m) h =
    ground (arith, set_stream-absent j u stream m h.0, set_stream-Distinct u stream m h.1)
