-- ===== src/DataStream/Split/Utf8.antt =====
-- UTF-8 as a predicate on byte lists, and the places where a text may be cut.
use client_sdk_cpp.Prelude.{
  ℕ, zero, suc, ◌≤◌, ◌<◌, ◌≡◌, List, [], ◌∷◌, arith, true, false, inl, inr, length, take, drop, ◌⊎◌,
}
use client_sdk_cpp.DataStream.Split.{is_continuation, byte_at}

abbrev pub IsLead : ℕ → Type 0
IsLead c = is_continuation c ≡ false

abbrev pub IsTail : ℕ → Type 0
IsTail c = is_continuation c ≡ true

-- UTF-8: code points of one to four bytes, of which all but the first are continuation bytes.
pub data Utf8 : List ℕ → Type 0 where
  empty : Utf8 []
  one : (a : ℕ) {s : List ℕ} → IsLead a → Utf8 s → Utf8 (a ∷ s)
  two : (a b : ℕ) {s : List ℕ} → IsLead a → IsTail b → Utf8 s → Utf8 (a ∷ b ∷ s)
  three : (a b c : ℕ) {s : List ℕ} → IsLead a → IsTail b → IsTail c → Utf8 s → Utf8 (a ∷ b ∷ c ∷ s)
  four :
      (a b c d : ℕ) {s : List ℕ}
      → IsLead a
      → IsTail b
      → IsTail c
      → IsTail d
      → Utf8 s
      → Utf8 (a ∷ b ∷ c ∷ d ∷ s)

-- A place between two code points, or an end of the text.
abbrev pub IsBoundary : List ℕ → ℕ → Type 0
IsBoundary s k = (length s ≤ k) ⊎ IsLead (byte_at s k)

IsBoundary-tail : (a : ℕ) (s : List ℕ) (k : ℕ) → IsBoundary (a ∷ s) (suc k) → IsBoundary s k
IsBoundary-tail a s k (inl h) = inl (omega arith)
IsBoundary-tail a s k (inr h) = inr h

not_boundary : (s : List ℕ) (k : ℕ) → k < length s → IsTail (byte_at s k) → IsBoundary s k → ⊥
not_boundary s k h t (inl e) = omega arith
not_boundary s k h t (inr l) = cc

-- Cutting at a boundary leaves two well-formed texts.
pub cut-Utf8 : {s : List ℕ} → Utf8 s → (k : ℕ) → IsBoundary s k → Utf8 (take k s) × Utf8 (drop k s)
cut-Utf8 w zero h = (empty, w)
cut-Utf8 empty (suc k) h = (empty, empty)
cut-Utf8 (one a {s = s} la w) (suc k) h =
    let (l, r) = cut-Utf8 w k (IsBoundary-tail a s k h) in (one a la l, r)
cut-Utf8 (two a b {s = s} la tb w) (suc zero) h =
    absurd (not_boundary (a ∷ b ∷ s) 1 (omega arith) tb h)
cut-Utf8 (two a b {s = s} la tb w) (suc (suc k)) h =
    let h1 = IsBoundary-tail a (b ∷ s) (suc k) h in
    let (l, r) = cut-Utf8 w k (IsBoundary-tail b s k h1) in (two a b la tb l, r)
cut-Utf8 (three a b c {s = s} la tb tc w) (suc zero) h =
    absurd (not_boundary (a ∷ b ∷ c ∷ s) 1 (omega arith) tb h)
cut-Utf8 (three a b c {s = s} la tb tc w) (suc (suc zero)) h =
    absurd (not_boundary (a ∷ b ∷ c ∷ s) 2 (omega arith) tc h)
cut-Utf8 (three a b c {s = s} la tb tc w) (suc (suc (suc k))) h =
    let h1 = IsBoundary-tail a (b ∷ c ∷ s) (suc (suc k)) h in
    let h2 = IsBoundary-tail b (c ∷ s) (suc k) h1 in
    let (l, r) = cut-Utf8 w k (IsBoundary-tail c s k h2) in (three a b c la tb tc l, r)
cut-Utf8 (four a b c d {s = s} la tb tc td w) (suc zero) h =
    absurd (not_boundary (a ∷ b ∷ c ∷ d ∷ s) 1 (omega arith) tb h)
cut-Utf8 (four a b c d {s = s} la tb tc td w) (suc (suc zero)) h =
    absurd (not_boundary (a ∷ b ∷ c ∷ d ∷ s) 2 (omega arith) tc h)
cut-Utf8 (four a b c d {s = s} la tb tc td w) (suc (suc (suc zero))) h =
    absurd (not_boundary (a ∷ b ∷ c ∷ d ∷ s) 3 (omega arith) td h)
cut-Utf8 (four a b c d {s = s} la tb tc td w) (suc (suc (suc (suc k)))) h =
    let h1 = IsBoundary-tail a (b ∷ c ∷ d ∷ s) (suc (suc (suc k))) h in
    let h2 = IsBoundary-tail b (c ∷ d ∷ s) (suc (suc k)) h1 in
    let h3 = IsBoundary-tail c (d ∷ s) (suc k) h2 in
    let (l, r) = cut-Utf8 w k (IsBoundary-tail d s k h3) in (four a b c d la tb tc td l, r)

pub head-IsLead : {s : List ℕ} → Utf8 s → 0 < length s → IsLead (byte_at s 0)
head-IsLead empty h = absurd (omega arith)
head-IsLead (one a l w) h = l
head-IsLead (two a b l tb w) h = l
head-IsLead (three a b c l tb tc w) h = l
head-IsLead (four a b c d l tb tc td w) h = l

-- A code point has four bytes at most: the next one starts within four.
pub next-IsLead :
    {s : List ℕ} → Utf8 s → 4 < length s → (k : ℕ) × (0 < k) × (k ≤ 4) × IsLead (byte_at s k)
next-IsLead empty h = absurd (omega arith)
next-IsLead (one a la w) h = (1, omega arith, omega arith, head-IsLead w (omega arith))
next-IsLead (two a b la tb w) h = (2, omega arith, omega arith, head-IsLead w (omega arith))
next-IsLead (three a b c la tb tc w) h = (3, omega arith, omega arith, head-IsLead w (omega arith))
next-IsLead (four a b c d la tb tc td w) h =
    (4, omega arith, omega arith, head-IsLead w (omega arith))
