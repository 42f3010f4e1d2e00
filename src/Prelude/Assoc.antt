-- ===== src/Prelude/Assoc.antt =====
-- Dictionaries as association lists: `std::map` and `std::unordered_map` with the operations that
-- the sources use. The order of the entries stands for the iteration order, which no theorem fixes.
use client_sdk_cpp.Prelude.Tests.{
  Bool-cases, option_rule, if_rule, if◌then◌else◌, ==_iff, ◌==◌ as nat_beq,
}
use client_sdk_cpp.Prelude.Lists.{length}
use Prim.Native.Nat.{ℕ, ◌+◌, ◌≤◌}
use Prim.Native.String.{String}
use mathlib.Core.Path.{◌≡◌, refl, sym, ◌∙◌, subst}
use mathlib.Core.Logic.{◌↔◌, inl, inr}
use mathlib.Core.Bool.{Bool, true}
use mathlib.Core.Option.{Option, none, some}
use mathlib.Core.List.{List, [], ◌∷◌}
use native.Mathlib.Omega.{arith}
use text.Mathlib.Text.{◌==◌ as str_beq}
use text.Mathlib.TextEquality.{eq_iff}

-- The key types of the dictionaries, with the test that `==` of the sources is.
pub record Comparable {ℓ} (K : Type ℓ) : Type ℓ where
  pub same : K → K → Bool
  pub same_iff : (j k : K) → (same j k ≡ true) ↔ (j ≡ k)

instance abbrev pub string_eq : Comparable String
string_eq = record { same = str_beq; same_iff = eq_iff }

infix 50 ◌==◌
abbrev pub ◌==◌ {ℓ} : {K : Type ℓ} ⦃c : Comparable K⦄ → K → K → Bool
◌==◌ ⦃c⦄ j k = c.same j k

instance abbrev pub nat_eq : Comparable ℕ
nat_eq = record { same = nat_beq; same_iff = ==_iff }

pub beq_refl {ℓ} : {K : Type ℓ} ⦃e : Comparable K⦄ (k : K) → (k == k) ≡ true
beq_refl ⦃e⦄ k = (e.same_iff k k).1 refl

module _ {ℓ κ} {K : Type ℓ} ⦃e : Comparable K⦄ {V : Type κ} where
  -- `it = m.find(k)`, as the value that `it` points to.
  unfoldable pub lookup : K → List (K × V) → Option V
  lookup k [] = none
  lookup k ((j, v) ∷ m) = if j == k then some v else lookup k m

  -- `m[k] = v`
  unfoldable pub insert : K → V → List (K × V) → List (K × V)
  insert k v [] = (k, v) ∷ []
  insert k v ((j, w) ∷ m) = if j == k then (j, v) ∷ m else (j, w) ∷ insert k v m

  -- `m.erase(k)`
  unfoldable pub erase : K → List (K × V) → List (K × V)
  erase k [] = []
  erase k ((j, w) ∷ m) = let rest = erase k m in if j == k then rest else (j, w) ∷ rest

  -- `m.emplace(k, v)`: an entry that is there stays.
  unfoldable pub emplace : K → V → List (K × V) → List (K × V)
  emplace k v m = elim (lookup k m) [ none ↦ (k, v) ∷ m | some w ↦ m ]

  pub lookup-insert :
      (new key : K) (value : V) (dict : List (K × V))
      → lookup key (insert new value dict) ≡ (if new == key then some value else lookup key dict)
  unfolding insert lookup
  lookup-insert new key value [] = refl
  lookup-insert new key value ((old, w) ∷ dict) = ground (
    arith,
    e.same_iff new key,
    e.same_iff old new,
    e.same_iff old key,
    lookup-insert new key value dict,
  )

  pub lookup-insert_self : (k : K) (v : V) (m : List (K × V)) → lookup k (insert k v m) ≡ some v
  lookup-insert_self k v m = rw (lookup-insert k k v m, beq_refl k)

  pub lookup-erase :
      (k j : K) (m : List (K × V)) → lookup j (erase k m) ≡ (if k == j then none else lookup j m)
  unfolding lookup erase
  lookup-erase k j [] = ground arith
  lookup-erase k j ((i, w) ∷ m) =
      ground (arith, e.same_iff k j, e.same_iff i k, e.same_iff i j, lookup-erase k j m)

  pub lookup-erase_self : (k : K) (m : List (K × V)) → lookup k (erase k m) ≡ none
  lookup-erase_self k m = rw (lookup-erase k k m, beq_refl k)

  pub lookup-emplace :
      (k j : K) (v : V) (m : List (K × V))
      → lookup j (emplace k v m)
        ≡ (elim (lookup j m) [ some w ↦ some w | none ↦ if k == j then some v else none ])
  unfolding lookup emplace
  lookup-emplace k j v m = ground (arith, e.same_iff k j)

  -- No key has two entries.
  abbrev pub Distinct : List (K × V) → Type κ
  Distinct [] = Unit
  Distinct ((k, v) ∷ m) = (lookup k m ≡ none) × Distinct m

  pub insert-Distinct : (k : K) (v : V) (m : List (K × V)) → Distinct m → Distinct (insert k v m)
  unfolding lookup insert
  insert-Distinct k v [] h = (refl, tt)
  insert-Distinct k v ((i, w) ∷ m) h =
      ground
        (arith, e.same_iff i k, e.same_iff k i, lookup-insert k i v m, insert-Distinct k v m h.1)

  pub erase-Distinct : (k : K) (m : List (K × V)) → Distinct m → Distinct (erase k m)
  unfolding erase
  erase-Distinct k [] h = tt
  erase-Distinct k ((i, w) ∷ m) h =
      ground (arith, e.same_iff k i, e.same_iff i k, lookup-erase k i m, erase-Distinct k m h.1)

  pub emplace-Distinct : (k : K) (v : V) (m : List (K × V)) → Distinct m → Distinct (emplace k v m)
  unfolding emplace
  emplace-Distinct k v m h = ground arith

  pub length-erase-le : (k : K) (m : List (K × V)) → length (erase k m) ≤ length m
  unfolding erase
  length-erase-le k [] = omega arith
  length-erase-le k ((i, w) ∷ m) = ground (arith, length-erase-le k m)

  pub length-insert :
      (k : K) (v : V) (m : List (K × V))
      → length (insert k v m) ≡ (elim (lookup k m) [ some w ↦ length m | none ↦ length m + 1 ])
  unfolding insert lookup
  length-insert k v [] = omega arith
  length-insert k v ((i, w) ∷ m) = ground (arith, length-insert k v m)

  pub length-insert-le : (k : K) (v : V) (m : List (K × V)) → length (insert k v m) ≤ length m + 1
  length-insert-le k v m = ground (arith, length-insert k v m)

  pub erase_absent : (k : K) (m : List (K × V)) → lookup k m ≡ none → erase k m ≡ m
  unfolding erase lookup
  erase_absent k [] h = refl
  erase_absent k ((i, w) ∷ m) h = ground (arith, erase_absent k m)

  -- What holds of each entry.
  abbrev pub Each {μ} : (K → V → Type μ) → List (K × V) → Type μ
  Each P [] = Unit
  Each P ((k, v) ∷ m) = P k v × Each P m

  pub Each-lookup {μ} :
      (P : K → V → Type μ) (k : K) (v : V) (m : List (K × V))
      → Each P m
      → lookup k m ≡ some v
      → P k v
  unfolding lookup
  Each-lookup P k v [] h l = absurd cc
  Each-lookup P k v ((j, w) ∷ m) (p, h) l = elim (Bool-cases (j == k)) [
    | inl same ↦
        let found : lookup k ((j, w) ∷ m) ≡ some w = rw same refl in
        let value : w ≡ v = cc in subst (λ i. P i v) ((e.same_iff j k).0 same) (subst (P j) value p)
    | inr differ ↦
        let skipped : lookup k ((j, w) ∷ m) ≡ lookup k m = rw differ refl in
        Each-lookup P k v m h (sym skipped ∙ l)
  ]

  pub Each-insert {μ} :
      (P : K → V → Type μ) (k : K) (v : V) (m : List (K × V))
      → P k v
      → Each P m
      → Each P (insert k v m)
  unfolding insert
  Each-insert P k v [] p h = (p, tt)
  Each-insert P k v ((j, w) ∷ m) p (q, h) =
      if_rule {A = List (K × V)} (Each P) (j == k)
        (λ same. (subst (λ i. P i v) (sym ((e.same_iff j k).0 same)) p, h))
        (λ _. (q, Each-insert P k v m p h))

  pub Each-erase {μ} :
      (P : K → V → Type μ) (k : K) (m : List (K × V)) → Each P m → Each P (erase k m)
  unfolding erase
  Each-erase P k [] h = tt
  Each-erase P k ((j, w) ∷ m) (q, h) =
      if_rule {A = List (K × V)} (Each P) (j == k) (λ _. Each-erase P k m h)
        (λ _. (q, Each-erase P k m h))

  pub Each-emplace {μ} :
      (P : K → V → Type μ) (k : K) (v : V) (m : List (K × V))
      → P k v
      → Each P m
      → Each P (emplace k v m)
  unfolding emplace
  Each-emplace P k v m p h =
      option_rule {B = List (K × V)} (Each P) (lookup k m) (λ _. (p, h)) (λ _ _. h)
