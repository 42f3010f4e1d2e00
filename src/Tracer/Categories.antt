-- ===== src/Tracer/Categories.antt =====
-- Which categories are traced: `EventTracer::GetCategoryEnabled` of src/trace/event_tracer.cpp, where
-- no custom tracer is set.
pub mod Covered
use client_sdk_cpp.Prelude.{
  ℕ, Bool, true, false, ◌&&◌, ◌||◌, not, List, [], ◌∷◌, ◌++◌, Option, none, some, if◌then◌else◌,
  ◌==◌, ◌≡◌, ◌≢◌, ◌⊎◌, ◌↔◌, inl, inr, refl, sym, ap, ◌∙◌, subst, arith, take, drop, length, ==_iff,
  take-append-drop, Bool-cases, zero, suc, All, is_some,
}
use client_sdk_cpp.Tracer.{Tracer}

unfoldable pub same_bytes : List ℕ → List ℕ → Bool
same_bytes [] [] = true
same_bytes [] (d ∷ ds) = false
same_bytes (c ∷ cs) [] = false
same_bytes (c ∷ cs) (d ∷ ds) = c == d && same_bytes cs ds

-- `g_enabled_categories.count(category_name) > 0`
unfoldable pub contains : List (List ℕ) → List ℕ → Bool
contains [] name = false
contains (category ∷ rest) name = same_bytes category name || contains rest name

-- `pattern.back()`; of an empty text there is none.
unfoldable pub back : List ℕ → Option ℕ
back [] = none
back (c ∷ []) = some c
back (c ∷ d ∷ cs) = back (d ∷ cs)

-- `pattern.substr(0, pattern.size() - 1)`
unfoldable pub without_last : List ℕ → List ℕ
without_last [] = []
without_last (c ∷ []) = []
without_last (c ∷ d ∷ cs) = c ∷ without_last (d ∷ cs)

-- `category_name.compare(0, prefix.size(), prefix) == 0`
unfoldable pub has_prefix : List ℕ → List ℕ → Bool
unfolding same_bytes
has_prefix name prefix = same_bytes (take (length prefix) name) prefix

-- One round of the loop. An empty pattern has no last character, and reading it is undefined.
abbrev pub pattern_at : Option ℕ → List ℕ → List ℕ → Option Bool
pattern_at none name pattern = none
pattern_at (some c) name pattern = some (c == 42 && has_prefix name (without_last pattern))

unfoldable pub matches_pattern : List ℕ → List ℕ → Option Bool
matches_pattern name pattern = pattern_at (back pattern) name pattern

abbrev pub or_next : Option Bool → Option Bool → Option Bool
or_next none next = none
or_next (some true) next = some true
or_next (some false) next = next

unfoldable pub matches_any : List ℕ → List (List ℕ) → Option Bool
matches_any name [] = some false
matches_any name (pattern ∷ rest) = or_next (matches_pattern name pattern) (matches_any name rest)

abbrev pub no_categories : List (List ℕ) → Bool
no_categories [] = true
no_categories (category ∷ rest) = false

abbrev pub enabled_in : Bool → List (List ℕ) → List ℕ → Option Bool
enabled_in tracing cats name =
    if not tracing
    then some false
    else (if no_categories cats || contains cats name then some true else matches_any name cats)

unfoldable pub get_category_enabled : Tracer → List ℕ → Option Bool
get_category_enabled s name = enabled_in s.tracing_enabled s.enabled_categories name
