-- ===== src/Tracer/Categories/Covered.antt =====
-- The categories that an enabled category covers.
use client_sdk_cpp.Prelude.{
  ℕ, Bool, true, false, ◌&&◌, ◌||◌, List, [], ◌∷◌, ◌++◌, Option, none, some, ◌==◌, ◌≡◌, ◌≢◌, ◌⊎◌,
  ◌↔◌, inl, inr, refl, sym, ap, ◌∙◌, subst, arith, take, drop, length, take-append-drop, Bool-cases,
  All,
}
use client_sdk_cpp.Tracer.{Tracer}
use client_sdk_cpp.Tracer.Categories.{
  same_bytes, contains, back, without_last, has_prefix, pattern_at, matches_pattern, or_next,
  matches_any, enabled_in, get_category_enabled,
}

same_bytes-eq : (cs ds : List ℕ) → same_bytes cs ds ≡ true → cs ≡ ds
unfolding same_bytes
same_bytes-eq [] [] h = refl
same_bytes-eq [] (d ∷ ds) h = absurd cc
same_bytes-eq (c ∷ cs) [] h = absurd cc
same_bytes-eq (c ∷ cs) (d ∷ ds) h = ground (arith, same_bytes-eq cs ds)

same_bytes_self : (cs : List ℕ) → same_bytes cs cs ≡ true
unfolding same_bytes
same_bytes_self [] = refl
same_bytes_self (c ∷ cs) = ground (arith, same_bytes_self cs)

-- What a category of the enabled ones says of a name: it is the name, or it ends in `*` and what is
-- before that begins the name.
abbrev pub Covers : List ℕ → List ℕ → Type 0
Covers name category =
    (category ≡ name)
    ⊎ ((prefix : List ℕ) × (rest : List ℕ) × (category ≡ prefix ++ 42 ∷ [])
        × (name ≡ prefix ++ rest))

abbrev pub Some : {A : Type 0} → (A → Type 0) → List A → Type 0
Some P [] = ⊥
Some P (x ∷ xs) = P x ⊎ Some P xs

back_split : (p : List ℕ) (c : ℕ) → back p ≡ some c → p ≡ without_last p ++ c ∷ []
unfolding back without_last
back_split [] c h = absurd cc
back_split (d ∷ []) c h = ground arith
back_split (d ∷ e ∷ cs) c h = ap (◌∷◌ d) (back_split (e ∷ cs) c h)

back-append : (p : List ℕ) (c : ℕ) → back (p ++ c ∷ []) ≡ some c
unfolding back
back-append [] c = refl
back-append (d ∷ []) c = refl
back-append (d ∷ e ∷ cs) c = back-append (e ∷ cs) c

without_last-append : (p : List ℕ) (c : ℕ) → without_last (p ++ c ∷ []) ≡ p
unfolding without_last
without_last-append [] c = refl
without_last-append (d ∷ []) c = refl
without_last-append (d ∷ e ∷ cs) c = ap (◌∷◌ d) (without_last-append (e ∷ cs) c)

take-append : (p rest : List ℕ) → take (length p) (p ++ rest) ≡ p
take-append [] rest = refl
take-append (c ∷ p) rest = ap (◌∷◌ c) (take-append p rest)

-- A pattern covers a name by its star.
Starred : List ℕ → List ℕ → Type 0
Starred name category =
    (prefix : List ℕ) × (rest : List ℕ) × (category ≡ prefix ++ 42 ∷ []) × (name ≡ prefix ++ rest)

Starred-yes :
    (name pattern : List ℕ) → Starred name pattern → matches_pattern name pattern ≡ some true
unfolding Starred matches_pattern has_prefix
Starred-yes name pattern (prefix, rest, p, n) =
    let last : back pattern ≡ some 42 = ap back p ∙ back-append prefix 42 in
    let front : without_last pattern ≡ prefix = ap without_last p ∙ without_last-append prefix 42 in
    let begin : has_prefix name prefix ≡ true =
      ap (λ x. same_bytes x prefix) (ap (take (length prefix)) n ∙ take-append prefix rest)
      ∙ same_bytes_self prefix in
    ap (λ o. pattern_at o name pattern) last
    ∙ ap (λ x. some (has_prefix name x)) front
    ∙ ap some begin

Starred-at :
    (o : Option ℕ) (name pattern : List ℕ)
    → back pattern ≡ o
    → pattern_at o name pattern ≡ some true
    → Starred name pattern
unfolding Starred has_prefix
Starred-at none name pattern e h = absurd cc
Starred-at (some c) name pattern e h =
    let prefix = without_last pattern in
    let both : c == 42 && same_bytes (take (length prefix) name) prefix ≡ true = ground arith in
    let star : c ≡ 42 = ground arith in
    let begin : same_bytes (take (length prefix) name) prefix ≡ true = ground arith in
    (
      prefix,
      drop (length prefix) name,
      back_split pattern c e ∙ ap (λ x. prefix ++ x ∷ []) star,
      sym (take-append-drop (length prefix) name)
          ∙ ap (λ x. x ++ drop (length prefix) name) (same_bytes-eq _ _ begin),
    )

Starred-no :
    (name pattern : List ℕ) → matches_pattern name pattern ≡ some true → Starred name pattern
unfolding matches_pattern
Starred-no name pattern h = Starred-at (back pattern) name pattern refl h

back-some : (p : List ℕ) → p ≢ [] → (c : ℕ) × (back p ≡ some c)
unfolding back
back-some [] h = absurd (h refl)
back-some (c ∷ []) h = (c, refl)
back-some (c ∷ d ∷ cs) h = back-some (d ∷ cs) (λ e. cc)

pattern_defined :
    (name pattern : List ℕ) → pattern ≢ [] → (b : Bool) × (matches_pattern name pattern ≡ some b)
unfolding matches_pattern
pattern_defined name pattern h =
    let (c, e) = back-some pattern h in
    (c == 42 && has_prefix name (without_last pattern), ap (λ o. pattern_at o name pattern) e)

or_true : (b : Bool) → or_next (some b) (some true) ≡ some true
or_true true = refl
or_true false = refl

any_at :
    (o : Option Bool) (next : Option Bool)
    → or_next o next ≡ some true
    → (o ≡ some true) ⊎ (next ≡ some true)
any_at none next h = absurd cc
any_at (some true) next h = inl refl
any_at (some false) next h = inr h

any_no :
    (name : List ℕ) (cats : List (List ℕ))
    → matches_any name cats ≡ some true
    → Some (Starred name) cats
unfolding matches_any
any_no name [] h = absurd cc
any_no name (c ∷ cats) h = elim (any_at (matches_pattern name c) (matches_any name cats) h) [
  | inl e ↦ inl (Starred-no name c e)
  | inr e ↦ inr (any_no name cats e)
]

any_yes :
    (name : List ℕ) (cats : List (List ℕ))
    → All (λ c. c ≢ []) cats
    → Some (Starred name) cats
    → matches_any name cats ≡ some true
unfolding matches_any
any_yes name [] h x = elim x [ ]
any_yes name (c ∷ cats) h (inl x) =
    ap (λ o. or_next o (matches_any name cats)) (Starred-yes name c x)
any_yes name (c ∷ cats) (h, hs) (inr x) =
    let (b, e) = pattern_defined name c h in
    let next = any_yes name cats hs x in
    ap (λ o. or_next o (matches_any name cats)) e ∙ ap (or_next (some b)) next ∙ or_true b

contains_no :
    (cats : List (List ℕ)) (name : List ℕ) → contains cats name ≡ true → Some (λ c. c ≡ name) cats
unfolding contains
contains_no [] name h = absurd cc
contains_no (c ∷ cats) name h = elim (Bool-cases (same_bytes c name)) [
  | inl e ↦ inl (same_bytes-eq c name e)
  | inr e ↦ inr (contains_no cats name (ground arith))
]

contains_yes :
    (cats : List (List ℕ)) (name : List ℕ) → Some (λ c. c ≡ name) cats → contains cats name ≡ true
unfolding contains
contains_yes [] name x = elim x [ ]
contains_yes (c ∷ cats) name (inl e) =
    let same : same_bytes c name ≡ true =
      subst (λ x. same_bytes c x ≡ true) e (same_bytes_self c) in
    ap (λ b. b || contains cats name) same
contains_yes (c ∷ cats) name (inr e) = ground (arith, contains_yes cats name e)

Some-map :
    {A : Type 0} (P Q : A → Type 0) (xs : List A) → ((x : A) → P x → Q x) → Some P xs → Some Q xs
Some-map P Q [] f x = elim x [ ]
Some-map P Q (x ∷ xs) f (inl p) = inl (f x p)
Some-map P Q (x ∷ xs) f (inr p) = inr (Some-map P Q xs f p)

Some-split :
    {A : Type 0} (P Q : A → Type 0) (xs : List A) → Some (λ x. P x ⊎ Q x) xs → Some P xs ⊎ Some Q xs
Some-split P Q [] x = elim x [ ]
Some-split P Q (x ∷ xs) (inl (inl p)) = inl (inl p)
Some-split P Q (x ∷ xs) (inl (inr q)) = inr (inl q)
Some-split P Q (x ∷ xs) (inr r) = elim (Some-split P Q xs r) [
  | inl p ↦ inl (inr p)
  | inr q ↦ inr (inr q)
]

Enabled : Bool → List (List ℕ) → List ℕ → Type 0
Enabled tracing cats name = (tracing ≡ true) × ((cats ≡ []) ⊎ Some (Covers name) cats)

Enabled-no :
    (tracing : Bool) (cats : List (List ℕ)) (name : List ℕ)
    → enabled_in tracing cats name ≡ some true
    → Enabled tracing cats name
unfolding Enabled Starred
Enabled-no false cats name h = absurd cc
Enabled-no true [] name h = (refl, inl refl)
Enabled-no true (c ∷ cats) name h = elim (Bool-cases (contains (c ∷ cats) name)) [
  | inl e ↦ (
    refl,
    inr (
        Some-map (λ x. x ≡ name) (Covers name) (c ∷ cats) (λ x p. inl p)
          (contains_no (c ∷ cats) name e)),
  )
  | inr e ↦ (
    refl,
    inr (
        Some-map (Starred name) (Covers name) (c ∷ cats) (λ x p. inr p)
          (any_no name (c ∷ cats) (ground arith))),
  )
]

Enabled-yes :
    (tracing : Bool) (cats : List (List ℕ)) (name : List ℕ)
    → All (λ c. c ≢ []) cats
    → Enabled tracing cats name
    → enabled_in tracing cats name ≡ some true
unfolding Enabled Starred
Enabled-yes false cats name h (t, c) = absurd cc
Enabled-yes true [] name h c = refl
Enabled-yes true (d ∷ cats) name h (t, inl e) = absurd cc
Enabled-yes true (d ∷ cats) name h (t, inr c) =
    elim (Some-split (λ x. x ≡ name) (Starred name) (d ∷ cats) c) [
      | inl p ↦ let found = contains_yes (d ∷ cats) name p in ground arith
      | inr q ↦ let matched = any_yes name (d ∷ cats) h q in ground arith
    ]

-- Where no enabled category is the empty text: a category is traced exactly if the tracing is on and
-- either no category was named when it began, or one of those named is this one, or ends in a star and
-- begins this one with what stands before the star.
pub get_category_enabled-Covers :
    (s : Tracer) (name : List ℕ)
    → All (λ c. c ≢ []) s.enabled_categories
    → (get_category_enabled s name ≡ some true) ↔ (
        (s.tracing_enabled ≡ true)
        × ((s.enabled_categories ≡ []) ⊎ Some (Covers name) s.enabled_categories))
unfolding get_category_enabled Enabled
get_category_enabled-Covers s name h = (
  Enabled-no s.tracing_enabled s.enabled_categories name,
  Enabled-yes s.tracing_enabled s.enabled_categories name h,
)
