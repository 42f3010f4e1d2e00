-- ===== src/TokenSource.antt =====
-- Token sources (src/token_source.cpp, src/token_source_json.cpp, src/token_source_jwt.cpp and
-- include/livekit/token_source.h): the types that their files share, and the equality of requests.
--
-- A text that the code looks into is a list of bytes; a key or a message is a string.
pub mod Base64
pub mod Json
pub mod Jwt
pub mod Sources
pub mod Url
pub mod Cache
use client_sdk_cpp.Prelude.{
  ℕ, Bool, true, false, ◌&&◌, List, [], ◌∷◌, Option, none, some, String, ◌≡◌, ◌↔◌, refl, ap, arith,
}
use client_sdk_cpp.Prelude.Assoc.{Comparable, ◌==◌, nat_eq}

module _ {ℓ} {A : Type ℓ} ⦃c : Comparable A⦄ where
  abbrev pub same_option : Option A → Option A → Bool
  same_option none none = true
  same_option (some x) (some y) = x == y
  same_option _ _ = false

  abbrev pub same_list : List A → List A → Bool
  same_list [] [] = true
  same_list (x ∷ xs) (y ∷ ys) = (x == y) && same_list xs ys
  same_list _ _ = false

  pub same_option_iff : (a b : Option A) → (same_option a b ≡ true) ↔ (a ≡ b)
  same_option_iff none none = ground arith
  same_option_iff none (some y) = ground arith
  same_option_iff (some x) none = ground arith
  same_option_iff (some x) (some y) = ground (arith, c.same_iff x y)

  pub same_list_iff : (xs ys : List A) → (same_list xs ys ≡ true) ↔ (xs ≡ ys)
  same_list_iff [] [] = ground arith
  same_list_iff [] (y ∷ ys) = ground arith
  same_list_iff (x ∷ xs) [] = ground arith
  same_list_iff (x ∷ xs) (y ∷ ys) = ground (arith, c.same_iff x y, same_list_iff xs ys)

abbrev pub Bytes : Type 0
Bytes = List ℕ

instance abbrev pub bytes_eq : Comparable Bytes
bytes_eq = record { same = same_list; same_iff = same_list_iff }

instance abbrev pub optional_bytes_eq : Comparable (Option Bytes)
optional_bytes_eq = record { same = same_option; same_iff = same_option_iff }

abbrev same_entry : Bytes × Bytes → Bytes × Bytes → Bool
same_entry (j, v) (k, w) = (j == k) && (v == w)

same_entry_iff : (a b : Bytes × Bytes) → (same_entry a b ≡ true) ↔ (a ≡ b)
same_entry_iff (j, v) (k, w) = ground (arith, bytes_eq.same_iff j k, bytes_eq.same_iff v w)

instance abbrev entry_eq : Comparable (Bytes × Bytes)
entry_eq = record { same = same_entry; same_iff = same_entry_iff }

instance abbrev attributes_eq : Comparable (List (Bytes × Bytes))
attributes_eq = record { same = same_list; same_iff = same_list_iff }

pub record TokenSourceResponse : Type 0 where
  pub server_url : Bytes
  pub participant_token : Bytes
  pub participant_name : Option Bytes
  pub room_name : Option Bytes

-- `participant_attributes` is a `std::map`: its entries in the order of their keys.
pub record TokenRequestOptions : Type 0 where
  pub room_name : Option Bytes
  pub participant_name : Option Bytes
  pub participant_identity : Option Bytes
  pub participant_metadata : Option Bytes
  pub participant_attributes : List (Bytes × Bytes)
  pub agent_name : Option Bytes
  pub agent_metadata : Option Bytes
  pub agent_deployment : Option Bytes

-- `Result<TokenSourceResponse, TokenSourceError>`
pub data TokenSourceResult : Type 0 where
  success : TokenSourceResponse → TokenSourceResult
  failure : String → TokenSourceResult

unfoldable pub token_request_options_equal : TokenRequestOptions → TokenRequestOptions → Bool
token_request_options_equal a b =
    (a.room_name == b.room_name)
    && (a.participant_name == b.participant_name)
    && (a.participant_identity == b.participant_identity)
    && (a.participant_metadata == b.participant_metadata)
    && (a.participant_attributes == b.participant_attributes)
    && (a.agent_name == b.agent_name)
    && (a.agent_metadata == b.agent_metadata)
    && (a.agent_deployment == b.agent_deployment)

and_iff {p q} :
    {P : Type p} {Q : Type q} {b c : Bool}
    → (b ≡ true) ↔ P
    → (c ≡ true) ↔ Q
    → ((b && c) ≡ true) ↔ (P × Q)
and_iff {b = true} {c} (to, from) (to', from') = ((λ h. (to refl, to' h)), (λ h. from' h.1))
and_iff {b = false} {c} (to, from) (to', from') = ((λ h. absurd cc), (λ h. from h.0))

pub token_request_options_equal_iff :
    (a b : TokenRequestOptions) → (token_request_options_equal a b ≡ true) ↔ (a ≡ b)
unfolding token_request_options_equal
token_request_options_equal_iff a b =
    let same = optional_bytes_eq.same_iff in
    let fields =
      and_iff
        (and_iff
          (and_iff
            (and_iff
              (and_iff
                (and_iff
                  (and_iff (same a.room_name b.room_name)
                    (same a.participant_name b.participant_name))
                  (same a.participant_identity b.participant_identity))
                (same a.participant_metadata b.participant_metadata))
              (attributes_eq.same_iff a.participant_attributes b.participant_attributes))
            (same a.agent_name b.agent_name))
          (same a.agent_metadata b.agent_metadata))
        (same a.agent_deployment b.agent_deployment) in
    (
      (λ h. let (((((((e1, e2), e3), e4), e5), e6), e7), e8) = fields.0 h in cc),
      (λ h. fields.1 (
        (
          (
            (
              (
                (
                  (ap (λ o. o.room_name) h, ap (λ o. o.participant_name) h),
                  ap (λ o. o.participant_identity) h,
                ),
                ap (λ o. o.participant_metadata) h,
              ),
              ap (λ o. o.participant_attributes) h,
            ),
            ap (λ o. o.agent_name) h,
          ),
          ap (λ o. o.agent_metadata) h,
        ),
        ap (λ o. o.agent_deployment) h,
      )),
    )
