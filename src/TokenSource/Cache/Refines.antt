-- ===== src/TokenSource/Cache/Refines.antt =====
-- The caching token source keeps what its own answers say: the last success since it was invalidated.
use mathlib.Core.Option.{map}
use client_sdk_cpp.Prelude.{
  ◌∙◌, Bool-cases, ◌&&◌, ◌↔◌, subst, ◌⊎◌, inl, inr, String, sym, ap, Bool, true, false, List, [],
  ◌∷◌, Option, none, some, ◌≡◌, refl, arith,
}
use client_sdk_cpp.TokenSource.{
  Bytes, TokenSourceResponse, TokenRequestOptions, TokenSourceResult, success, failure,
  token_request_options_equal, token_request_options_equal_iff,
}
use client_sdk_cpp.TokenSource.Sources.{
  Work, returns, throws, throws_unknown, run_async_token_source,
}
use client_sdk_cpp.TokenSource.Cache.{
  CachingTokenSource, new_cache, keep, caching_fetch, invalidate, cached_response,
}

-- A call of the cache, with what it meets.
pub data Call : Type 0 where
  fetches : (Bytes → Bool) → (TokenRequestOptions → Work) → TokenRequestOptions → Call
  invalidates : Call

-- What the caller saw.
pub data Seen : Type 0 where
  fetched : TokenRequestOptions → TokenSourceResult → Seen
  invalidated : Seen

-- The calls in their order, with what was seen before, the latest first.
abbrev pub run : List Call → CachingTokenSource × List Seen → CachingTokenSource × List Seen
run [] s = s
run (fetches valid inner options ∷ calls) (c, seen) =
    let ((result, _), c') = caching_fetch valid inner options c in
    run calls (c', fetched options result ∷ seen)
run (invalidates ∷ calls) (c, seen) = run calls (invalidate c, invalidated ∷ seen)

-- The abstract view: the last success since the cache was invalidated, with its options.
unfoldable pub last_success : List Seen → Option (TokenRequestOptions × TokenSourceResponse)
last_success [] = none
last_success (fetched options (success details) ∷ seen) = some (options, details)
last_success (fetched options (failure text) ∷ seen) = last_success seen
last_success (invalidated ∷ seen) = none

-- The cache that stands for a memory.
abbrev concrete : Option (TokenRequestOptions × TokenSourceResponse) → CachingTokenSource
concrete none = new_cache
concrete (some (options, details)) = record {
  cached_options = some options;
  cached_details = some details;
}

cached_details-concrete :
    (memory : Option (TokenRequestOptions × TokenSourceResponse))
    → (concrete memory).cached_details ≡ map (λ m. m.1) memory
cached_details-concrete none = refl
cached_details-concrete (some m) = refl

keep_lem :
    (options : TokenRequestOptions) (work : Work)
    (m : Option (TokenRequestOptions × TokenSourceResponse)) (seen : List Seen) (context : String)
    → last_success seen ≡ m
    → keep options work (concrete m)
      ≡ concrete (last_success (fetched options (run_async_token_source context work) ∷ seen))
unfolding last_success
keep_lem options (returns (success details)) m seen context e = refl
keep_lem options (returns (failure text)) m seen context e = ap concrete (sym e)
keep_lem options (throws what) m seen context e = ap concrete (sym e)
keep_lem options throws_unknown m seen context e = ap concrete (sym e)

fetch_keeps :
    (valid : Bytes → Bool) (inner : TokenRequestOptions → Work) (options : TokenRequestOptions)
    (m : Option (TokenRequestOptions × TokenSourceResponse)) (seen : List Seen)
    → last_success seen ≡ m
    → let ((result, _), c') = caching_fetch valid inner options (concrete m) in
      c' ≡ concrete (last_success (fetched options result ∷ seen))
unfolding caching_fetch last_success
fetch_keeps valid inner options none seen e = keep_lem options (inner options) none seen _ e
fetch_keeps valid inner options (some (cached, details)) seen e =
    let kept = keep_lem options (inner options) (some (cached, details)) seen in
    ground (
      arith,
      token_request_options_equal_iff cached options,
      kept "token source cache fetch failed" e,
    )

run_keeps :
    (calls : List Call) (c : CachingTokenSource) (seen : List Seen)
    → c ≡ concrete (last_success seen)
    → (run calls (c, seen)).0 ≡ concrete (last_success (run calls (c, seen)).1)
unfolding last_success invalidate
run_keeps [] c seen e = e
run_keeps (fetches valid inner options ∷ calls) c seen e =
    let kept = fetch_keeps valid inner options (last_success seen) seen refl in
    run_keeps calls _ _ (
      subst
        (λ d.
          let ((result, _), d') = caching_fetch valid inner options d in
          d' ≡ concrete (last_success (fetched options result ∷ seen)))
        (sym e) kept)
run_keeps (invalidates ∷ calls) c seen e = run_keeps calls new_cache (invalidated ∷ seen) refl

-- A memory that answers a fetch: it is for the same options, and its token is valid.
abbrev pub Answers :
    (Bytes → Bool)
    → TokenRequestOptions
    → Option (TokenRequestOptions × TokenSourceResponse)
    → TokenSourceResponse
    → Type 0
Answers valid options memory details =
    (memory ≡ some (options, details)) × (valid details.participant_token ≡ true)

-- What a fetch gives: the memory's response without asking the inner source, if it answers the fetch,
-- and the inner source's answer otherwise.
abbrev pub Given :
    (Bytes → Bool)
    → (TokenRequestOptions → Work)
    → TokenRequestOptions
    → Option (TokenRequestOptions × TokenSourceResponse)
    → TokenSourceResult × Bool
    → Type 0
Given valid inner options memory (result, asked) =
    ((details : TokenSourceResponse) × Answers valid options memory details
      × (result ≡ success details)
      × (asked ≡ false))
    ⊎ ((¬ ((details : TokenSourceResponse) × Answers valid options memory details))
        × (result ≡ run_async_token_source "token source cache fetch failed" (inner options))
        × (asked ≡ true))

Answers-iff :
    (valid : Bytes → Bool) (options cached : TokenRequestOptions) (details : TokenSourceResponse)
    → ((token_request_options_equal cached options && valid details.participant_token) ≡ true)
      ↔ Answers valid options (some (cached, details)) details
Answers-iff valid options cached details =
    let same = token_request_options_equal_iff cached options in
    (
      (λ h.
          let e : cached ≡ options = ground (arith, same) in
          (ap (λ o. some (o, details)) e, ground arith)),
      (λ (e, v). let e' : cached ≡ options = cc in ground (arith, same)),
    )

only_details :
    (valid : Bytes → Bool) (options cached : TokenRequestOptions)
    (details other : TokenSourceResponse)
    → Answers valid options (some (cached, details)) other
    → other ≡ details
only_details valid options cached details other (e, v) = cc

fetch-Given :
    (valid : Bytes → Bool) (inner : TokenRequestOptions → Work) (options : TokenRequestOptions)
    (memory : Option (TokenRequestOptions × TokenSourceResponse))
    → Given valid inner options memory (caching_fetch valid inner options (concrete memory)).0
unfolding caching_fetch
fetch-Given valid inner options none = inr ((λ (d, (e, _)). absurd cc), refl, refl)
fetch-Given valid inner options (some (cached, details)) =
    let same = Answers-iff valid options cached details in
    elim (Bool-cases
      (token_request_options_equal cached options && valid details.participant_token)) [
        | inl e ↦ rw (e, caching_fetch) (inl (details, same.0 e, refl, refl))
        | inr e ↦
            rw (e, caching_fetch)
              (inr (
                (λ (d, a).
                    let same_details = only_details valid options cached details d a in
                    let b =
                      same.1
                        (subst (Answers valid options (some (cached, details))) same_details a) in
                    absurd cc),
                refl,
                refl,
              ))
      ]

-- Whatever calls the caching source has had, its cached response is that of the last success since it
-- was invalidated. A fetch gives that response, and does not ask the inner source, if it was for the
-- same options and its token is valid; otherwise it asks the inner source and gives its answer.
pub caching_fetch_refines :
    (calls : List Call) (valid : Bytes → Bool) (inner : TokenRequestOptions → Work)
    (options : TokenRequestOptions)
    → let (c, seen) = run calls (new_cache, []) in
      (cached_response c ≡ map (λ m. m.1) (last_success seen))
      × Given valid inner options (last_success seen) (caching_fetch valid inner options c).0
unfolding cached_response last_success
caching_fetch_refines calls valid inner options =
    let seen = (run calls (new_cache, [])).1 in
    let kept = run_keeps calls new_cache [] refl in
    (
      ap (λ c. c.cached_details) kept ∙ cached_details-concrete (last_success seen),
      subst
          (λ c.
            Given valid inner options (last_success seen) (caching_fetch valid inner options c).0)
          (sym kept) (fetch-Given valid inner options (last_success seen)),
    )
