-- ===== src/TokenSource/Cache.antt =====
-- The caching token source (src/token_source.cpp). The inner source is a function of the options, and
-- may be another one at each call; `valid` is `isParticipantTokenValid` at the time of the call.
pub mod Refines
use client_sdk_cpp.Prelude.{Bool, true, false, ◌&&◌, Option, none, some, if◌then◌else◌}
use client_sdk_cpp.TokenSource.{
  Bytes, TokenSourceResponse, TokenRequestOptions, TokenSourceResult, success, failure,
  token_request_options_equal,
}
use client_sdk_cpp.TokenSource.Sources.{
  Work, returns, throws, throws_unknown, run_async_token_source,
}

pub record CachingTokenSource : Type 0 where
  pub cached_options : Option TokenRequestOptions
  pub cached_details : Option TokenSourceResponse

abbrev pub new_cache : CachingTokenSource
new_cache = record { cached_options = none; cached_details = none }

-- The test before a cached response is given out.
abbrev pub reusable :
    (Bytes → Bool) → TokenRequestOptions → CachingTokenSource → Option TokenSourceResponse
reusable valid options c = elim c.cached_details [
  | none ↦ none
  | some details ↦ (elim c.cached_options [
    | none ↦ none
    | some cached ↦
        (if token_request_options_equal cached options && valid details.participant_token
          then some details
          else none)
  ])
]

-- What `fetch` keeps of the inner source's result.
abbrev pub keep : TokenRequestOptions → Work → CachingTokenSource → CachingTokenSource
keep options (returns (success details)) c = record {
  cached_options = some options;
  cached_details = some details;
}
keep options (returns (failure text)) c = c
keep options (throws what) c = c
keep options throws_unknown c = c

-- The work of `fetch`, which holds the mutex throughout: the result, whether the inner source was
-- asked, and the cache.
unfoldable pub caching_fetch :
    (Bytes → Bool)
    → (TokenRequestOptions → Work)
    → TokenRequestOptions
    → CachingTokenSource
    → (TokenSourceResult × Bool) × CachingTokenSource
caching_fetch valid inner options c = elim (reusable valid options c) [
  | some details ↦ ((success details, false), c)
  | none ↦
      let work = inner options in
      ((run_async_token_source "token source cache fetch failed" work, true), keep options work c)
]

unfoldable pub invalidate : CachingTokenSource → CachingTokenSource
invalidate c = new_cache

unfoldable pub cached_response : CachingTokenSource → Option TokenSourceResponse
cached_response c = c.cached_details
