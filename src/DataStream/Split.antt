-- ===== src/DataStream/Split.antt =====
-- `splitUtf8` of src/data_stream.cpp. A `std::string` is the list of its bytes, each below 256.
-- The two inner `while` loops recur on `end`, which they only decrease; the outer loop takes fuel.
pub mod Chunks
pub mod Utf8
pub mod Boundaries
pub mod LastPoint
use client_sdk_cpp.Prelude.{
  ℕ, zero, suc, ◌+◌, ◌-◌, ◌/◌, min, Bool, ◌&&◌, List, [], ◌∷◌, ltb, ◌==◌, if◌then◌else◌, length,
  get_or, take, drop,
}

-- `(c & 0xC0) == 0x80`: the two top bits of the byte are `10`.
unfoldable pub is_continuation : ℕ → Bool
is_continuation c = c / 64 == 2

-- `s[k]`; every read below is at an index under `s.size()`.
abbrev pub byte_at : List ℕ → ℕ → ℕ
byte_at s k = get_or s k 0

-- while (end > i && end < n && is_continuation(s[end])) --end;
unfoldable pub back_to_lead : List ℕ → ℕ → ℕ → ℕ
back_to_lead s i zero = 0
back_to_lead s i (suc e) =
    let rest = back_to_lead s i e in
    if ltb i (suc e) && ltb (suc e) (length s) && is_continuation (byte_at s (suc e))
    then rest
    else suc e

-- while (end > i && end == n && is_continuation(s[end - 1])) --end;
unfoldable pub back_off_end : List ℕ → ℕ → ℕ → ℕ
back_off_end s i zero = 0
back_off_end s i (suc e) =
    let rest = back_off_end s i e in
    if ltb i (suc e) && suc e == length s && is_continuation (byte_at s e) then rest else suc e

-- Where the chunk that starts at `i` ends.
unfoldable pub chunk_end : List ℕ → ℕ → ℕ → ℕ
chunk_end s max_bytes i =
    let limit = min (i + max_bytes) (length s) in
    let stop = back_off_end s i (back_to_lead s i limit) in if stop == i then limit else stop

-- `s.substr(i, stop - i)`
abbrev pub slice : List ℕ → ℕ → ℕ → List ℕ
slice s i stop = take (stop - i) (drop i s)

-- `while (i < n)`
unfoldable pub split_from : ℕ → List ℕ → ℕ → ℕ → List (List ℕ)
split_from zero s max_bytes i = []
split_from (suc fuel) s max_bytes i =
    let stop = chunk_end s max_bytes i in
    let chunks = slice s i stop ∷ split_from fuel s max_bytes stop in
    if ltb i (length s) then chunks else []

unfoldable pub split_utf8 : List ℕ → ℕ → List (List ℕ)
split_utf8 s max_bytes = split_from (length s) s max_bytes 0
