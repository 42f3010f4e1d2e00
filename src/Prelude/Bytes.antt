-- ===== src/Prelude/Bytes.antt =====
-- Texts as bytes, and numbers as `std::ostream` prints them.
use Prim.Native.Nat.{ℕ, zero, suc, ◌+◌, ◌/◌, ◌%◌}
use Prim.Native.Char.{code}
use Prim.Native.String.{String}
use mathlib.Core.List.{List, [], ◌∷◌}
use client_sdk_cpp.Prelude.Tests.{if◌then◌else◌, ltb}
use client_sdk_cpp.Prelude.Lists.{length}

-- The bytes of an ASCII text.
abbrev pub codes : String → List ℕ
codes String.[] = []
codes (String.◌∷◌ c s) = code c ∷ codes s

-- A digit, in lower case.
abbrev pub digit : ℕ → ℕ
digit d = if ltb d 10 then d + 48 else d + 87

-- The digits of `n`, the last one first, with as many rounds as fuel.
unfoldable pub digits_from : ℕ → ℕ → ℕ → List ℕ → List ℕ
digits_from base zero n later = later
digits_from base (suc fuel) n later =
    let rest = digits_from base fuel (n / base) (digit (n % base) ∷ later) in
    if ltb n base then digit n ∷ later else rest

-- 64-bit numbers have 20 decimal and 16 hexadecimal digits at most.
unfoldable pub decimal : ℕ → List ℕ
unfolding digits_from
decimal n = digits_from 10 20 n []

unfoldable pub hexadecimal : ℕ → List ℕ
unfolding digits_from
hexadecimal n = digits_from 16 16 n []

-- `std::setw` and `std::setfill('0')`
unfoldable pub pad_zeros : ℕ → List ℕ → List ℕ
pad_zeros zero text = text
pad_zeros (suc width) text = if ltb width (length text) then text else 48 ∷ pad_zeros width text
