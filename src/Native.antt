-- ===== src/Native.antt =====
-- What becomes of a request to the native library, for the classes that ask it and wait.
use client_sdk_cpp.Prelude.{Option, none, some, String, Bool, false, not}
use client_sdk_cpp.Prelude.Assoc.{◌==◌, string_eq}

-- `sendRequest` throws, the response lacks the request's part, or it has it.
pub data Reply {ℓ} (A : Type ℓ) : Type ℓ where
  fails : String → Reply A
  lacks_part : Reply A
  answers : A → Reply A

pub data Done {ℓ} (A : Type ℓ) : Type ℓ where
  returns : A → Done A
  throws : String → Done A

-- `has_error() && !error().empty()`
abbrev pub has_text : Option String → Bool
has_text none = false
has_text (some text) = not (text == "")
