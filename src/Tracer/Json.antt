-- ===== src/Tracer/Json.antt =====
-- The JSON text of an event (src/trace/event_tracer.cpp). Texts are lists of bytes, and `char` is
-- signed, so that bytes from 128 on are no control characters.
pub mod Reading
use client_sdk_cpp.Prelude.{
  ℕ, zero, suc, List, [], ◌∷◌, ◌++◌, if◌then◌else◌, ◌==◌, ltb, ◌+◌, ◌-◌, ◌%◌, ◌^◌, Bool, ◌||◌,
}
use client_sdk_cpp.Prelude.Bytes.{codes, decimal, hexadecimal, pad_zeros}

pub record Arg : Type 0 where
  pub name : List ℕ
  pub type : ℕ
  pub value : ℕ
  pub string_value : List ℕ

-- `TraceEventData`; of the arguments there is room for two, and `num_args` may be larger.
pub record TraceEventData : Type 0 where
  pub phase : ℕ
  pub category : List ℕ
  pub name : List ℕ
  pub id : ℕ
  pub timestamp_us : ℕ
  pub pid : ℕ
  pub tid : ℕ
  pub flags : ℕ
  pub num_args : ℕ
  pub args : List Arg

-- One round of the loop.
unfoldable pub escape_char : ℕ → List ℕ
escape_char c =
    if c == 34
    then 92 ∷ 34 ∷ []
    else (if c == 92
        then 92 ∷ 92 ∷ []
        else (if c == 8
            then 92 ∷ b'b' ∷ []
            else (if c == 12
                then 92 ∷ b'f' ∷ []
                else (if c == 10
                    then 92 ∷ b'n' ∷ []
                    else (if c == 13
                        then 92 ∷ b'r' ∷ []
                        else (if c == 9
                            then 92 ∷ b't' ∷ []
                            else (if ltb c 32
                                then 92 ∷ b'u' ∷ pad_zeros 4 (hexadecimal c)
                                else c ∷ [])))))))

unfoldable pub json_escape : List ℕ → List ℕ
json_escape [] = []
json_escape (c ∷ s) = escape_char c ++ json_escape s

-- `"` around a text, where the source writes it so.
abbrev pub quoted : List ℕ → List ℕ
quoted text = 34 ∷ (text ++ 34 ∷ [])

-- The value as an `int64_t`.
unfoldable pub signed_decimal : ℕ → List ℕ
signed_decimal value = if ltb value (2 ^ 63) then decimal value else b'-' ∷ decimal (2 ^ 64 - value)

abbrev pub is_string_type : ℕ → Bool
is_string_type type = type == 6 || type == 7

-- The timestamp counts from the start of the trace, as a `uint64_t`.
unfoldable pub trace_timestamp : ℕ → ℕ → ℕ
trace_timestamp timestamp_us start_time = (timestamp_us + 2 ^ 64 - start_time) % 2 ^ 64

module _ (print_double : ℕ → List ℕ) where
  -- The double with these bits is printed by `print_double`.
  unfoldable pub arg_value_to_json : Arg → List ℕ
  arg_value_to_json arg =
      if arg.type == 1
      then (if arg.value == 0 then codes "false" else codes "true")
      else (if arg.type == 2
          then decimal arg.value
          else (if arg.type == 3
              then signed_decimal arg.value
              else (if arg.type == 4
                  then print_double arg.value
                  else (if arg.type == 5
                      then quoted (codes "0x" ++ hexadecimal arg.value)
                      else (if is_string_type arg.type
                          then quoted (json_escape arg.string_value)
                          else decimal arg.value)))))

  arg_json : Arg → List ℕ
  arg_json arg = quoted (json_escape arg.name) ++ (58 ∷ arg_value_to_json arg)

  -- `for (int i = 0; i < event.num_args && i < 2; ++i)`; there are two of the arguments at most.
  args_json : List Arg → List ℕ
  args_json [] = []
  args_json (arg ∷ []) = arg_json arg
  args_json (arg ∷ other ∷ _) = arg_json arg ++ (44 ∷ arg_json other)

  -- `oss << ",\"args\":{" ... "}"`
  args_part : TraceEventData → List ℕ
  args_part event =
      if event.num_args == 0 then [] else codes ",\"args\":{" ++ (args_json event.args ++ codes "}")

  unfoldable pub format_event_json : TraceEventData → ℕ → List ℕ
  unfolding args_part args_json arg_json
  format_event_json event start_time =
      let id =
        if event.id == 0 then [] else codes ",\"id\":\"0x" ++ (hexadecimal event.id ++ 34 ∷ []) in
      codes "{\"ph\":\""
      ++ (event.phase
          ∷ (codes "\",\"cat\":"
              ++ (quoted (json_escape event.category)
                  ++ (codes ",\"name\":"
                      ++ (quoted (json_escape event.name)
                          ++ (codes ",\"ts\":"
                              ++ (decimal (trace_timestamp event.timestamp_us start_time)
                                  ++ (codes ",\"pid\":"
                                      ++ (decimal event.pid
                                          ++ (codes ",\"tid\":"
                                              ++ (decimal event.tid
                                                  ++ (id
                                                      ++ (args_part event ++ codes "}")))))))))))))
