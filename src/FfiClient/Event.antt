-- ===== src/FfiClient/Event.antt =====
-- The events of the native library, as far as `ExtractAsyncId` looks at them, and which of them
-- answer a request. The message types are generated from the protocol; an event is its case and the
-- `async_id` of its message (0 where the message has none).
use client_sdk_cpp.Prelude.{
  ℕ, Bool, true, false, Option, none, some, ◌≡◌, ◌↔◌, ◌⊎◌, inl, inr, refl, Bool-cases,
}

pub data Kind : Type 0 where
  connect disconnect dispose publish_track unpublish_track publish_data publish_transcription : Kind
  capture_audio_frame set_local_metadata set_local_name set_local_attributes get_stats : Kind
  get_session_stats publish_sip_dtmf chat_message perform_rpc : Kind
  send_stream_header send_stream_chunk send_stream_trailer : Kind
  byte_stream_reader_read_all byte_stream_reader_write_to_file byte_stream_open : Kind
  byte_stream_writer_write byte_stream_writer_close send_file : Kind
  text_stream_reader_read_all text_stream_open text_stream_writer_write : Kind
  text_stream_writer_close send_text send_bytes : Kind
  publish_data_track define_schema get_schema : Kind
  room_event track_event video_stream_event audio_stream_event byte_stream_reader_event : Kind
  text_stream_reader_event data_track_stream_event rpc_method_invocation logs panic : Kind
  message_not_set : Kind

pub record FfiEvent : Type 0 where
  pub kind : Kind
  pub async_id : ℕ

-- Whether the event answers a request.
abbrev pub is_answer : Kind → Bool
is_answer room_event = false
is_answer track_event = false
is_answer video_stream_event = false
is_answer audio_stream_event = false
is_answer byte_stream_reader_event = false
is_answer text_stream_reader_event = false
is_answer data_track_stream_event = false
is_answer rpc_method_invocation = false
is_answer logs = false
is_answer panic = false
is_answer message_not_set = false
is_answer _ = true

unfoldable pub extract_async_id : FfiEvent → Option ℕ
extract_async_id e = elim (is_answer e.kind) [ true ↦ some e.async_id | false ↦ none ]

pub Kind-discrete : Discrete Kind
Kind-discrete = hlevel

kind_eq_of : {a b : Kind} → Dec (a ≡ b) → Bool
kind_eq_of (yes p) = true
kind_eq_of (no p) = false

-- `event.has_...()` for the kind that a pending operation waits for.
unfoldable pub kind_eq : Kind → Kind → Bool
unfolding kind_eq_of
kind_eq a b = kind_eq_of (Kind-discrete a b)

pub kind_eq_iff : (a b : Kind) → (kind_eq a b ≡ true) ↔ (a ≡ b)
unfolding kind_eq
kind_eq_iff a b = go (Kind-discrete a b)
  where
    go : (d : Dec (a ≡ b)) → (kind_eq_of d ≡ true) ↔ (a ≡ b)
    go (yes p) = (λ _. p, λ _. refl)
    go (no n) = (λ e. cc, λ p. absurd (n p))

pub extract_async_id_cases :
    (e : FfiEvent)
    → ((is_answer e.kind ≡ true) × (extract_async_id e ≡ some e.async_id))
      ⊎ ((is_answer e.kind ≡ false) × (extract_async_id e ≡ none))
unfolding extract_async_id
extract_async_id_cases e = elim (Bool-cases (is_answer e.kind)) [
  | inl h ↦ inl (h, rw (h, extract_async_id))
  | inr h ↦ inr (h, rw (h, extract_async_id))
]
