-- ===== src/Encryption.antt =====
-- End-to-end encryption of src/e2ee.cpp: the requests of the key provider, the frame cryptors and the
-- manager, and what these objects keep. Key indices are the numbers that are passed on.
use client_sdk_cpp.Prelude.{ℕ, Bool, true, List, [], map, String}
use client_sdk_cpp.Native.{Reply, fails, lacks_part, answers, Done, returns, throws}

-- The message in the `e2ee` part of a request.
pub data Message : Type 0 where
  set_shared_key : ℕ → List ℕ → Message
  get_shared_key ratchet_shared_key : ℕ → Message
  set_key : String → ℕ → List ℕ → Message
  get_key ratchet_key : String → ℕ → Message
  cryptor_set_enabled : String → Bool → Message
  cryptor_set_key_index : String → ℕ → Message
  manager_set_enabled : Bool → Message
  -- None of them is set.
  no_message : Message

-- A request, with the handle of the room.
pub record Request : Type 0 where
  pub room_handle : ℕ
  pub message : Message

pub record KeyProvider {ℓ} (O : Type ℓ) : Type ℓ where
  pub room_handle : ℕ
  pub options : O

pub record FrameCryptor : Type 0 where
  pub room_handle : ℕ
  pub enabled : Bool
  pub participant_identity : String
  pub key_index : ℕ

pub record E2eeManager {ℓ} (O : Type ℓ) : Type ℓ where
  pub room_handle : ℕ
  pub enabled : Bool
  pub key_provider : KeyProvider O

-- A request whose response is not looked at.
abbrev pub sent : Reply (Unit {0}) → Done (Unit {0})
sent (fails e) = throws e
sent _ = returns tt

-- The key in the response; a part that is missing reads as an empty key.
abbrev pub key_of : Reply (List ℕ) → Done (List ℕ)
key_of (fails e) = throws e
key_of lacks_part = returns []
key_of (answers key) = returns key

-- A cryptor of the response: identity, key index and whether it is enabled.
abbrev pub cryptor_of : ℕ → String × ℕ × Bool → FrameCryptor
cryptor_of room_handle (identity, key_index, enabled) = record {
  room_handle = room_handle;
  enabled = enabled;
  participant_identity = identity;
  key_index = key_index;
}

abbrev pub cryptors_of : ℕ → Reply (List (String × ℕ × Bool)) → Done (List FrameCryptor)
cryptors_of room_handle (fails e) = throws e
cryptors_of room_handle lacks_part = returns []
cryptors_of room_handle (answers cryptors) = returns (map (cryptor_of room_handle) cryptors)

module _ {ℓ} {O : Type ℓ} where
  abbrev pub asks : KeyProvider O → Message → Request
  asks p m = record { room_handle = p.room_handle; message = m }

  unfoldable pub provider_set_shared_key :
      List ℕ → ℕ → KeyProvider O → Reply (Unit {0}) → Done (Unit {0}) × Request
  provider_set_shared_key key index p r = (sent r, asks p (set_shared_key index key))

  unfoldable pub export_shared_key : ℕ → KeyProvider O → Reply (List ℕ) → Done (List ℕ) × Request
  export_shared_key index p r = (key_of r, asks p (get_shared_key index))

  unfoldable pub provider_ratchet_shared_key :
      ℕ → KeyProvider O → Reply (List ℕ) → Done (List ℕ) × Request
  provider_ratchet_shared_key index p r = (key_of r, asks p (ratchet_shared_key index))

  unfoldable pub provider_set_key :
      String → List ℕ → ℕ → KeyProvider O → Reply (Unit {0}) → Done (Unit {0}) × Request
  provider_set_key identity key index p r = (sent r, asks p (set_key identity index key))

  unfoldable pub export_key : String → ℕ → KeyProvider O → Reply (List ℕ) → Done (List ℕ) × Request
  export_key identity index p r = (key_of r, asks p (get_key identity index))

  unfoldable pub provider_ratchet_key :
      String → ℕ → KeyProvider O → Reply (List ℕ) → Done (List ℕ) × Request
  provider_ratchet_key identity index p r = (key_of r, asks p (ratchet_key identity index))

  unfoldable pub new_manager : ℕ → O → E2eeManager O
  new_manager room_handle options = record {
    room_handle = room_handle;
    enabled = true;
    key_provider = record { room_handle = room_handle; options = options };
  }

  abbrev pub enabled_after : Reply (Unit {0}) → Bool → E2eeManager O → E2eeManager O
  enabled_after (fails e) enabled m = m
  enabled_after _ enabled m = record m { enabled = enabled }

  unfoldable pub manager_enable :
      Bool → E2eeManager O → Reply (Unit {0}) → Done (Unit {0}) × Request × E2eeManager O
  manager_enable enabled m r = (
    sent r,
    record { room_handle = m.room_handle; message = manager_set_enabled enabled },
    enabled_after r enabled m,
  )

  -- The request names the room and no message.
  unfoldable pub frame_cryptors :
      E2eeManager O → Reply (List (String × ℕ × Bool)) → Done (List FrameCryptor) × Request
  frame_cryptors m r =
      (cryptors_of m.room_handle r, record { room_handle = m.room_handle; message = no_message })

-- The setters of a cryptor leave its own fields.
unfoldable pub cryptor_enable :
    Bool → FrameCryptor → Reply (Unit {0}) → Done (Unit {0}) × Request × FrameCryptor
cryptor_enable enabled c r = (
  sent r,
  record {
    room_handle = c.room_handle;
    message = cryptor_set_enabled c.participant_identity enabled;
  },
  c,
)

unfoldable pub cryptor_choose_key :
    ℕ → FrameCryptor → Reply (Unit {0}) → Done (Unit {0}) × Request × FrameCryptor
cryptor_choose_key index c r = (
  sent r,
  record {
    room_handle = c.room_handle;
    message = cryptor_set_key_index c.participant_identity index;
  },
  c,
)
