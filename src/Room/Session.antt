-- ===== src/Room/Session.antt =====
-- The life of a `Room` (src/room.cpp): connecting, the end of a connection, and what a `Room` owns.
-- Each part of an operation that holds the mutex is a step of its own, since other threads' steps may
-- come in between; `disconnect`, `on_eos` and `connect` put the steps together.
pub mod Ends
pub mod Connects
use client_sdk_cpp.Prelude.{
  ℕ, Bool, true, false, ◌&&◌, ◌||◌, not, List, [], ◌∷◌, ◌++◌, Option, none, some, String,
  if◌then◌else◌, ◌==◌, is_some,
}
use client_sdk_cpp.Dispatcher.{Dispatcher}
use client_sdk_cpp.Dispatcher.DataTracks.{stop_all}
use client_sdk_cpp.Room.{Room}

pub data ConnectionState : Type 0 where
  disconnected connected reconnecting : ConnectionState

abbrev pub is_disconnected : ConnectionState → Bool
is_disconnected disconnected = true
is_disconnected _ = false

-- What a room calls, outside its mutex: `FfiClient`, its local participant and its delegate. A reason
-- is the number of its enumerator.
pub data Effect : Type 0 where
  adds_listener removes_listener ready_for_room_event : ℕ → Effect
  shuts_local_participant : ℕ → Effect
  requests_disconnect : ℕ → ℕ → Effect
  stops_subscriptions : Effect
  notifies_disconnected : ℕ → Effect
  notifies_eos : Effect

-- Objects are named by numbers, handles by theirs. `streams` has the handlers and readers of the data
-- streams; `effects` has the calls made, the latest first.
pub record Session : Type 0 where
  pub connection_state : ConnectionState
  pub has_delegate : Bool
  pub room_handle : Option ℕ
  pub local_participant : Option ℕ
  pub remote_participants : List (String × ℕ)
  pub has_e2ee_manager : Bool
  pub listener_id : ℕ
  pub streams : Room
  pub dispatcher : Dispatcher
  pub effects : List Effect

abbrev pub does : Effect → Session → Session
does e s = record s { effects = e ∷ s.effects }

abbrev pub has_remotes : List (String × ℕ) → Bool
has_remotes [] = false
has_remotes (p ∷ ps) = true

abbrev pub has_room_state : Session → Bool
has_room_state s =
    not (is_disconnected s.connection_state)
    || not (s.listener_id == 0)
    || is_some s.room_handle
    || is_some s.local_participant
    || has_remotes s.remote_participants

-- What `shutdown` takes out of the room.
pub record Claim : Type 0 where
  pub claimed_disconnect : Bool
  pub handle : Option ℕ
  pub notifies : Bool
  pub local_participant_to_cleanup : Option ℕ
  pub listener_to_remove : ℕ

-- `clear()` or a move out of both maps of readers
abbrev pub without_readers : Room → Room
without_readers r = record r { text_stream_readers = []; byte_stream_readers = [] }

-- The part of `shutdown` under the mutex.
unfoldable pub claim : Session → Option Claim × Session
claim s = if not (has_room_state s) then (none, s) else (
  some (record {
    claimed_disconnect = not (is_disconnected s.connection_state);
    handle = s.room_handle;
    notifies = s.has_delegate;
    local_participant_to_cleanup = s.local_participant;
    listener_to_remove = s.listener_id;
  }),
  record s {
    connection_state = disconnected;
    room_handle = none;
    local_participant = none;
    remote_participants = [];
    has_e2ee_manager = false;
    listener_id = 0;
    streams = without_readers s.streams;
  },
)

-- Which of the calls throw. The end of the subscriptions would throw only if the join of a thread did.
pub record Faults : Type 0 where
  pub local_participant_throws : Bool
  pub ffi_disconnect_throws : Bool
  pub remove_listener_throws : Bool

abbrev pub valid_handle : Option ℕ → Bool
valid_handle none = false
valid_handle (some h) = not (h == 0)

abbrev pub handle_of : Option ℕ → ℕ
handle_of none = 0
handle_of (some h) = h

-- `if (b) { ... }` around a call
abbrev pub does_if : Bool → Effect → List Effect → List Effect
does_if b e effects = if b then e ∷ effects else effects

abbrev pub shuts_local : Option ℕ → List Effect → List Effect
shuts_local none effects = effects
shuts_local (some p) effects = shuts_local_participant p ∷ effects

-- `shutdown` asks the native library to disconnect.
abbrev pub asks : Bool → Claim → Bool
asks disconnect_ffi c = disconnect_ffi && c.claimed_disconnect && valid_handle c.handle

-- `shutdown` removes the room's listener.
abbrev pub removes : Claim → Bool
removes c = not (c.listener_to_remove == 0)

-- The rest of `shutdown`, which has not the mutex: whether it was in order, and the room.
unfoldable pub finish : Bool → ℕ → Bool → Faults → Claim → Session → Bool × Session
finish disconnect_ffi reason notify_delegate faults c s =
    let shutdown_ok =
      not (is_some c.local_participant_to_cleanup && faults.local_participant_throws)
      && not (asks disconnect_ffi c && faults.ffi_disconnect_throws)
      && not (removes c && faults.remove_listener_throws) in
    (
      c.claimed_disconnect && shutdown_ok,
      record s {
        dispatcher = stop_all s.dispatcher;
        effects =
            does_if (notify_delegate && c.claimed_disconnect && c.notifies)
              (notifies_disconnected reason)
              (does_if (removes c) (removes_listener c.listener_to_remove) (
                stops_subscriptions
                ∷ does_if (asks disconnect_ffi c) (requests_disconnect (handle_of c.handle) reason)
                    (shuts_local c.local_participant_to_cleanup s.effects)));
      },
    )

-- `shutdown` after its part under the mutex.
abbrev pub finish_claimed : Bool → ℕ → Bool → Faults → Option Claim × Session → Bool × Session
finish_claimed disconnect_ffi reason notify_delegate faults (none, s) = (false, s)
finish_claimed disconnect_ffi reason notify_delegate faults (some c, s) =
    finish disconnect_ffi reason notify_delegate faults c s

unfoldable pub shutdown : Bool → ℕ → Bool → Faults → Session → Bool × Session
shutdown disconnect_ffi reason notify_delegate faults s =
    finish_claimed disconnect_ffi reason notify_delegate faults (claim s)

unfoldable pub disconnect : ℕ → Faults → Session → Bool × Session
disconnect reason faults s = shutdown true reason true faults s

-- The test before each event of the room.
abbrev pub is_for_room : ℕ → Session → Bool
is_for_room handle s = elim s.room_handle [ none ↦ false | some h ↦ handle == h ]

-- The event `disconnected` of the native library: its part under the mutex, and whether it notifies.
unfoldable pub mark_disconnected : Session → Bool × Session
mark_disconnected s =
    (not (is_disconnected s.connection_state), record s { connection_state = disconnected })

unfoldable pub on_disconnected : ℕ → ℕ → Session → Session
on_disconnected handle reason s =
    if is_for_room handle s
    then (let (should_notify, s') = mark_disconnected s in
        if should_notify && s.has_delegate then does (notifies_disconnected reason) s' else s')
    else s

-- The event `eos`; the reason is `Unknown`.
unfoldable pub on_eos : ℕ → Faults → Session → Session
on_eos handle faults s =
    if is_for_room handle s
    then (let s' = (shutdown false 0 false faults s).1 in
        if s.has_delegate then does notifies_eos s' else s')
    else s

-- The beginning of `connect`: whether it goes on.
pub data Begun : Type 0 where
  not_initialized already_connected begun : Begun

unfoldable pub connect_begin : Bool → Session → Begun × Session
connect_begin initialized s =
    if not initialized
    then (not_initialized, s)
    else (if is_disconnected s.connection_state
        then (begun, record s { connection_state = reconnecting })
        else (already_connected, s))

-- The listener is added, and then stored.
unfoldable pub connect_listen : ℕ → Session → Session
connect_listen id s = record s { listener_id = id; effects = adds_listener id ∷ s.effects }

-- What the native library's answer brings.
pub record Joined : Type 0 where
  pub handle : ℕ
  pub participant : ℕ
  pub participants : List (String × ℕ)
  pub encrypts : Bool

unfoldable pub connect_publish : Joined → Session → Session
connect_publish j s = record s {
  room_handle = some j.handle;
  local_participant = some j.participant;
  remote_participants = j.participants;
  has_e2ee_manager = j.encrypts;
  connection_state = connected;
}

-- The handler of an exception in `connect`; `listener` is the id that this call of it got, or 0. `none`
-- where the handler throws itself: if the end of the local participant throws, the listener is no longer
-- removed.
unfoldable pub connect_fail : ℕ → Faults → Session → Option Bool × Session
connect_fail listener faults s =
    let listener_to_remove = if s.listener_id == listener then s.listener_id else 0 in
    let local_throws = is_some s.local_participant && faults.local_participant_throws in
    let removing = not (listener_to_remove == 0) && not local_throws in
    (
      if local_throws || (removing && faults.remove_listener_throws) then none else some false,
      record s {
        connection_state = disconnected;
        listener_id = if s.listener_id == listener then 0 else s.listener_id;
        local_participant = none;
        remote_participants = [];
        room_handle = none;
        has_e2ee_manager = false;
        streams = without_readers s.streams;
        effects =
            does_if removing (removes_listener listener_to_remove)
              (shuts_local s.local_participant s.effects);
      },
    )

-- How far the rest of `connect` comes: the listener is refused, the request fails, the room is joined
-- but the native library does not take that it is ready, or all goes well.
pub data Attempt : Type 0 where
  listener_refused : Attempt
  request_fails : ℕ → Attempt
  not_ready : ℕ → Joined → Attempt
  joins : ℕ → Joined → Attempt

-- `meanwhile`: what other threads do to the room while `connect` waits for the answer, without the
-- mutex.
unfoldable pub connect_rest :
    (Session → Session) → Attempt → Faults → Session → Option Bool × Session
connect_rest meanwhile listener_refused faults s = connect_fail 0 faults s
connect_rest meanwhile (request_fails id) faults s =
    connect_fail id faults (meanwhile (connect_listen id s))
connect_rest meanwhile (not_ready id j) faults s =
    connect_fail id faults
      (does (ready_for_room_event j.handle) (connect_publish j (meanwhile (connect_listen id s))))
connect_rest meanwhile (joins id j) faults s = (
  some true,
  does (ready_for_room_event j.handle) (connect_publish j (meanwhile (connect_listen id s))),
)

-- `connect` after its beginning; it throws where there is no result.
abbrev pub connect_from :
    (Session → Session) → Attempt → Faults → Begun × Session → Option Bool × Session
connect_from meanwhile attempt faults (not_initialized, s) = (some false, s)
connect_from meanwhile attempt faults (already_connected, s) = (none, s)
connect_from meanwhile attempt faults (begun, s) = connect_rest meanwhile attempt faults s

-- `connect`, where other threads come in between only while it waits for the answer.
unfoldable pub connect :
    Bool → (Session → Session) → Attempt → Faults → Session → Option Bool × Session
connect initialized meanwhile attempt faults s =
    connect_from meanwhile attempt faults (connect_begin initialized s)
