-- ===== src/Tests/Sessions.antt =====
-- Examples for the connection of a room in src/room.cpp.
use client_sdk_cpp.Prelude.{
  true, false, ◌&&◌, List, [], ◌∷◌, none, some, is_some, ◌≡◌, ◌≢◌, ◌⊎◌, refl, arith,
}
use client_sdk_cpp.Dispatcher.{new_dispatcher}
use client_sdk_cpp.Dispatcher.DataTracks.{stop_all}
use client_sdk_cpp.Room.{Room}
use client_sdk_cpp.Room.Session.{
  disconnected, connected, reconnecting, is_disconnected, Session, does_if, disconnect, Faults,
  Joined, connect_publish, request_fails, joins, connect, removes_listener, stops_subscriptions,
  notifies_disconnected,
}
use client_sdk_cpp.Room.Session.Ends.{
  Released, disconnect-Released, Ending, disconnects, eos, server_disconnects, owners, owners_one,
}
use client_sdk_cpp.Room.Session.Connects.{
  Unregistered, connect_all_or_nothing, no_faults, late_connection,
}

abbrev no_streams : Room
no_streams = record {
  text_stream_handlers = [];
  byte_stream_handlers = [];
  text_stream_readers = [];
  byte_stream_readers = [];
  readers = [];
  next_reader = 0;
  called = [];
}

abbrev new_session : Session
new_session = record {
  connection_state = disconnected;
  has_delegate = true;
  room_handle = none;
  local_participant = none;
  remote_participants = [];
  has_e2ee_manager = false;
  listener_id = 0;
  streams = no_streams;
  dispatcher = new_dispatcher;
  effects = [];
}

abbrev joined : Joined
joined = record { handle = 7; participant = 8; participants = ("alice", 9) ∷ []; encrypts = false }

abbrev connecting : Session
connecting = record new_session { connection_state = reconnecting; listener_id = 1 }

abbrev running : Session
running = record connecting {
  connection_state = connected;
  room_handle = some 7;
  local_participant = some 8;
  remote_participants = joined.participants;
}

abbrev listener_fault : Faults
listener_fault = record {
  local_participant_throws = false;
  ffi_disconnect_throws = false;
  remove_listener_throws = true;
}

disconnect-Released_example :
    let (ok, s) = disconnect 1 listener_fault running in
    Released s
    × (s.dispatcher ≡ stop_all running.dispatcher)
    × (disconnect 2 no_faults s ≡ (false, s))
    × ((ok && is_disconnected running.connection_state) ≡ false)
disconnect-Released_example = disconnect-Released 1 2 listener_fault no_faults running refl

abbrev endings : List Ending
endings = disconnects ∷ eos ∷ disconnects ∷ []

owners_one_example :
    ((owners (server_disconnects ∷ endings) running).0 ≡ 1)
    × ((owners (server_disconnects ∷ endings) running).1.connection_state ≡ disconnected)
owners_one_example = owners_one server_disconnects endings running refl

new_session-Released : Released new_session
new_session-Released = record {
  state = refl;
  handle = refl;
  local = refl;
  remotes = refl;
  manager = refl;
  listener = refl;
  text_readers = refl;
  byte_readers = refl;
}

-- While `connect` waits, the delegate is taken away.
abbrev meanwhile : Session → Session
meanwhile s = record s { has_delegate = false }

connect_all_or_nothing_example :
    let (result, s) = connect true meanwhile (joins 1 joined) no_faults new_session in
    ((result ≡ some false) × Released s × Unregistered (joins 1 joined) s)
    ⊎ (((result ≡ none)
          × Released s
          × ((no_faults.local_participant_throws ≡ true)
              ⊎ (no_faults.remove_listener_throws ≡ true)))
        ⊎ ((result ≡ some true)
            × (s.connection_state ≡ connected)
            × (s.listener_id ≢ 0)
            × (is_some s.room_handle ≡ true)
            × ((other : Session → Session)
                → connect true other (request_fails 2) no_faults s ≡ (none, s))))
connect_all_or_nothing_example =
    connect_all_or_nothing meanwhile (joins 1 joined) (request_fails 2) no_faults new_session
      (λ s. refl) new_session-Released (λ e. omega arith)

late_connection_example :
    let (ok, ended) = disconnect 1 no_faults connecting in
    let late = connect_publish joined ended in
    let (ok_later, left) = disconnect 1 no_faults late in
    (ok ≡ true)
    × (ended.effects
        ≡ does_if true (notifies_disconnected 1) (removes_listener 1 ∷ stops_subscriptions ∷ []))
    × (late.connection_state ≡ connected)
    × (late.listener_id ≡ 0)
    × (ok_later ≡ true)
    × Released left
late_connection_example = late_connection 1 1 0 joined connecting refl refl refl refl
