-- ===== src/Room/Session/Ends.antt =====
-- How a room's connection ends: once, and with everything released.
use client_sdk_cpp.Prelude.{
  subst, sym, ap, ℕ, Bool, true, false, ◌&&◌, not, List, [], ◌∷◌, none, some, if◌then◌else◌, ◌+◌,
  ◌≡◌, refl, arith,
}
use client_sdk_cpp.Dispatcher.DataTracks.{stop_all}
use client_sdk_cpp.Room.Session.{
  disconnected, is_disconnected, Session, has_room_state, Claim, without_readers, claim, Faults,
  finish, finish_claimed, shutdown, disconnect, mark_disconnected,
}

-- A room that holds nothing of a connection.
pub record Released (s : Session) : Type 0 where
  pub state : s.connection_state ≡ disconnected
  pub handle : s.room_handle ≡ none
  pub local : s.local_participant ≡ none
  pub remotes : s.remote_participants ≡ []
  pub manager : s.has_e2ee_manager ≡ false
  pub listener : s.listener_id ≡ 0
  pub text_readers : s.streams.text_stream_readers ≡ []
  pub byte_readers : s.streams.byte_stream_readers ≡ []

-- What a shutdown takes out of a room that holds something.
unfoldable pub claimed_by : Session → Claim
claimed_by s = record {
  claimed_disconnect = not (is_disconnected s.connection_state);
  handle = s.room_handle;
  notifies = s.has_delegate;
  local_participant_to_cleanup = s.local_participant;
  listener_to_remove = s.listener_id;
}

-- The room that it leaves.
unfoldable pub cleared : Session → Session
cleared s = record s {
  connection_state = disconnected;
  room_handle = none;
  local_participant = none;
  remote_participants = [];
  has_e2ee_manager = false;
  listener_id = 0;
  streams = without_readers s.streams;
}

claim_all : (s : Session) → has_room_state s ≡ true → claim s ≡ (some (claimed_by s), cleared s)
unfolding claim claimed_by cleared
claim_all s h = rw h refl

finish-Released :
    (asks_ffi notifies : Bool) (reason : ℕ) (faults : Faults) (c : Claim) (s : Session)
    → Released (finish asks_ffi reason notifies faults c (cleared s)).1
unfolding finish cleared
finish-Released asks_ffi notifies reason faults c s = record {
  state = refl;
  handle = refl;
  local = refl;
  remotes = refl;
  manager = refl;
  listener = refl;
  text_readers = refl;
  byte_readers = refl;
}

pub disconnect_all :
    (reason : ℕ) (faults : Faults) (s : Session)
    → has_room_state s ≡ true
    → disconnect reason faults s ≡ finish true reason true faults (claimed_by s) (cleared s)
unfolding disconnect shutdown
disconnect_all reason faults s h = ap (finish_claimed true reason true faults) (claim_all s h)

claims_once :
    (faults : Faults) (reason : ℕ) (s : Session)
    → ((finish true reason true faults (claimed_by s) (cleared s)).0
        && is_disconnected s.connection_state)
      ≡ false
unfolding finish claimed_by
claims_once faults reason s = ground arith

stops_all :
    (reason : ℕ) (faults : Faults) (c : Claim) (s : Session)
    → (finish true reason true faults c s).1.dispatcher ≡ stop_all s.dispatcher
unfolding finish
stops_all reason faults c s = refl

refused :
    (reason : ℕ) (faults : Faults) (s : Session)
    → Released s
    → disconnect reason faults s ≡ (false, s)
unfolding disconnect shutdown claim
refused reason faults s r = rw (r.state, r.handle, r.local, r.remotes, r.listener) refl

-- `disconnect` of a room that has something of a connection, whatever throws meanwhile: nothing of the
-- connection is left, its subscriptions are stopped, and a second `disconnect` says no and does
-- nothing. The first says yes only if the room was not disconnected already.
pub disconnect-Released :
    (reason again : ℕ) (faults later : Faults) (s : Session)
    → has_room_state s ≡ true
    → let (ok, s') = disconnect reason faults s in
      Released s'
      × (s'.dispatcher ≡ stop_all s.dispatcher)
      × (disconnect again later s' ≡ (false, s'))
      × ((ok && is_disconnected s.connection_state) ≡ false)
unfolding cleared
disconnect-Released reason again faults later s h =
    subst
      (λ (p : Bool × Session).
        Released p.1
        × (p.1.dispatcher ≡ stop_all s.dispatcher)
        × (disconnect again later p.1 ≡ (false, p.1))
        × ((p.0 && is_disconnected s.connection_state) ≡ false))
      (sym (disconnect_all reason faults s h))
      (
        finish-Released true true reason faults (claimed_by s) s,
        stops_all reason faults (claimed_by s) (cleared s),
        refused again later _ (finish-Released true true reason faults (claimed_by s) s),
        claims_once faults reason s,
      )

-- What ends a connection, by its part under the mutex: `disconnect` and `eos`, which shut the room
-- down, and the event `disconnected`.
pub data Ending : Type 0 where
  disconnects eos server_disconnects : Ending

-- Whether it has the connection's end for itself, as the code decides, and the room.
abbrev pub ends : Ending → Session → Bool × Session
ends server_disconnects s = mark_disconnected s
ends _ s =
    let (claimed, s') = claim s in
    (elim claimed [ none ↦ false | some c ↦ c.claimed_disconnect ], s')

-- How many of them had it, one after the other.
abbrev pub owners : List Ending → Session → ℕ × Session
owners [] s = (0, s)
owners (e ∷ es) s =
    let (owned, s') = ends e s in let (n, s'') = owners es s' in ((if owned then 1 else 0) + n, s'')

ends_lem :
    (e : Ending) (s : Session)
    → ((ends e s).0 ≡ not (is_disconnected s.connection_state))
      × ((ends e s).1.connection_state ≡ disconnected)
unfolding claim mark_disconnected
ends_lem server_disconnects s = (refl, refl)
ends_lem disconnects s = ground arith
ends_lem eos s = ground arith

owners_none :
    (es : List Ending) (s : Session)
    → s.connection_state ≡ disconnected
    → ((owners es s).0 ≡ 0) × ((owners es s).1.connection_state ≡ disconnected)
owners_none [] s h = (refl, h)
owners_none (e ∷ es) s h = ground (arith, ends_lem e s, owners_none es (ends e s).1)

-- However many calls of `disconnect`, events `eos` and events `disconnected` meet at a room that is not
-- disconnected, in whatever order their parts under the mutex come, exactly one of them has the end of
-- the connection for itself, and the room is disconnected.
pub owners_one :
    (e : Ending) (es : List Ending) (s : Session)
    → is_disconnected s.connection_state ≡ false
    → ((owners (e ∷ es) s).0 ≡ 1) × ((owners (e ∷ es) s).1.connection_state ≡ disconnected)
owners_one e es s h = ground (arith, ends_lem e s, owners_none es (ends e s).1)
