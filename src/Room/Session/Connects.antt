-- ===== src/Room/Session/Connects.antt =====
-- What `connect` leaves, and what becomes of a connection that is ended before it is made.
use client_sdk_cpp.Prelude.{
  subst, sym, ap, ◌∙◌, ℕ, suc, Bool, true, false, ◌∷◌, Option, none, some, ◌==◌, ◌≡◌, ◌≢◌, refl,
  arith, is_some, ◌⊎◌, inl, inr, List, if◌then◌else◌, not, ◌&&◌, ◌||◌,
}
use client_sdk_cpp.Room.Session.{
  disconnected, connected, reconnecting, is_disconnected, Session, does, does_if, has_room_state,
  claim, Effect, Faults, finish, shutdown, disconnect, Joined, connect_publish, connect_listen,
  connect_fail, connect, connect_begin, connect_rest, connect_from, begun, Attempt,
  listener_refused, request_fails, not_ready, joins, ready_for_room_event, removes_listener,
  notifies_disconnected, stops_subscriptions, shuts_local,
}
use client_sdk_cpp.Room.Session.Ends.{
  Released, claimed_by, cleared, disconnect_all, disconnect-Released,
}

-- The ids of listeners are not 0.
abbrev pub IsNumbered : Attempt → Type 0
IsNumbered listener_refused = Unit
IsNumbered (request_fails id) = id ≢ 0
IsNumbered (not_ready id j) = id ≢ 0
IsNumbered (joins id j) = id ≢ 0

-- The effects of an attempt that failed end with the removal of its listener, if it got one.
abbrev pub Unregistered : Attempt → Session → Type 0
Unregistered listener_refused s = Unit
Unregistered (request_fails id) s = (e : List Effect) × (s.effects ≡ removes_listener id ∷ e)
Unregistered (not_ready id j) s = (e : List Effect) × (s.effects ≡ removes_listener id ∷ e)
Unregistered (joins id j) s = Unit

-- The handler leaves nothing in the room. It says no, and has removed the listener, or it throws.
Cleaned : ℕ → Faults → Session → Option Bool × Session → Type 0
Cleaned id faults before (result, s) =
    Released s
    × (((result ≡ some false)
          × ((id ≢ 0)
              → s.effects
                ≡ removes_listener id ∷ shuts_local before.local_participant before.effects))
        ⊎ ((result ≡ none)
            × ((faults.local_participant_throws ≡ true) ⊎ (faults.remove_listener_throws ≡ true))))

-- Whether the handler throws: `p` is whether there is a local participant, `l` and `r` whether its end
-- and the removal throw, and `b` is whether there is a listener to remove.
handled :
    (p l b r : Bool) (listener : ℕ) (fx : List Effect)
    → let removing = b && not (p && l) in
      let result : Option Bool = if (p && l) || (removing && r) then none else some false in
      ((result ≡ some false)
        × ((b ≡ true)
            → does_if removing (removes_listener listener) fx ≡ removes_listener listener ∷ fx))
      ⊎ ((result ≡ none) × ((l ≡ true) ⊎ (r ≡ true)))
handled p true b r listener fx = ground arith
handled p false b true listener fx = ground arith
handled p false true false listener fx = ground arith
handled p false false false listener fx = ground arith

fail-Cleaned :
    (id : ℕ) (faults : Faults) (s : Session)
    → s.listener_id ≡ id
    → Cleaned id faults s (connect_fail id faults s)
unfolding connect_fail Cleaned
fail-Cleaned id faults s h =
    let own : (if s.listener_id == id then s.listener_id else 0) ≡ id = ground arith in
    let fx = shuts_local s.local_participant s.effects in
    let got =
      handled (is_some s.local_participant) faults.local_participant_throws
        (not ((if s.listener_id == id then s.listener_id else 0) == 0))
        faults.remove_listener_throws (if s.listener_id == id then s.listener_id else 0) fx in
    (
      record {
        state = refl;
        handle = refl;
        local = refl;
        remotes = refl;
        manager = refl;
        listener = ground arith;
        text_readers = refl;
        byte_readers = refl;
      },
      elim got [
        | inl (said, removed) ↦
            inl (said, λ n. removed (ground arith) ∙ ap (λ l. removes_listener l ∷ fx) own)
        | inr thrown ↦ inr thrown
      ],
    )

waiting : Session → Session
waiting s = record s { connection_state = reconnecting }

begin_waits :
    (s : Session) → s.connection_state ≡ disconnected → connect_begin true s ≡ (begun, waiting s)
unfolding connect_begin waiting
begin_waits s h = rw h refl

AllOrNothing : Attempt → Attempt → Faults → Option Bool × Session → Type 0
AllOrNothing attempt again faults (result, s) =
    ((result ≡ some false) × Released s × Unregistered attempt s)
    ⊎ (((result ≡ none)
          × Released s
          × ((faults.local_participant_throws ≡ true) ⊎ (faults.remove_listener_throws ≡ true)))
        ⊎ ((result ≡ some true)
            × (s.connection_state ≡ connected)
            × (s.listener_id ≢ 0)
            × (is_some s.room_handle ≡ true)
            × ((meanwhile : Session → Session)
                → connect true meanwhile again faults s ≡ (none, s))))

-- Other threads leave the number of the room's listener as it is.
abbrev pub KeepsListener : (Session → Session) → Type 0
KeepsListener meanwhile = (s : Session) → (meanwhile s).listener_id ≡ s.listener_id

rest-AllOrNothing :
    (meanwhile : Session → Session) (attempt again : Attempt) (faults : Faults) (s : Session)
    → KeepsListener meanwhile
    → s.listener_id ≡ 0
    → IsNumbered attempt
    → AllOrNothing attempt again faults (connect_rest meanwhile attempt faults s)
unfolding connect connect_begin connect_rest connect_listen connect_publish AllOrNothing Cleaned
rest-AllOrNothing meanwhile listener_refused again faults s keeps r n =
    let (left, how) = fail-Cleaned 0 faults s r in
    elim how [
      | inl (said, removed) ↦ inl (said, left, tt)
      | inr (thrown, why) ↦ inr (inl (thrown, left, why))
    ]
rest-AllOrNothing meanwhile (request_fails id) again faults s keeps r n =
    let (left, how) =
      fail-Cleaned id faults (meanwhile (connect_listen id s)) (keeps (connect_listen id s)) in
    elim how [
      | inl (said, removed) ↦ inl (said, left, (_, removed n))
      | inr (thrown, why) ↦ inr (inl (thrown, left, why))
    ]
rest-AllOrNothing meanwhile (not_ready id j) again faults s keeps r n =
    let (left, how) =
      fail-Cleaned id faults
        (does (ready_for_room_event j.handle) (connect_publish j (meanwhile (connect_listen id s))))
        (keeps (connect_listen id s)) in
    elim how [
      | inl (said, removed) ↦ inl (said, left, (_, removed n))
      | inr (thrown, why) ↦ inr (inl (thrown, left, why))
    ]
rest-AllOrNothing meanwhile (joins id j) again faults s keeps r n =
    inr (inr (refl, refl, (λ e. n (sym (keeps (connect_listen id s)) ∙ e)), refl, (λ other. refl)))

-- A `connect` is all or nothing, if its room holds nothing of a connection, the library is initialised,
-- and other threads come in between only while it waits for the answer and do not change the number of
-- the room's listener there, as a `disconnect` would. Either it says no and the room holds nothing of a
-- connection, however far it came, and the last thing it did was to remove the listener, if it got one;
-- or its handler of exceptions throws itself, which it does only if the end of the local participant or
-- the removal of the listener throws, and the room holds nothing of a connection either; or it says
-- yes, the room is connected, has a listener and a room handle, and another `connect` throws and changes
-- nothing.
pub connect_all_or_nothing :
    (meanwhile : Session → Session) (attempt again : Attempt) (faults : Faults) (s : Session)
    → KeepsListener meanwhile
    → Released s
    → IsNumbered attempt
    → let (result, s') = connect true meanwhile attempt faults s in
      ((result ≡ some false) × Released s' × Unregistered attempt s')
      ⊎ (((result ≡ none)
            × Released s'
            × ((faults.local_participant_throws ≡ true) ⊎ (faults.remove_listener_throws ≡ true)))
          ⊎ ((result ≡ some true)
              × (s'.connection_state ≡ connected)
              × (s'.listener_id ≢ 0)
              × (is_some s'.room_handle ≡ true)
              × ((other : Session → Session) → connect true other again faults s' ≡ (none, s'))))
unfolding AllOrNothing waiting connect
connect_all_or_nothing meanwhile attempt again faults s keeps r n =
    subst (AllOrNothing attempt again faults)
      (sym (ap (connect_from meanwhile attempt faults) (begin_waits s r.state)))
      (rest-AllOrNothing meanwhile attempt again faults (waiting s) keeps r.listener n)

abbrev pub no_faults : Faults
no_faults = record {
  local_participant_throws = false;
  ffi_disconnect_throws = false;
  remove_listener_throws = false;
}

connecting_has_state : (s : Session) → s.connection_state ≡ reconnecting → has_room_state s ≡ true
connecting_has_state s h = rw h refl

no_fault_ok :
    (reason : ℕ) (s : Session)
    → is_disconnected s.connection_state ≡ false
    → (disconnect reason no_faults s).0 ≡ true
unfolding disconnect shutdown claim finish
no_fault_ok reason s h = ground arith

-- A `disconnect` without faults that comes while `connect` waits for the native library's answer says
-- yes and removes the listener that `connect` added. When the answer comes after it, the room is
-- connected and has no listener. It can be left all the same: a further `disconnect` says yes and
-- leaves nothing of the connection.
pub late_connection :
    (reason later id : ℕ) (j : Joined) (s : Session)
    → s.connection_state ≡ reconnecting
    → s.listener_id ≡ suc id
    → s.room_handle ≡ none
    → s.local_participant ≡ none
    → let (ok, ended) = disconnect reason no_faults s in
      let late = connect_publish j ended in
      let (ok_later, left) = disconnect later no_faults late in
      (ok ≡ true)
      × (ended.effects
          ≡ does_if s.has_delegate
              (notifies_disconnected reason)
              (removes_listener (suc id) ∷ stops_subscriptions ∷ s.effects))
      × (late.connection_state ≡ connected)
      × (late.listener_id ≡ 0)
      × (ok_later ≡ true)
      × Released left
unfolding connect_publish claimed_by cleared finish
late_connection reason later id j s state listener handle local_gone =
    let has = connecting_has_state s state in
    let ended = finish true reason true no_faults (claimed_by s) (cleared s) in
    subst
      (λ (p : Bool × Session).
        let late = connect_publish j p.1 in
        let (ok_later, left) = disconnect later no_faults late in
        (p.0 ≡ true)
        × (p.1.effects
            ≡ does_if s.has_delegate (notifies_disconnected reason)
                (removes_listener (suc id) ∷ stops_subscriptions ∷ s.effects))
        × (late.connection_state ≡ connected)
        × (late.listener_id ≡ 0)
        × (ok_later ≡ true)
        × Released left)
      (sym (disconnect_all reason no_faults s has))
      (
        ground arith,
        (let numbered : (suc id == 0) ≡ false = ground arith in
            rw (state, listener, handle, local_gone, numbered) refl),
        refl,
        refl,
        no_fault_ok later (connect_publish j ended.1) refl,
        (disconnect-Released later later no_faults no_faults (connect_publish j ended.1) refl).0,
      )
