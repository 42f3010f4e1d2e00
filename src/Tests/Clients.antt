-- ===== src/Tests/Clients.antt =====
-- Examples for src/ffi_client.cpp.
use client_sdk_cpp.Prelude.{true, false, List, [], ◌∷◌, none, some, ◌≡◌, refl, arith, ◌⊎◌, ◌≢◌}
use client_sdk_cpp.Prelude.Assoc.{lookup, nat_eq}
use client_sdk_cpp.FfiClient.{
  Client, initialized, initial, cancelled, completed, shutdown_begin, shutdown_end, push_event,
}
use client_sdk_cpp.FfiClient.Event.{FfiEvent, connect, disconnect}
use client_sdk_cpp.FfiClient.Promises.{
  Call, initializes, requests, pushes, begins_shutdown, run, Accounted, run_accounts,
  shutdown_cancels,
}
use client_sdk_cpp.FfiClient.Requests.{publish_track_async, answered, future, value, perform}
use client_sdk_cpp.FfiClient.Requests.Answers.{
  connects, disconnects, publishes_track, request_of, answer, request_answered, request_errors,
}
use client_sdk_cpp.FfiClient.Slots.{
  bump, remove_ready, Slot, new_slot, enter, leave, mark, running, Reach, here, after, enters,
  leaves,
}
use client_sdk_cpp.FfiClient.Slots.Quiet.{remove_listener_quiet}

abbrev connected : FfiEvent
connected = record { kind = connect; async_id = 1 }

abbrev calls : List Call
calls =
    initializes true
    ∷ requests connect true
    ∷ requests disconnect true
    ∷ pushes connected
    ∷ pushes connected
    ∷ begins_shutdown
    ∷ []

run_accounts_example : Accounted 1 (run initial calls)
run_accounts_example = run_accounts calls 1 (omega arith)

abbrev client : Client
client = record initial {
  lifecycle = initialized;
  pending = (1, connect) ∷ (2, disconnect) ∷ [];
  next_async_id = 3;
}

shutdown_cancels_example :
    let (claimed, c) = shutdown_begin client in
    (claimed ≡ true)
    × (c.pending ≡ [])
    × (c.listeners ≡ [])
    × (lookup 2 c.settled ≡ some cancelled)
    × (push_event connected c ≡ (c, []))
    × (push_event connected (shutdown_end c) ≡ (shutdown_end c, []))
unfolding lookup
shutdown_cancels_example = shutdown_cancels client 2 disconnect connected refl refl

-- Thread 1 is in the callback and removes the listener from there.
abbrev inside : Slot
inside = record { removed = false; active_callbacks = 1; active_threads = (1, 1) ∷ [] }

entered : Reach new_slot inside
unfolding enter bump
entered = after here (enters 1 refl)

remove_listener_quiet_example :
    (running 2 (leave 1 (mark inside)).active_threads ≡ 0)
    × (enter 2 (leave 1 (mark inside)) ≡ none)
unfolding remove_ready lookup mark
remove_listener_quiet_example =
    remove_listener_quiet {s = inside} {s' = leave 1 (mark inside)} 1 2 2 entered refl
      (after here (leaves 1 (omega arith))) (λ e. omega arith)

request_answered_example :
    let (r, c) = perform publish_track_async (answered true) client in
    (r ≡ future 3)
    × (lookup 3 (push_event (answer publishes_track 3) c).0.pending ≡ none)
    × ((push_event (answer publishes_track 3) c).0.settled
        ≡ (3, completed (answer publishes_track 3)) ∷ client.settled)
    × ((push_event (answer connects 3) c).0 ≡ c)
unfolding publish_track_async lookup
request_answered_example = request_answered publishes_track connects client refl refl (λ e. cc)

request_errors_example :
    ((disconnects ≡ disconnects)
      ⊎ ((request_of disconnects).handler (record { error = some "gone"; complete = true })
          ≢ value))
    × ((request_of disconnects).handler (record { error = none; complete = true }) ≡ value)
request_errors_example =
    request_errors disconnects (record { error = none; complete = true }) "gone" refl
