-- ===== src/ConnMgr/Tests.antt =====
-- Runs of the handler of connmgr/connmanager.go on concrete messages.
use nogocommons.Base.{◌+◌, ◌≡◌, refl, arith, true, false, none, some}
use nogocommons.Base.{List, [], ◌∷◌, ◌++◌, length, contains}
use nogocommons.ConnMgr.Manager.{
  conn_established, Config, Event, register_pending, handle_connected, handle_disconnected,
  handle_failed, close_conn, on_connection, on_disconnection, connect_after, start_state, set_req,
  update_state, delete_key, put_key, retry_delay, handle_failed_conn, close_old, connected, dropped,
  disconnected, failed, handle, connect,
}
use nogocommons.ConnMgr.Invariant.{state_of, IsConsistent}
use nogocommons.ConnMgr.Runs.{
  run, IsFreshRun, is_over, opened, closed, run-IsConsistent, run-opened,
}
use nogocommons.ConnMgr.Over.{run-over}
use nogocommons.ConnMgr.Delays.{IsTimely, run-IsTimely}

-- Two outbound connections are wanted, and five seconds lie between attempts.
abbrev two_wanted : Config
two_wanted = record { target_outbound = 2; retry_duration = 5000000000; has_new_address = true }

abbrev none_wanted : Config
none_wanted = record { target_outbound = 0; retry_duration = 5000000000; has_new_address = false }

-- The first request is established and lost, the second is canceled while it waits.
abbrev some_events : List Event
some_events =
    handle_disconnected 2 false false
    ∷ handle_disconnected 1 true true
    ∷ handle_connected 1 70
    ∷ register_pending 2 false
    ∷ register_pending 1 true
    ∷ []

abbrev more_events : List Event
more_events = handle_connected 2 80 ∷ handle_connected 1 71 ∷ handle_failed 1 ∷ []

more_events-IsFreshRun : IsFreshRun (more_events ++ some_events)
more_events-IsFreshRun = (tt, (tt, (tt, (tt, (tt, (tt, (refl, (refl, tt))))))))

-- The connection of a canceled request is closed.
more_events_effects :
    (run two_wanted (more_events ++ some_events)).1
    ≡ on_connection 1 70
      ∷ close_conn 70
      ∷ on_disconnection 1
      ∷ connect_after 5000000000 1
      ∷ connect_after 10000000000 1
      ∷ on_connection 1 71
      ∷ close_conn 80
      ∷ []
unfolding run handle connected disconnected dropped failed handle_failed_conn close_old set_req
    update_state delete_key put_key retry_delay start_state
more_events_effects = refl

run-opened_example :
    opened (run two_wanted (more_events ++ some_events)).1
    ≡ closed (run two_wanted (more_events ++ some_events)).1
      + length (run two_wanted (more_events ++ some_events)).0.conns
run-opened_example = run-opened two_wanted (more_events ++ some_events) more_events-IsFreshRun

run-IsConsistent_example : IsConsistent (run two_wanted (more_events ++ some_events)).0 (2 ∷ 1 ∷ [])
run-IsConsistent_example =
    run-IsConsistent two_wanted (more_events ++ some_events) more_events-IsFreshRun

canceled_second : is_over (state_of (run two_wanted some_events).0 2) ≡ true
unfolding run handle connected disconnected dropped failed handle_failed_conn close_old set_req
    update_state delete_key put_key retry_delay start_state
canceled_second = refl

run-over_example :
    (state_of (run two_wanted (more_events ++ some_events)).0 2
      ≡ state_of (run two_wanted some_events).0 2)
    × (contains 2 (run two_wanted (more_events ++ some_events)).0.pending ≡ false)
    × (contains 2 (run two_wanted (more_events ++ some_events)).0.conns ≡ false)
run-over_example =
    run-over two_wanted more_events some_events 2 more_events-IsFreshRun canceled_second

run-IsTimely_example : IsTimely 5000000000 (run two_wanted (more_events ++ some_events)).1
run-IsTimely_example =
    run-IsTimely two_wanted (more_events ++ some_events) (omega arith) (omega arith)

abbrev lost_events : List Event
lost_events =
    handle_disconnected 1 true false ∷ handle_connected 1 70 ∷ register_pending 1 false ∷ []

-- When no more peers are wanted, a lost connection leaves its request in the state `ConnEstablished`.
lost_stays_established : state_of (run none_wanted lost_events).0 1 ≡ conn_established
unfolding run handle connected disconnected dropped failed handle_failed_conn close_old set_req
    update_state delete_key put_key retry_delay start_state
lost_stays_established = refl

-- `Connect` sends nothing for a canceled request.
canceled_not_dialed : connect 2 (some 80) (run two_wanted some_events).0 ≡ none
unfolding run handle connected disconnected dropped failed handle_failed_conn close_old set_req
    update_state delete_key put_key retry_delay start_state connect
canceled_not_dialed = refl
