-- ===== src/Tests/Loops.antt =====
-- Runs of the accept loops and of a direct relay.
use echo_proxy_core.Base.{
  ℕ, ◌+◌, ◌≤◌, ◌≡◌, refl, ◌≢◌, true, false, not, ◌&&◌, none, some, List, [], ◌∷◌, arith, codes,
  length,
}
use echo_proxy_core.Client.Listeners
use echo_proxy_core.Client.Listeners.{
  http_accepted, socks_accepted, http_failed, socks_failed, shut_down,
}
use echo_proxy_core.Client.Listeners.Ids.{run-start-ids_distinct}
use echo_proxy_core.Client.Relay
use echo_proxy_core.Client.Relay.{read_a, read_b, returned}
use echo_proxy_core.Client.Relay.Copies.{turns_a, turns_b, copied, goes_on, run-start-copied}
use echo_proxy_core.Server.Serve
use echo_proxy_core.Server.Serve.{
  accepted, sent, sender_dropped, loop_hears, task_listens, task_hears, task_ends, mem_id,
}
use echo_proxy_core.Server.Serve.Shutdown.{
  sends, count, all_hear, dropped_in, run-start-halted_le, run-start-drained,
}

-- Three connections of both listeners, and a shutdown.
abbrev three_accepted : List (Listeners.Event ℕ)
three_accepted = http_accepted ∷ socks_accepted ∷ http_accepted ∷ shut_down ∷ http_accepted ∷ []

run-start-ids_distinct_example : ◌≢◌ {A = ℕ} 3 1
unfolding Listeners.run Listeners.step Listeners.start
run-start-ids_distinct_example =
    run-start-ids_distinct true three_accepted 0 2 3 1 refl refl (omega arith) (omega arith)

-- One side ends while the other still sends.
abbrev both_ways : List Relay.Event
both_ways =
    read_a (some (codes "ask")) true
    ∷ read_b (some (codes "answer")) true
    ∷ read_a none true
    ∷ read_b (some (codes "more")) true
    ∷ []

run-start-copied_example :
    ((Relay.run both_ways Relay.start).a_to_b.written ≡ copied (turns_a both_ways))
    × ((Relay.run both_ways Relay.start).b_to_a.written ≡ copied (turns_b both_ways))
    × (returned (Relay.run both_ways Relay.start) ≡ not (goes_on (turns_b both_ways)))
run-start-copied_example = run-start-copied both_ways

-- Two connections, of which the first ends and the second hears the message, so the loop does not.
abbrev one_message : List (Serve.Event ℕ)
one_message =
    accepted
    ∷ accepted
    ∷ task_ends 0
    ∷ task_listens 1
    ∷ sent
    ∷ task_hears 1
    ∷ loop_hears
    ∷ accepted
    ∷ []

run-start-halted_le_example :
    length (Serve.run one_message Serve.start).stopped
      + count (not (Serve.run one_message Serve.start).is_serving)
    ≤ sends one_message
run-start-halted_le_example = run-start-halted_le one_message refl refl

-- Two connections more, of which one is past its handshake.
abbrev in_handshake : List (Serve.Event ℕ)
in_handshake = accepted ∷ accepted ∷ task_listens 3 ∷ []

run-start-drained_example :
    ((all_hear (dropped_in one_message in_handshake)).listening ≡ [])
    × ((all_hear (dropped_in one_message in_handshake)).is_serving ≡ false)
    × (mem_id 3 (all_hear (dropped_in one_message in_handshake)).live ≡ (
        mem_id 3 (dropped_in one_message in_handshake).live
        && not (mem_id 3 (dropped_in one_message in_handshake).listening)))
run-start-drained_example = run-start-drained one_message in_handshake 3
