-- ===== src/Tests/Connection.antt =====
-- A connection of a client and a server, with a call that waits.
use sioworkers.Prelude.{
  ℕ, ◌≡◌, refl, Bool, true, false, some, List, [], ◌∷◌, ◌++◌, map, ok, raised, key_error,
  already_called, ltb, if◌then◌else◌,
}
use sioworkers.Rpc.{
  sent_hello, connected, established, hello, hello_ack, call_of, result_of, new_peer, Peer,
  RpcEvent, makes_connection, receives, calls, times_out, connection_made, string_received, rpc_run,
  time_out, call, returned,
}
use sioworkers.Rpc.Places.{places}
use sioworkers.Rpc.Calls.{calls_counted}
use sioworkers.Rpc.Session.{call_message, handshake, early_timeout}

abbrev no_commands : ℕ → Bool
no_commands n = false

abbrev talk : List RpcEvent
talk =
    makes_connection 9
    ∷ calls 4 5
    ∷ receives (some hello_ack)
    ∷ calls 6 7
    ∷ receives (some (result_of 0 8))
    ∷ times_out 1
    ∷ []

calls_counted_example :
    places 1 (rpc_run no_commands talk (new_peer false))
    ≡ (if ltb 1 (rpc_run no_commands talk (new_peer false)).request_id then 1 else 0)
calls_counted_example = calls_counted no_commands false talk 1

abbrev client : Peer
client = record (new_peer false) { waiting = record { id = 0; method = 4; args = 5 } ∷ [] }

handshake_example :
    let c1 = connection_made 9 client in
    let s1 = connection_made 0 (new_peer true) in
    let c2 = string_received no_commands (some hello_ack) c1 in
    let s2 = string_received no_commands (some (hello 9)) s1 in
    (c1.sent ≡ client.sent ++ hello 9 ∷ [])
    × (s2.0 ≡ ok tt)
    × (c2.0 ≡ ok tt)
    × (s2.1.state ≡ some established)
    × (c2.1.state ≡ some established)
    × (s2.1.client_info ≡ 9)
    × (s2.1.sent ≡ (new_peer true).sent ++ (hello_ack ∷ map call_message (new_peer true).waiting))
    × (c2.1.sent ≡ client.sent ++ (hello 9 ∷ map call_message client.waiting))
    × (s2.1.closed ≡ false)
    × (c2.1.closed ≡ false)
handshake_example = handshake no_commands no_commands 9 0 client (new_peer true) refl refl

abbrev greeted : Peer
greeted = record (new_peer true) { state = some connected }

abbrev greeting : Peer
greeting = record client { state = some sent_hello; request_id = 1; timers = (0, tt) ∷ [] }

early_timeout_example :
    let late = time_out 1 (call 6 7 greeting) in
    let ready_now = string_received no_commands (some hello_ack) late.1 in
    let end = string_received no_commands (some (result_of 1 8)) ready_now.1 in
    (late.0 ≡ raised key_error)
    × (late.1.fired ≡ [])
    × (ready_now.0 ≡ ok tt)
    × (ready_now.1.fired ≡ [])
    × (ready_now.1.sent ≡ call_of 0 4 5 ∷ call_of 1 6 7 ∷ [])
    × (end.1.fired ≡ (1, returned 8) ∷ [])
    × (end.0 ≡ raised already_called)
    × (end.1.closed ≡ true)
early_timeout_example = early_timeout no_commands 6 7 8 greeting refl refl (tt, tt)
