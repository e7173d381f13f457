-- ===== src/Rpc.antt =====
-- WorkerRPC of sio/protocol/rpc.py, one end of a connection. The deferred of a call and its timer
-- are named by the number of the call, so pendingCalls is a dict with no more than its keys. Values
-- and names in messages are numbers. A command that is called may answer later: `reply` and
-- `reply_error` are steps of their own.
pub mod Places
pub mod Calls
pub mod Session
use sioworkers.Prelude.{
  ℕ, suc, Bool, true, false, Option, none, some, List, [], ◌∷◌, ◌++◌, if◌then◌else◌, Dict, lookup,
  insert, erase, Action, Result, ok, raised, Exception, value_error, key_error, protocol_error,
  already_called, pure, raise, gets, modify, or_raise, ◌>>=◌, ◌>>◌,
}

pub data RpcState : Type 0 where
  connected sent_hello established : RpcState

pub data Kind : Type 0 where
  method_not_found exception : Kind

-- A JSON message by its type; one of another type is `unknown`.
pub data Message : Type 0 where
  hello : ℕ → Message
  hello_ack unknown : Message
  call_of : ℕ → ℕ → ℕ → Message
  result_of : ℕ → ℕ → Message
  error_of : ℕ → Kind → ℕ → Option ℕ → Message

-- What a deferred is fired with.
pub data Answer : Type 0 where
  returned no_such_method : ℕ → Answer
  remote_error : ℕ → Option ℕ → Answer
  timed_out : Answer

pub record Request : Type 0 where
  pub id : ℕ
  pub method : ℕ
  pub args : ℕ

pub record Peer : Type 0 where
  pub request_id : ℕ
  pub pending_calls : Dict (Unit {0})
  pub is_server : Bool
  pub state : Option RpcState
  pub ready : Bool
  pub waiting : List Request
  pub client_info : ℕ
  pub timers : Dict (Unit {0})
  pub running : List Request
  pub fired : List (ℕ × Answer)
  pub sent : List Message
  pub closed : Bool

abbrev pub new_peer : Bool → Peer
new_peer server = record {
  request_id = 0;
  pending_calls = [];
  is_server = server;
  state = none;
  ready = false;
  waiting = [];
  client_info = 0;
  timers = [];
  running = [];
  fired = [];
  sent = [];
  closed = false;
}

-- `makeRemoteException`
abbrev pub make_remote_exception : Kind → ℕ → Option ℕ → Answer
make_remote_exception method_not_found text traceback = no_such_method text
make_remote_exception exception text traceback = remote_error text traceback

abbrev pub send_msg : Message → Peer → Peer
send_msg m p = record p { sent = p.sent ++ m ∷ [] }

abbrev pub set_state : RpcState → Peer → Peer
set_state s p = record p { state = some s }

abbrev pub fire : ℕ → Answer → Peer → Peer
fire id a p = record p { fired = p.fired ++ (id, a) ∷ [] }

-- `connectionMade`, where `info` is what getHelloData returns.
unfoldable pub connection_made : ℕ → Peer → Peer
connection_made info p =
    if p.is_server
    then set_state connected p
    else set_state sent_hello (send_msg (hello info) (set_state connected p))

-- `cb` of call
abbrev pub send_call : Request → Peer → Peer
send_call r p =
    send_msg (call_of r.id r.method r.args)
      (record p { pending_calls = insert r.id tt p.pending_calls })

-- `ready.callback(None)`: the calls that wait for the connection go out in their order.
unfoldable pub send_waiting : List Request → Peer → Peer
send_waiting [] p = record p { waiting = []; ready = true }
send_waiting (r ∷ rs) p = send_waiting rs (send_call r (record p { waiting = rs }))

-- `timer.cancel()`
unfoldable pub cancel : ℕ → Action Peer (Unit {0})
cancel id = do
  p ← gets (λ p. p)
  _ ← or_raise (lookup id p.timers) already_called
  modify (λ p. record p { timers = erase id p.timers })

-- The answer to a call that is pending.
unfoldable pub settle : ℕ → Answer → Action Peer (Unit {0})
settle id a = do
  p ← gets (λ p. p)
  _ ← or_raise (lookup id p.pending_calls) protocol_error
  modify (λ p. fire id a (record p { pending_calls = erase id p.pending_calls }))
  cancel id

-- A call of the other end, for the methods `cmd_…` that there are.
unfoldable pub dispatch : (ℕ → Bool) → Request → Peer → Peer
dispatch known r p =
    if known r.method
    then record p { running = p.running ++ r ∷ [] }
    else send_msg (error_of r.id method_not_found r.method none) p

unfoldable pub on_established : (ℕ → Bool) → Message → Action Peer (Unit {0})
on_established known (result_of id value) = settle id (returned value)
on_established known (call_of id method args) =
    modify (dispatch known (record { id = id; method = method; args = args }))
on_established known (error_of id kind text traceback) =
    settle id (make_remote_exception kind text traceback)
on_established known (hello info) = pure tt
on_established known hello_ack = pure tt
on_established known unknown = pure tt

-- Only a server is greeted.
unfoldable pub greet : Bool → ℕ → Action Peer (Unit {0})
greet false info = raise protocol_error
greet true info = modify λ p.
    send_waiting p.waiting
      (set_state established (send_msg hello_ack (record p { client_info = info })))

unfoldable pub on_connected : Message → Action Peer (Unit {0})
unfolding greet
on_connected (hello info) p = greet p.is_server info p
on_connected m p = raise protocol_error p

unfoldable pub on_sent_hello : Message → Action Peer (Unit {0})
on_sent_hello hello_ack = modify (λ p. send_waiting p.waiting (set_state established p))
on_sent_hello m = raise protocol_error

-- `_processMessage`
unfoldable pub by_state : Option RpcState → (ℕ → Bool) → Message → Action Peer (Unit {0})
by_state none known m = pure tt
by_state (some established) known m = on_established known m
by_state (some connected) known m = on_connected m
by_state (some sent_hello) known m = on_sent_hello m

unfoldable pub process_message : (ℕ → Bool) → Message → Action Peer (Unit {0})
process_message known m p = by_state p.state known m p

-- The two `except` clauses of stringReceived: the connection is closed, and only ProtocolError goes
-- no further.
abbrev pub is_raised : Result (Unit {0}) → Bool
is_raised (ok a) = false
is_raised (raised e) = true

abbrev pub swallow : Result (Unit {0}) → Result (Unit {0})
swallow (raised protocol_error) = ok tt
swallow r = r

abbrev pub guard_errors : Result (Unit {0}) × Peer → Result (Unit {0}) × Peer
guard_errors (r, p) = (swallow r, record p { closed = if is_raised r then true else p.closed })

-- `stringReceived`, where `none` is text that is not JSON.
unfoldable pub string_received : (ℕ → Bool) → Option Message → Action Peer (Unit {0})
string_received known none p = guard_errors (raised value_error, p)
string_received known (some m) p = guard_errors (process_message known m p)

abbrev pub reply : ℕ → ℕ → Peer → Peer
reply value request p = send_msg (result_of request value) p

abbrev pub reply_error : ℕ → Option ℕ → ℕ → Peer → Peer
reply_error text traceback request p = send_msg (error_of request exception text traceback) p

-- `_timeout`
unfoldable pub expire : ℕ → Action Peer (Unit {0})
expire id = do
  p ← gets (λ p. p)
  _ ← or_raise (lookup id p.pending_calls) key_error
  modify (λ p. fire id timed_out (record p { pending_calls = erase id p.pending_calls }))

-- The timer of a call goes off: the reactor forgets it and calls `_timeout`.
unfoldable pub time_out : ℕ → Action Peer (Unit {0})
unfolding expire
time_out id p = expire id (record p { timers = erase id p.timers })

-- A call goes out at once on an established connection, and waits for it otherwise.
unfoldable pub wait_or_send : Option RpcState → Request → Peer → Peer
wait_or_send (some established) r p = send_call r p
wait_or_send (some connected) r p = record p { waiting = p.waiting ++ r ∷ [] }
wait_or_send (some sent_hello) r p = record p { waiting = p.waiting ++ r ∷ [] }
wait_or_send none r p = record p { waiting = p.waiting ++ r ∷ [] }

unfoldable pub call : ℕ → ℕ → Peer → Peer
unfolding wait_or_send
call method args p =
    wait_or_send p.state (record { id = p.request_id; method = method; args = args })
      (record p { request_id = suc p.request_id; timers = insert p.request_id tt p.timers })

-- `connectionLost`: the timers of the pending calls are cancelled; their deferreds are not fired.
unfoldable pub connection_lost : List ℕ → Peer → Peer
connection_lost [] p = p
connection_lost (id ∷ ids) p = connection_lost ids (record p { timers = erase id p.timers })

abbrev pub keys : Dict (Unit {0}) → List ℕ
keys [] = []
keys ((id, u) ∷ d) = id ∷ keys d

-- What may happen to one end; a timer goes off only while the reactor has it.
pub data RpcEvent : Type 0 where
  makes_connection : ℕ → RpcEvent
  receives : Option Message → RpcEvent
  calls : ℕ → ℕ → RpcEvent
  times_out : ℕ → RpcEvent
  replies : ℕ → ℕ → RpcEvent
  loses_connection : RpcEvent

unfoldable pub rpc_step : (ℕ → Bool) → RpcEvent → Peer → Peer
rpc_step known (makes_connection info) p = connection_made info p
rpc_step known (receives m) p = (string_received known m p).1
rpc_step known (calls method args) p = call method args p
rpc_step known (times_out id) p = elim (lookup id p.timers) [
  | none ↦ p
  | some u ↦ (time_out id p).1
]
rpc_step known (replies value request) p = reply value request p
rpc_step known loses_connection p = connection_lost (keys p.pending_calls) p

unfoldable pub rpc_run : (ℕ → Bool) → List RpcEvent → Peer → Peer
rpc_run known [] p = p
rpc_run known (e ∷ es) p = rpc_run known es (rpc_step known e p)
