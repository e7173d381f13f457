-- ===== src/Rpc/Calls.antt =====
-- No step of sio/protocol/rpc.py loses a call or answers one twice.
use sioworkers.Prelude.{
  ℕ, ◌+◌, ◌≡◌, refl, inl, inr, Bool, true, false, Option, none, some, List, [], ◌∷◌, ◌++◌, arith,
  ltb, ◌==◌, if◌then◌else◌, lookup, IsDict, insert-IsDict, Option-cases, Bool-cases, ap,
}
use sioworkers.Rpc.{
  RpcState, connected, sent_hello, established, Message, hello, hello_ack, unknown, call_of,
  result_of, error_of, Answer, timed_out, Request, Peer, new_peer, connection_made, send_call,
  send_waiting, cancel, settle, dispatch, on_established, on_connected, greet, on_sent_hello,
  by_state, process_message, string_received, time_out, expire, wait_or_send, call, connection_lost,
  RpcEvent, makes_connection, receives, calls, times_out, replies, loses_connection, rpc_step,
  rpc_run, keys,
}
use sioworkers.Rpc.Places.{
  count_waiting, one_if_some, places, Counted, count_waiting-append, one_if-insert, same-Counted,
  answered-Counted,
}

cancel-Counted : (id : ℕ) (p : Peer) → Counted p → Counted (cancel id p).1
unfolding cancel
cancel-Counted id p h = elim (Option-cases (lookup id p.timers)) [
  | inl e ↦ rw e h
  | inr (u, e) ↦ rw e (same-Counted p _ refl refl refl refl h)
]

settle-Counted : (id : ℕ) (a : Answer) (p : Peer) → Counted p → Counted (settle id a p).1
unfolding settle
settle-Counted id a p h = elim (Option-cases (lookup id p.pending_calls)) [
  | inl e ↦ rw e h
  | inr (u, e) ↦ rw e (cancel-Counted id _ (answered-Counted id a p e h))
]

expire-Counted : (id : ℕ) (p : Peer) → Counted p → Counted (expire id p).1
unfolding expire
expire-Counted id p h = elim (Option-cases (lookup id p.pending_calls)) [
  | inl e ↦ rw e h
  | inr (u, e) ↦ rw e (answered-Counted id timed_out p e h)
]

time_out-Counted : (id : ℕ) (p : Peer) → Counted p → Counted (time_out id p).1
unfolding time_out
time_out-Counted id p h = expire-Counted id _ (same-Counted p _ refl refl refl refl h)

not_pending :
    (r : Request) (rs : List Request) (p : Peer)
    → p.waiting ≡ r ∷ rs
    → Counted p
    → lookup r.id p.pending_calls ≡ none
not_pending r rs p e h = elim (Option-cases (lookup r.id p.pending_calls)) [
  | inl f ↦ f
  | inr (u, f) ↦ absurd (ground (arith, h.each r.id, ap (count_waiting r.id) e, ap one_if_some f))
]

-- The first of the waiting calls goes out.
send_call-Counted :
    (r : Request) (rs : List Request) (p : Peer)
    → p.waiting ≡ r ∷ rs
    → Counted p
    → Counted (send_call r (record p { waiting = rs }))
send_call-Counted r rs p e h = record {
  each = λ j. omega (
    arith,
    h.each j,
    ap (count_waiting j) e,
    one_if-insert j r.id p.pending_calls (not_pending r rs p e h),
  );
  dict = insert-IsDict r.id tt p.pending_calls h.dict;
}

send_waiting-Counted :
    (rs : List Request) (p : Peer) → p.waiting ≡ rs → Counted p → Counted (send_waiting rs p)
unfolding send_waiting
send_waiting-Counted [] p e h = record {
  each = λ j. omega (arith, h.each j, ap (count_waiting j) e);
  dict = h.dict;
}
send_waiting-Counted (r ∷ rs) p e h =
    send_waiting-Counted rs (send_call r (record p { waiting = rs })) refl
      (send_call-Counted r rs p e h)

not_made : (p : Peer) → Counted p → lookup p.request_id p.pending_calls ≡ none
not_made p h = elim (Option-cases (lookup p.request_id p.pending_calls)) [
  | inl f ↦ f
  | inr (u, f) ↦ absurd (ground (arith, h.each p.request_id, ap one_if_some f))
]

-- A new call, before it is in any place.
record Fresh (r : Request) (p : Peer) : Type 0 where
  others :
      (id : ℕ)
      → places id p + (if r.id == id then 1 else 0) ≡ (if ltb id p.request_id then 1 else 0)
  absent : lookup r.id p.pending_calls ≡ none
  valid : IsDict p.pending_calls

waits-Counted :
    (r : Request) (p : Peer) → Fresh r p → Counted (record p { waiting = p.waiting ++ r ∷ [] })
waits-Counted r p h = record {
  each = λ j. omega (arith, h.others j, count_waiting-append j p.waiting r);
  dict = h.valid;
}

wait_or_send-Counted :
    (s : Option RpcState) (r : Request) (p : Peer) → Fresh r p → Counted (wait_or_send s r p)
unfolding wait_or_send
wait_or_send-Counted (some established) r p h = record {
  each = λ j. omega (arith, h.others j, one_if-insert j r.id p.pending_calls h.absent);
  dict = insert-IsDict r.id tt p.pending_calls h.valid;
}
wait_or_send-Counted (some connected) r p h = waits-Counted r p h
wait_or_send-Counted (some sent_hello) r p h = waits-Counted r p h
wait_or_send-Counted none r p h = waits-Counted r p h

call-Counted : (method args : ℕ) (p : Peer) → Counted p → Counted (call method args p)
unfolding call
call-Counted method args p h =
    wait_or_send-Counted p.state _ _
      (record { others = λ j. ground (arith, h.each j); absent = not_made p h; valid = h.dict })

dispatch-Counted :
    (known : ℕ → Bool) (r : Request) (p : Peer) → Counted p → Counted (dispatch known r p)
unfolding dispatch
dispatch-Counted known r p h = elim (Bool-cases (known r.method)) [
  | inl e ↦ rw (dispatch, e) (same-Counted p _ refl refl refl refl h)
  | inr e ↦ rw (dispatch, e) (same-Counted p _ refl refl refl refl h)
]

hello-Counted : (server : Bool) (info : ℕ) (p : Peer) → Counted p → Counted (greet server info p).1
unfolding greet
hello-Counted false info p h = h
hello-Counted true info p h =
    send_waiting-Counted p.waiting _ refl (same-Counted p _ refl refl refl refl h)

process-Counted :
    (known : ℕ → Bool) (s : Option RpcState) (m : Message) (p : Peer)
    → Counted p
    → Counted (by_state s known m p).1
unfolding by_state on_established on_sent_hello on_connected
process-Counted known none m p h = h
process-Counted known (some established) (hello info) p h = h
process-Counted known (some established) hello_ack p h = h
process-Counted known (some established) unknown p h = h
process-Counted known (some established) (call_of id method args) p h = dispatch-Counted known _ p h
process-Counted known (some established) (result_of id value) p h = settle-Counted id _ p h
process-Counted known (some established) (error_of id kind text traceback) p h =
    settle-Counted id _ p h
process-Counted known (some connected) (hello info) p h = hello-Counted p.is_server info p h
process-Counted known (some connected) hello_ack p h = h
process-Counted known (some connected) unknown p h = h
process-Counted known (some connected) (call_of id method args) p h = h
process-Counted known (some connected) (result_of id value) p h = h
process-Counted known (some connected) (error_of id kind text traceback) p h = h
process-Counted known (some sent_hello) hello_ack p h =
    send_waiting-Counted p.waiting _ refl (same-Counted p _ refl refl refl refl h)
process-Counted known (some sent_hello) (hello info) p h = h
process-Counted known (some sent_hello) unknown p h = h
process-Counted known (some sent_hello) (call_of id method args) p h = h
process-Counted known (some sent_hello) (result_of id value) p h = h
process-Counted known (some sent_hello) (error_of id kind text traceback) p h = h

received-Counted :
    (known : ℕ → Bool) (m : Option Message) (p : Peer)
    → Counted p
    → Counted (string_received known m p).1
unfolding string_received process_message
received-Counted known none p h = same-Counted p _ refl refl refl refl h
received-Counted known (some m) p h =
    same-Counted (by_state p.state known m p).1 _ refl refl refl refl
      (process-Counted known p.state m p h)

lost-Counted : (ids : List ℕ) (p : Peer) → Counted p → Counted (connection_lost ids p)
unfolding connection_lost
lost-Counted [] p h = h
lost-Counted (id ∷ ids) p h = lost-Counted ids _ (same-Counted p _ refl refl refl refl h)

made-Counted : (info : ℕ) (p : Peer) → Counted p → Counted (connection_made info p)
unfolding connection_made
made-Counted info p h = elim (Bool-cases p.is_server) [
  | inl e ↦ rw (connection_made, e) (same-Counted p _ refl refl refl refl h)
  | inr e ↦ rw (connection_made, e) (same-Counted p _ refl refl refl refl h)
]

step-Counted :
    (known : ℕ → Bool) (e : RpcEvent) (p : Peer) → Counted p → Counted (rpc_step known e p)
unfolding rpc_step
step-Counted known (makes_connection info) p h = made-Counted info p h
step-Counted known (receives m) p h = received-Counted known m p h
step-Counted known (calls method args) p h = call-Counted method args p h
step-Counted known (times_out id) p h = elim (Option-cases (lookup id p.timers)) [
  | inl e ↦ rw (rpc_step, e) h
  | inr (u, e) ↦ rw (rpc_step, e) (time_out-Counted id p h)
]
step-Counted known (replies value request) p h = same-Counted p _ refl refl refl refl h
step-Counted known loses_connection p h = lost-Counted (keys p.pending_calls) p h

pub run-Counted :
    (known : ℕ → Bool) (es : List RpcEvent) (p : Peer) → Counted p → Counted (rpc_run known es p)
unfolding rpc_run
run-Counted known [] p h = h
run-Counted known (e ∷ es) p h =
    run-Counted known es (rpc_step known e p) (step-Counted known e p h)

pub new_peer-Counted : (server : Bool) → Counted (new_peer server)
new_peer-Counted server = record { each = λ j. ground arith; dict = tt }

-- Whatever happens to one end of a connection, in any order, each call that it has made is in just
-- one place and once there: waiting for the connection, pending, or answered. So no call is
-- answered twice or lost, and no answer is given to a call that was not made.
pub calls_counted :
    (known : ℕ → Bool) (server : Bool) (es : List RpcEvent) (id : ℕ)
    → places id (rpc_run known es (new_peer server))
      ≡ (if ltb id (rpc_run known es (new_peer server)).request_id then 1 else 0)
calls_counted known server es id =
    (run-Counted known es (new_peer server) (new_peer-Counted server)).each id
