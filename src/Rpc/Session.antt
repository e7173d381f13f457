-- ===== src/Rpc/Session.antt =====
-- How a connection of sio/protocol/rpc.py is set up, and what is refused before it is.
use sioworkers.Prelude.{
  none, suc, lookup, lookup-insert, lookup-erase, insert-IsDict, insert, erase, IsDict, arith,
  append_assoc, append-nil, ℕ, ◌≡◌, refl, Bool, true, false, some, List, [], ◌∷◌, ◌++◌, map, ok,
  raised, key_error, already_called, ◌∙◌, ap, sym, if◌then◌else◌, protocol_error,
}
use sioworkers.Rpc.{
  Answer, fire, connected, sent_hello, established, Message, hello, hello_ack, call_of, result_of,
  error_of, unknown, Request, Peer, guard_errors, connection_made, send_waiting, send_call,
  string_received, process_message, by_state, on_connected, on_sent_hello, greet, on_established,
  settle, cancel, time_out, expire, call, wait_or_send, send_msg, set_state, returned,
}

abbrev pub call_message : Request → Message
call_message r = call_of r.id r.method r.args

-- What the calls that waited for the connection leave.
record Flushed (rs : List Request) (p q : Peer) : Type 0 where
  pub state : q.state ≡ p.state
  pub sent : q.sent ≡ p.sent ++ map call_message rs
  pub info : q.client_info ≡ p.client_info
  pub none_left : q.waiting ≡ []
  pub open_still : q.closed ≡ p.closed
  pub is_ready : q.ready ≡ true

send_waiting-Flushed : (rs : List Request) (p : Peer) → Flushed rs p (send_waiting rs p)
unfolding send_waiting
send_waiting-Flushed [] p = record {
  state = refl;
  sent = sym (append-nil p.sent);
  info = refl;
  none_left = refl;
  open_still = refl;
  is_ready = refl;
}
send_waiting-Flushed (r ∷ rs) p =
    let h = send_waiting-Flushed rs (send_call r (record p { waiting = rs })) in
    record {
      state = h.state;
      sent = h.sent ∙ append_assoc p.sent (call_message r ∷ []) (map call_message rs);
      info = h.info;
      none_left = h.none_left;
      open_still = h.open_still;
      is_ready = h.is_ready;
    }

client_made :
    (info : ℕ) (c : Peer)
    → c.is_server ≡ false
    → connection_made info c ≡ set_state sent_hello (send_msg (hello info) (set_state connected c))
unfolding connection_made
client_made info c e = rw (connection_made, e) refl

server_made :
    (info : ℕ) (s : Peer) → s.is_server ≡ true → connection_made info s ≡ set_state connected s
unfolding connection_made
server_made info s e = rw (connection_made, e) refl

-- The greeting and its answer, each in the state in which it is expected.
received_hello :
    (known : ℕ → Bool) (info : ℕ) (p : Peer)
    → p.state ≡ some connected
    → p.is_server ≡ true
    → string_received known (some (hello info)) p ≡ (
      ok tt,
      send_waiting p.waiting
          (set_state established (send_msg hello_ack (record p { client_info = info }))),
    )
unfolding string_received process_message by_state on_connected greet
received_hello known info p e f =
    ap (λ s. guard_errors (by_state s known (hello info) p)) e
    ∙ ap (λ b. guard_errors (greet b info p)) f

received_ack :
    (known : ℕ → Bool) (p : Peer)
    → p.state ≡ some sent_hello
    → string_received known (some hello_ack) p
      ≡ (ok tt, send_waiting p.waiting (set_state established p))
unfolding string_received process_message by_state on_sent_hello
received_ack known p e = ap (λ s. guard_errors (by_state s known hello_ack p)) e

-- A client and a server that are connected greet each other: the client sends its data and the
-- server, when it gets them, its answer, after which both are established. Neither connection is
-- closed, the server has the client's data, and each sends the calls that waited, in their order.
pub handshake :
    (known known' : ℕ → Bool) (info nothing : ℕ) (c s : Peer)
    → c.is_server ≡ false
    → s.is_server ≡ true
    → let c1 = connection_made info c in
      let s1 = connection_made nothing s in
      let c2 = string_received known (some hello_ack) c1 in
      let s2 = string_received known' (some (hello info)) s1 in
      (c1.sent ≡ c.sent ++ hello info ∷ [])
      × (s2.0 ≡ ok tt)
      × (c2.0 ≡ ok tt)
      × (s2.1.state ≡ some established)
      × (c2.1.state ≡ some established)
      × (s2.1.client_info ≡ info)
      × (s2.1.sent ≡ s.sent ++ (hello_ack ∷ map call_message s.waiting))
      × (c2.1.sent ≡ c.sent ++ (hello info ∷ map call_message c.waiting))
      × (s2.1.closed ≡ s.closed)
      × (c2.1.closed ≡ c.closed)
handshake known known' info nothing c s e f =
    rw (client_made info c e, server_made nothing s f)
      (rw
        (
          received_ack known (set_state sent_hello (send_msg (hello info) (set_state connected c)))
              refl,
          received_hello known' info (set_state connected s) refl f,
        )
        (let one = send_waiting-Flushed c.waiting _ in
          let two = send_waiting-Flushed s.waiting _ in
          (
            refl,
            refl,
            refl,
            two.state,
            one.state,
            two.info,
            two.sent ∙ append_assoc s.sent _ _,
            one.sent ∙ append_assoc c.sent _ _,
            two.open_still,
            one.open_still,
          )))

-- The messages that an end takes before the connection is established: a server the client's
-- greeting, a client the answer to its own.
abbrev pub Expected : Bool → Message → Type 0
Expected true (hello info) = Unit {0}
Expected false hello_ack = Unit {0}
Expected server m = ⊥

refused :
    (known : ℕ → Bool) (server : Bool) (m : Message) (p : Peer)
    → ¬ Expected server m
    → by_state (some (if server then connected else sent_hello)) known m p
      ≡ (raised protocol_error, p)
unfolding by_state on_connected on_sent_hello
refused known true (hello info) p n = absurd (n tt)
refused known true hello_ack p n = refl
refused known true unknown p n = refl
refused known true (call_of id method args) p n = refl
refused known true (result_of id value) p n = refl
refused known true (error_of id kind text traceback) p n = refl
refused known false (hello info) p n = refl
refused known false hello_ack p n = absurd (n tt)
refused known false unknown p n = refl
refused known false (call_of id method args) p n = refl
refused known false (result_of id value) p n = refl
refused known false (error_of id kind text traceback) p n = refl

-- Any other message, on an end that is connected but not established, closes the connection and
-- does nothing else; the error goes no further.
pub unexpected_message :
    (known : ℕ → Bool) (m : Message) (p : Peer)
    → p.state ≡ some (if p.is_server then connected else sent_hello)
    → ¬ Expected p.is_server m
    → string_received known (some m) p ≡ (ok tt, record p { closed = true })
unfolding string_received process_message
unexpected_message known m p e n =
    ap (λ s. guard_errors (by_state s known m p)) e
    ∙ ap guard_errors (refused known p.is_server m p n)

-- What the calls that wait leave of the rest, and the last of them.
record Unmoved (p q : Peer) : Type 0 where
  pub fired : q.fired ≡ p.fired
  pub timers : q.timers ≡ p.timers

send_waiting-Unmoved : (rs : List Request) (p : Peer) → Unmoved p (send_waiting rs p)
unfolding send_waiting
send_waiting-Unmoved [] p = record { fired = refl; timers = refl }
send_waiting-Unmoved (r ∷ rs) p =
    let h = send_waiting-Unmoved rs (send_call r (record p { waiting = rs })) in
    record { fired = h.fired; timers = h.timers }

last_pending :
    (rs : List Request) (r : Request) (p : Peer)
    → lookup r.id (send_waiting (rs ++ r ∷ []) p).pending_calls ≡ some tt
unfolding send_waiting
last_pending [] r p = rw (lookup-insert r.id r.id tt p.pending_calls) (ground arith)
last_pending (s ∷ rs) r p = last_pending rs r (send_call s (record p { waiting = rs ++ r ∷ [] }))

settle-without_timer :
    (id : ℕ) (a : Answer) (p : Peer)
    → lookup id p.pending_calls ≡ some tt
    → lookup id p.timers ≡ none
    → settle id a p
      ≡ (raised already_called, fire id a (record p { pending_calls = erase id p.pending_calls }))
unfolding settle cancel
settle-without_timer id a p e f = ground arith

received_result :
    (known : ℕ → Bool) (id value : ℕ) (p : Peer)
    → p.state ≡ some established
    → lookup id p.pending_calls ≡ some tt
    → lookup id p.timers ≡ none
    → string_received known (some (result_of id value)) p ≡ (
      raised already_called,
      record (fire id (returned value) (record p { pending_calls = erase id p.pending_calls })) {
        closed = true;
      },
    )
unfolding string_received process_message by_state on_established
received_result known id value p e f g =
    ap (λ s. guard_errors (by_state s known (result_of id value) p)) e
    ∙ ap guard_errors (settle-without_timer id (returned value) p f g)

-- A call that has a timer and waits for the connection.
expire-away :
    (id : ℕ) (p : Peer) → lookup id p.pending_calls ≡ none → expire id p ≡ (raised key_error, p)
unfolding expire
expire-away id p e = rw e refl

called :
    (method args : ℕ) (p : Peer)
    → p.state ≡ some sent_hello
    → call method args p ≡ record p {
      request_id = suc p.request_id;
      timers = insert p.request_id tt p.timers;
      waiting = p.waiting ++ record { id = p.request_id; method = method; args = args } ∷ [];
    }
unfolding call wait_or_send
called method args p e =
    ap
      (λ s.
        wait_or_send s (record { id = p.request_id; method = method; args = args })
          (record p { request_id = suc p.request_id; timers = insert p.request_id tt p.timers }))
      e

-- A client whose greeting is not answered yet calls a command, and the timer of the call goes off
-- first: the timer finds no pending call and raises KeyError, and the call is not answered with a
-- timeout. The call is still sent, after those that waited before it, when the connection is
-- established, and when its result comes the call gets it, but the cancelling of the timer raises and
-- the connection is closed.
pub early_timeout :
    (known : ℕ → Bool) (method args value : ℕ) (p : Peer)
    → p.state ≡ some sent_hello
    → lookup p.request_id p.pending_calls ≡ none
    → IsDict p.timers
    → let n = p.request_id in
      let late = time_out n (call method args p) in
      let ready_now = string_received known (some hello_ack) late.1 in
      let end = string_received known (some (result_of n value)) ready_now.1 in
      (late.0 ≡ raised key_error)
      × (late.1.fired ≡ p.fired)
      × (ready_now.0 ≡ ok tt)
      × (ready_now.1.fired ≡ p.fired)
      × (ready_now.1.sent
          ≡ p.sent
            ++ map call_message (p.waiting ++ record { id = n; method = method; args = args } ∷ []))
      × (end.1.fired ≡ p.fired ++ (n, returned value) ∷ [])
      × (end.0 ≡ raised already_called)
      × (end.1.closed ≡ true)
unfolding time_out
early_timeout known method args value p e f d =
    let n = p.request_id in
    let r : Request = record { id = n; method = method; args = args } in
    let q : Peer = record p {
      request_id = suc n;
      timers = erase n (insert n tt p.timers);
      waiting = p.waiting ++ r ∷ [];
    } in
    let opened : Peer = send_waiting (p.waiting ++ r ∷ []) (set_state established q) in
    let flushed = send_waiting-Flushed (p.waiting ++ r ∷ []) (set_state established q) in
    let same = send_waiting-Unmoved (p.waiting ++ r ∷ []) (set_state established q) in
    let gone : lookup n opened.timers ≡ none =
      ap (lookup n) same.timers
      ∙ lookup-erase n n (insert n tt p.timers) (insert-IsDict n tt p.timers d)
      ∙ ground arith in
    rw
      (
        called method args p e,
        expire-away n q f,
        received_ack known q e,
        received_result known n value opened flushed.state
            (last_pending p.waiting r (set_state established q)) gone,
      )
      (
        refl,
        refl,
        refl,
        same.fired,
        flushed.sent,
        ap (λ l. l ++ (n, returned value) ∷ []) same.fired,
        refl,
        refl,
      )
