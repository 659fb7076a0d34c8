-- ===== src/Connection/Retry.antt =====
-- The bounds that a connection keeps: its queue, its attempts at re-registration, its user.
use blabby.Prelude.{
  ℕ, List, [], ◌∷◌, ◌+◌, ◌≤◌, Option, none, some, Bool, true, false, if◌then◌else◌, leb, ◌≡◌, refl,
  arith, length, Result, ok, err, Bool-cases, inl, inr,
}
use blabby.Text.{Bytes}
use blabby.Connection.Messages.{
  Pid, Outbound, auth_failed, app_ping, Message, inbound_auth, auth_timeout_expired,
  protocol_violation, app_ping_tick, app_pong_received, pong_timeout_expired, reregister_retry,
  terminated, forward_message, notify_room_event, connection_closed, read_pump_panicked,
  write_pump_failed, write_pump_closed,
}
use blabby.Connection.Heartbeat
use blabby.Connection.Heartbeat.{Cadence, Timers}
use blabby.Connection.Actor.{
  Connection, Remote, RegisterResponse, TransportError, Behaviour, pre_auth, post_auth, closing,
  started, outbound_buffer_size, reregister_max_attempts, Rejection, settle_auth, ◌>>=◌, resume,
  handle_auth, same_pid,
}
use blabby.Connection.Behaviour.{
  receive, behave, pre_auth_behaviour, post_auth_behaviour, attempt_reregister, settle_reregister,
  try_reregister, forward_chat, forward_room_event, chat_frame, event_frame, send_if_some,
  shut_down, reregistered, close_if, asked, user_text, on_timers,
}
use blabby.Connection.Run.{Event, delivered, taken, step, run, supervise, rest}
use blabby.Connection.Bounds.{
  Bounded, Ends, accept-Ends, close-Ends, refuse-Ends, send_stay-Ends, stay-Ends,
}

module _ {W : Type 0} (r : Remote W) where
  settle_auth-Ends :
      (o : Result Rejection (ℕ × Option Pid)) (c : Connection W)
      → c.behaviour ≡ pre_auth
      → Bounded c
      → Ends (settle_auth o c)
  unfolding settle_auth
  settle_auth-Ends (err rej) c b v =
      refuse-Ends (auth_failed rej.code rej.message) rej.reason c v.queue
  settle_auth-Ends (ok (u, none)) c b v = accept-Ends u _ refl (v.fresh b) v.queue
  settle_auth-Ends (ok (u, some pid)) c b v = accept-Ends u _ refl (v.fresh b) v.queue

  pre_auth-Ends :
      (m : Message) (c : Connection W)
      → c.behaviour ≡ pre_auth
      → Bounded c
      → Ends (pre_auth_behaviour r m c)
  unfolding pre_auth_behaviour
  pre_auth-Ends (inbound_auth token) c b v =
      settle_auth-Ends (handle_auth r token c.world).0
        (record c { world = (handle_auth r token c.world).1 }) b
        (record { queue = v.queue; known = v.known; tried = v.tried; fresh = v.fresh })
  pre_auth-Ends auth_timeout_expired c b v = refuse-Ends _ _ c v.queue
  pre_auth-Ends (protocol_violation reason) c b v = refuse-Ends _ _ c v.queue
  pre_auth-Ends app_ping_tick c b v = send_stay-Ends app_ping c v
  pre_auth-Ends pong_timeout_expired c b v = close-Ends _ c v.queue
  pre_auth-Ends _ c b v = stay-Ends c v

  send_frame-Ends : (o : Option Outbound) (c : Connection W) → Bounded c → Ends (send_if_some o c)
  send_frame-Ends none c v = stay-Ends c v
  send_frame-Ends (some m) c v = send_stay-Ends m c v

  -- What is left of the handler once the grain has answered.
  settle_reregister-Ends :
      (o : Option (Option Pid)) (c : Connection W)
      → c.behaviour ≡ post_auth
      → Bounded c
      → Ends ((settle_reregister o >>= close_if) c)
  unfolding settle_reregister
  settle_reregister-Ends (some none) c b v =
      stay-Ends _
        (record { queue = v.queue; known = v.known; tried = λ e. omega arith; fresh = λ e. refl })
  settle_reregister-Ends (some (some pid)) c b v =
      stay-Ends _
        (record { queue = v.queue; known = v.known; tried = λ e. omega arith; fresh = λ e. refl })
  settle_reregister-Ends none c b v =
      elim (Bool-cases (leb reregister_max_attempts (c.attempts + 1))) [
        | inl last ↦ rw last (close-Ends _ _ v.queue)
        | inr more ↦ rw more (
            stay-Ends _ (record {
              queue = v.queue;
              known = v.known;
              tried = λ e. ground arith;
              fresh = λ e. absurd (ground arith);
            }))
      ]

  try_reregister-Ends :
      (c : Connection W) → c.behaviour ≡ post_auth → Bounded c → Ends (try_reregister r c)
  unfolding try_reregister attempt_reregister
  try_reregister-Ends c b v = go r.register_connection
    where
      go :
          (o : Option (Bytes → Pid → W → Result TransportError RegisterResponse × W))
          → Ends ((asked r.self o >>= settle_reregister >>= close_if) c)
      go none = unfold Ends in v.queue
      go (some call) =
          settle_reregister-Ends (reregistered (call (user_text c.user_id) r.self c.world).0)
            (record c { world = (call (user_text c.user_id) r.self c.world).1 }) b
            (record { queue = v.queue; known = v.known; tried = v.tried; fresh = v.fresh })

  if-Ends :
      (t : Bool) (x y : Option (Unit {0}) × Connection W)
      → Ends x
      → Ends y
      → Ends (if t then x else y)
  if-Ends true x y h k = h
  if-Ends false x y h k = k

  post_auth-Ends :
      (m : Message) (c : Connection W)
      → c.behaviour ≡ post_auth
      → Bounded c
      → Ends (post_auth_behaviour r m c)
  unfolding post_auth_behaviour forward_chat forward_room_event
  post_auth-Ends (forward_message req) c b v = send_frame-Ends (chat_frame req) c v
  post_auth-Ends (notify_room_event req) c b v = send_frame-Ends (event_frame req) c v
  post_auth-Ends (terminated who) c b v =
      if-Ends (same_pid who c.grain_pid) _ _
        (if-Ends c.retry_pending _ _ (stay-Ends c v) (try_reregister-Ends c b v)) (stay-Ends c v)
  post_auth-Ends reregister_retry c b v =
      try_reregister-Ends (record c { retry_pending = false }) b
        (record { queue = v.queue; known = v.known; tried = v.tried; fresh = v.fresh })
  post_auth-Ends app_ping_tick c b v = send_stay-Ends app_ping c v
  post_auth-Ends pong_timeout_expired c b v = close-Ends _ c v.queue
  post_auth-Ends _ c b v = stay-Ends c v

  behave-Ends : (m : Message) (c : Connection W) → Bounded c → Ends (behave r m c)
  unfolding behave
  behave-Ends m c v = go c.behaviour refl
    where
      go : (b : Behaviour) → c.behaviour ≡ b → Ends (behave r m c)
      go pre_auth e = rw (e, behave) (pre_auth-Ends m c e v)
      go post_auth e = rw (e, behave) (post_auth-Ends m c e v)
      go closing e = rw (e, behave) (stay-Ends c v)

  -- What follows a handler and touches none of this.
  timers-Ends :
      (f : Timers → Timers) (x : Option (Unit {0}) × Connection W)
      → Ends x
      → Ends (resume x.0 (λ _. on_timers f) x.1)
  unfolding Ends
  timers-Ends f (none, c) h = h
  timers-Ends f (some _, c) v = record {
    queue = v.queue;
    known = v.known;
    tried = v.tried;
    fresh = v.fresh;
  }

  stopping-Bounded : (c : Connection W) → Bounded c → Bounded (record c { stopping = true })
  stopping-Bounded c v = record {
    queue = v.queue;
    known = v.known;
    tried = v.tried;
    fresh = v.fresh;
  }

  receive-Ends : (m : Message) (c : Connection W) → Bounded c → Ends (receive r m c)
  unfolding receive
  receive-Ends (connection_closed reason) c v = stay-Ends _ (stopping-Bounded c v)
  receive-Ends read_pump_panicked c v = stay-Ends _ (stopping-Bounded c v)
  receive-Ends (write_pump_failed reason kind) c v = stay-Ends _ (stopping-Bounded c v)
  receive-Ends (write_pump_closed failed) c v = stay-Ends _ (stopping-Bounded c v)
  receive-Ends app_ping_tick c v =
      timers-Ends Heartbeat.ensure_watchdog _ (behave-Ends app_ping_tick c v)
  receive-Ends app_pong_received c v =
      timers-Ends Heartbeat.reset_watchdog _ (behave-Ends app_pong_received c v)
  receive-Ends pong_timeout_expired c v =
      behave-Ends pong_timeout_expired (record c { timers = Heartbeat.cancel_watchdog c.timers })
        (record { queue = v.queue; known = v.known; tried = v.tried; fresh = v.fresh })
  receive-Ends m c v = behave-Ends m c v

-- While the connection is open.
abbrev Keeps : {W : Type 0} → Connection W → Type 0
Keeps c = (length c.outbound ≤ outbound_buffer_size) × (c.is_open ≡ true → Bounded c)

supervise-Keeps : {W : Type 0} (x : Option (Unit {0}) × Connection W) → Ends x → Keeps (supervise x)
unfolding Ends shut_down
supervise-Keeps (none, c) q = (q, λ e. absurd (ground arith))
supervise-Keeps (some _, c) v = go c.stopping
  where
    go : (t : Bool) → Keeps (if t then shut_down c else c)
    go true = (v.queue, λ e. absurd (ground arith))
    go false = (v.queue, λ _. v)

rest-short :
    (ms : List Outbound)
    → length ms ≤ outbound_buffer_size
    → length (rest ms) ≤ outbound_buffer_size
rest-short [] h = h
rest-short (m ∷ ms) h = omega arith

step-Keeps :
    {W : Type 0} (r : Remote W) (c : Connection W) (e : Event) → Keeps c → Keeps (step r c e)
unfolding step
step-Keeps r c (delivered m) k = go c.is_open refl
  where
    go : (t : Bool) → c.is_open ≡ t → Keeps (if t then supervise (receive r m c) else c)
    go true e = supervise-Keeps (receive r m c) (receive-Ends r m c (k.1 e))
    go false e = k
step-Keeps r c taken k = go c.is_open refl
  where
    go :
        (t : Bool)
        → c.is_open ≡ t
        → Keeps (if t then record c { outbound = rest c.outbound } else c)
    go true e = (
      rest-short c.outbound k.0,
      λ _. record {
        queue = rest-short c.outbound k.0;
        known = (k.1 e).known;
        tried = (k.1 e).tried;
        fresh = (k.1 e).fresh;
      },
    )
    go false e = k

run-Keeps :
    {W : Type 0} (r : Remote W) (c : Connection W) (es : List Event) → Keeps c → Keeps (run r c es)
unfolding run
run-Keeps r c [] k = k
run-Keeps r c (e ∷ es) k = run-Keeps r (step r c e) es (step-Keeps r c e k)

-- After any history the channel holds at most 64 frames. While the connection is open, one in use
-- has a user and has failed less than 3 times in a row to register again, and one that has not
-- authenticated has not tried.
pub connection-Bounded :
    {W : Type 0} (r : Remote W) (cadence : Option Cadence) (w : W) (es : List Event)
    → (length (run r (started cadence w) es).outbound ≤ outbound_buffer_size)
      × ((run r (started cadence w) es).is_open ≡ true → Bounded (run r (started cadence w) es))
unfolding started
connection-Bounded r cadence w es = run-Keeps r (started cadence w) es (
  omega arith,
  λ _. record {
    queue = omega arith;
    known = λ e. absurd (ground arith);
    tried = λ e. absurd (ground arith);
    fresh = λ e. refl;
  },
)
