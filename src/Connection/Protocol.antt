-- ===== src/Connection/Protocol.antt =====
-- What a client may see on the wire: the actor refines the protocol's automaton.
use blabby.Prelude.{
  ℕ, List, [], ◌∷◌, Option, none, some, Bool, true, false, if◌then◌else◌, ◌≡◌, ◌≢◌, refl, sym, ap,
  ◌∙◌, arith, ◌+◌, ◌<◌, ◌++◌, length, length-append, ltb, String, Result, ok, err,
}
use blabby.ErrCode.{Code, auth_missing_token}
use blabby.Connection.Messages.{
  Pid, ForwardRequest, NotifyRequest, Outbound, auth_succeeded, auth_failed, app_ping,
  close_connection, Message, Violation, inbound_auth, auth_timeout_expired, protocol_violation,
  app_ping_tick, app_pong_received, pong_timeout_expired, reregister_retry, terminated,
  forward_message, notify_room_event, connection_closed, read_pump_panicked, write_pump_failed,
  write_pump_closed,
}
use blabby.Text.{Bytes}
use blabby.Room.Ports.{EventType, joined, left}
use blabby.Connection.Heartbeat
use blabby.Connection.Heartbeat.{Cadence}
use blabby.Connection.Actor.{
  Connection, Remote, started, same_pid, resume, become_closing, Behaviour, pre_auth, post_auth,
  closing, outbound_buffer_size, send_outbound, send_outbound_best_effort, ◌>>◌, settle_auth,
  handle_auth, Rejection,
}
use blabby.Connection.Behaviour.{
  receive, behave, chat_of, event_of, chat_frame, event_frame, send_if_some, close_if,
  attempt_reregister, try_reregister, forward_chat, forward_room_event, pre_auth_behaviour,
  post_auth_behaviour, shut_down,
}
use blabby.Connection.Run.{Event, delivered, taken, step, run, supervise}
use blabby.Connection.Phases.{
  Follows, Leaves, Phase, advance, closed, greeting, live, phase_of, reaches, refuse-Leaves,
  send_become-Leaves, send_stay-Leaves, stands_for,
}

module _ {W : Type 0} (r : Remote W) where
  settle_auth-Leaves :
      (o : Result Rejection (ℕ × Option Pid)) (c : Connection W)
      → phase_of c ≡ some greeting
      → Leaves (settle_auth o c)
  unfolding settle_auth
  settle_auth-Leaves (err rej) c h = refuse-Leaves rej.code rej.message rej.reason c h
  settle_auth-Leaves (ok (u, none)) c h =
      send_become-Leaves auth_succeeded post_auth _ greeting h refl
  settle_auth-Leaves (ok (u, some pid)) c h =
      send_become-Leaves auth_succeeded post_auth _ greeting h refl

  stay-Leaves :
      (c : Connection W) → phase_of c ≡ some (stands_for c.behaviour) → Leaves (some tt, c)
  unfolding Leaves
  stay-Leaves c h = h

  close-Leaves :
      (reason : String) (c : Connection W)
      → phase_of c ≡ some (stands_for c.behaviour)
      → c.behaviour ≢ closing
      → Leaves (become_closing reason c)
  unfolding become_closing
  close-Leaves reason c h differs =
      send_become-Leaves (close_connection reason) closing c (stands_for c.behaviour) h
        (closes c.behaviour differs)
    where
      closes :
          (b : Behaviour)
          → b ≢ closing
          → advance (stands_for b) (close_connection reason) ≡ some closed
      closes pre_auth d = refl
      closes post_auth d = refl
      closes closing d = absurd (d refl)

  pre_auth-Leaves :
      (m : Message) (c : Connection W)
      → c.behaviour ≡ pre_auth
      → phase_of c ≡ some greeting
      → Leaves (pre_auth_behaviour r m c)
  unfolding pre_auth_behaviour
  pre_auth-Leaves (inbound_auth token) c b h =
      settle_auth-Leaves (handle_auth r token c.world).0
        (record c { world = (handle_auth r token c.world).1 }) h
  pre_auth-Leaves auth_timeout_expired c b h = refuse-Leaves auth_missing_token _ _ c h
  pre_auth-Leaves (protocol_violation v) c b h = refuse-Leaves auth_missing_token _ _ c h
  pre_auth-Leaves app_ping_tick c b h = send_stay-Leaves app_ping c (rw b h) (rw b refl)
  pre_auth-Leaves pong_timeout_expired c b h = close-Leaves _ c (rw b h) (λ e. cc)
  pre_auth-Leaves _ c b h = stay-Leaves c (rw b h)

  if-Leaves :
      (t : Bool) (x y : Option (Unit {0}) × Connection W)
      → Leaves x
      → Leaves y
      → Leaves (if t then x else y)
  if-Leaves true x y h k = h
  if-Leaves false x y h k = k

  -- A frame that may go out while the connection is in use.
  AllLive : Option Outbound → Type 0
  AllLive none = Unit
  AllLive (some m) = advance live m ≡ some live

  send_live-Leaves :
      (o : Option Outbound) (c : Connection W)
      → AllLive o
      → c.behaviour ≡ post_auth
      → phase_of c ≡ some live
      → Leaves (send_if_some o c)
  unfolding AllLive
  send_live-Leaves none c l b h = stay-Leaves c (rw b h)
  send_live-Leaves (some m) c l b h = send_stay-Leaves m c (rw b h) (rw b l)

  chat_of-AllLive :
      (req : ForwardRequest) (room sender : Option Bytes) → AllLive (chat_of req room sender)
  unfolding AllLive
  chat_of-AllLive req (some room) (some sender) = refl
  chat_of-AllLive req (some room) none = tt
  chat_of-AllLive req none sender = tt

  event_of-AllLive :
      (req : NotifyRequest) (kind : Option EventType) (room user : Option Bytes)
      → AllLive (event_of req kind room user)
  unfolding AllLive
  event_of-AllLive req (some joined) (some room) (some user) = refl
  event_of-AllLive req (some left) (some room) (some user) = refl
  event_of-AllLive req (some joined) (some room) none = tt
  event_of-AllLive req (some left) (some room) none = tt
  event_of-AllLive req (some joined) none user = tt
  event_of-AllLive req (some left) none user = tt
  event_of-AllLive req none room user = tt

  -- Asking for the grain again sends nothing and leaves the behaviour.
  attempt-keeps :
      (c : Connection W)
      → ((attempt_reregister r c).1.sent ≡ c.sent)
        × ((attempt_reregister r c).1.behaviour ≡ c.behaviour)
  unfolding attempt_reregister
  attempt-keeps c = ground arith

  close_if-Leaves :
      (o : Option Bool) (c : Connection W)
      → c.behaviour ≡ post_auth
      → phase_of c ≡ some live
      → Leaves (resume o close_if c)
  close_if-Leaves none c b h = unfold Leaves in (live, h)
  close_if-Leaves (some true) c b h = close-Leaves _ c (rw b h) (λ e. cc)
  close_if-Leaves (some false) c b h = stay-Leaves c (rw b h)

  try_reregister-Leaves :
      (c : Connection W)
      → c.behaviour ≡ post_auth
      → phase_of c ≡ some live
      → Leaves (try_reregister r c)
  unfolding try_reregister
  try_reregister-Leaves c b h =
      let (sent, same) = attempt-keeps c in
      close_if-Leaves (attempt_reregister r c).0 (attempt_reregister r c).1 (same ∙ b)
        (ap (reaches (some greeting)) sent ∙ h)

  post_auth-Leaves :
      (m : Message) (c : Connection W)
      → c.behaviour ≡ post_auth
      → phase_of c ≡ some live
      → Leaves (post_auth_behaviour r m c)
  unfolding post_auth_behaviour forward_chat forward_room_event
  post_auth-Leaves (forward_message req) c b h =
      send_live-Leaves (chat_frame req) c (unfold chat_frame in chat_of-AllLive req _ _) b h
  post_auth-Leaves (notify_room_event req) c b h =
      send_live-Leaves (event_frame req) c (unfold event_frame in event_of-AllLive req _ _ _) b h
  post_auth-Leaves (terminated who) c b h =
      let idle = stay-Leaves c (rw b h) in
      if-Leaves (same_pid who c.grain_pid) _ _
        (if-Leaves c.retry_pending _ _ idle (try_reregister-Leaves c b h)) idle
  post_auth-Leaves reregister_retry c b h =
      try_reregister-Leaves (record c { retry_pending = false }) b h
  post_auth-Leaves app_ping_tick c b h = send_stay-Leaves app_ping c (rw b h) (rw b refl)
  post_auth-Leaves pong_timeout_expired c b h = close-Leaves _ c (rw b h) (λ e. cc)
  post_auth-Leaves _ c b h = stay-Leaves c (rw b h)

  behave-Leaves :
      (m : Message) (c : Connection W)
      → phase_of c ≡ some (stands_for c.behaviour)
      → Leaves (behave r m c)
  unfolding behave
  behave-Leaves m c h = go c.behaviour refl
    where
      go : (b : Behaviour) → c.behaviour ≡ b → Leaves (behave r m c)
      go pre_auth e = rw (e, behave) (pre_auth-Leaves m c e (h ∙ ap (λ b. some (stands_for b)) e))
      go post_auth e = rw (e, behave) (post_auth-Leaves m c e (h ∙ ap (λ b. some (stands_for b)) e))
      go closing e = rw (e, behave) (stay-Leaves c h)

  -- What follows a handler and neither sends nor changes the behaviour.
  then-Leaves :
      (f : Connection W → Connection W) (x : Option (Unit {0}) × Connection W)
      → ((c : Connection W) → ((f c).sent ≡ c.sent) × ((f c).behaviour ≡ c.behaviour))
      → Leaves x
      → Leaves (resume x.0 (λ _ c. (some tt, f c)) x.1)
  unfolding Leaves
  then-Leaves f (none, c) quiet h = h
  then-Leaves f (some _, c) quiet h =
      ap (reaches (some greeting)) (quiet c).0 ∙ h ∙ ap (λ b. some (stands_for b)) (sym (quiet c).1)

  receive-Leaves :
      (m : Message) (c : Connection W)
      → phase_of c ≡ some (stands_for c.behaviour)
      → Leaves (receive r m c)
  unfolding receive
  receive-Leaves (connection_closed reason) c h = stay-Leaves (record c { stopping = true }) h
  receive-Leaves read_pump_panicked c h = stay-Leaves (record c { stopping = true }) h
  receive-Leaves (write_pump_failed reason kind) c h = stay-Leaves (record c { stopping = true }) h
  receive-Leaves (write_pump_closed failed) c h = stay-Leaves (record c { stopping = true }) h
  receive-Leaves app_ping_tick c h =
      then-Leaves (λ c. record c { timers = Heartbeat.ensure_watchdog c.timers })
        (behave r app_ping_tick c) (λ c. (refl, refl)) (behave-Leaves app_ping_tick c h)
  receive-Leaves app_pong_received c h =
      then-Leaves (λ c. record c { timers = Heartbeat.reset_watchdog c.timers })
        (behave r app_pong_received c) (λ c. (refl, refl)) (behave-Leaves app_pong_received c h)
  receive-Leaves pong_timeout_expired c h =
      behave-Leaves pong_timeout_expired (record c { timers = Heartbeat.cancel_watchdog c.timers })
        h
  receive-Leaves m c h = behave-Leaves m c h

  if-Follows :
      (t : Bool) (x y : Connection W)
      → (t ≡ true → Follows x)
      → Follows y
      → Follows (if t then x else y)
  if-Follows true x y h k = h refl
  if-Follows false x y h k = k

  supervise-Follows : (x : Option (Unit {0}) × Connection W) → Leaves x → Follows (supervise x)
  unfolding Leaves shut_down
  supervise-Follows (none, c) h = record { accepted = h; in_phase = λ e. absurd (ground arith) }
  supervise-Follows (some _, c) h =
      if-Follows c.stopping _ _
        (λ s. record {
          accepted = (stands_for c.behaviour, h);
          in_phase = λ e. absurd (ground arith);
        })
        (record { accepted = (stands_for c.behaviour, h); in_phase = λ e. h })

  step-Follows : (c : Connection W) (e : Event) → Follows c → Follows (step r c e)
  unfolding step
  step-Follows c (delivered m) v =
      if-Follows c.is_open _ _
        (λ opened. supervise-Follows (receive r m c) (receive-Leaves m c (v.in_phase opened))) v
  step-Follows c taken v =
      if-Follows c.is_open _ _ (λ opened. record { accepted = v.accepted; in_phase = v.in_phase }) v

  run-Follows : (c : Connection W) (es : List Event) → Follows c → Follows (run r c es)
  unfolding run
  run-Follows c [] v = v
  run-Follows c (e ∷ es) v = run-Follows (step r c e) es (step-Follows c e v)

-- What a connection has sent once it has refused with this code and closed for this reason.
abbrev pub refused_with : {W : Type 0} → Connection W → Code → String → String → List Outbound
refused_with c code message reason =
    (c.sent ++ auth_failed code message ∷ []) ++ close_connection reason ∷ []

refuse-sent :
    {W : Type 0} (code : Code) (message reason : String) (c : Connection W)
    → 1 + length c.outbound < outbound_buffer_size
    → ((send_outbound_best_effort (auth_failed code message) >> become_closing reason) c).1.sent
      ≡ refused_with c code message reason
unfolding send_outbound_best_effort become_closing send_outbound
refuse-sent code message reason c room = rw (first, second) refl
  where
    first : ltb (length c.outbound) outbound_buffer_size ≡ true
    first = ground arith

    second : ltb (length (c.outbound ++ auth_failed code message ∷ [])) outbound_buffer_size ≡ true
    second = ground (arith, length-append c.outbound (auth_failed code message ∷ []))

-- The connection, where it awaits the authentication.
abbrev pub awaiting : {W : Type 0} → Connection W → Connection W
awaiting c = record c { behaviour = pre_auth }

-- Whatever is delivered and taken, all that a connection ever hands to its write pump follows the
-- automaton: pings first; then the acceptance, with room traffic and pings after it, or a refusal, or
-- neither; then at most one close, and nothing after it, nor anything but it after a refusal. And where
-- the queue has room for two frames, a connection that awaits the authentication answers a rejected token,
-- the authentication timeout and a protocol violation with a refusal that has the code of the rejection,
-- and then the close with its reason.
pub sent_follows_protocol :
    {W : Type 0} (r : Remote W) (cadence : Option Cadence) (w : W) (es : List Event)
    (c : Connection W) (token : Bytes) (rejection : Rejection)
    → 1 + length c.outbound < outbound_buffer_size
    → (handle_auth r token c.world).0 ≡ err rejection
    → ((p : Phase) × (reaches (some greeting) (run r (started cadence w) es).sent ≡ some p))
      × ((receive r (inbound_auth token) (awaiting c)).1.sent
          ≡ refused_with c rejection.code rejection.message rejection.reason)
      × ((receive r auth_timeout_expired (awaiting c)).1.sent
          ≡ refused_with c auth_missing_token "authentication timeout" "auth_timeout")
      × ((violation : Violation)
          → (receive r (protocol_violation violation) (awaiting c)).1.sent
            ≡ refused_with c auth_missing_token "missing authentication token" "missing_token")
unfolding started reaches receive behave pre_auth_behaviour settle_auth
sent_follows_protocol r cadence w es c token rejection room rejected = (
  (run-Follows r (started cadence w) es
      (record { accepted = (greeting, refl); in_phase = λ e. refl })).accepted,
  rw rejected (
      refuse-sent rejection.code rejection.message rejection.reason
        (record c { behaviour = pre_auth; world = (handle_auth r token c.world).1 }) room),
  refuse-sent auth_missing_token _ _ (awaiting c) room,
  (λ violation. refuse-sent auth_missing_token _ _ (awaiting c) room),
)
