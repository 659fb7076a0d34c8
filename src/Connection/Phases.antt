-- ===== src/Connection/Phases.antt =====
-- The protocol of a connection as an automaton, and what sending a frame does to it.
use blabby.Prelude.{
  List, [], ◌∷◌, ◌++◌, Option, none, some, true, ◌≡◌, refl, ap, ◌∙◌, length, ltb, Bool-cases,
  String, inl, inr,
}
use blabby.ErrCode.{Code}
use blabby.Connection.Messages.{
  Outbound, auth_succeeded, auth_failed, chat_delivered, room_joined, room_left, app_ping,
  close_connection,
}
use blabby.Connection.Actor.{
  Connection, become, become_closing, put, send_outbound, send_outbound_best_effort, Behaviour,
  pre_auth, post_auth, closing, outbound_buffer_size, ◌>>◌,
}

-- Before the answer to the authentication, after a refusal, in use, and after the close.
pub data Phase : Type 0 where
  greeting refused live closed : Phase

abbrev pub advance : Phase → Outbound → Option Phase
advance greeting auth_succeeded = some live
advance greeting (auth_failed code message) = some refused
advance greeting app_ping = some greeting
advance greeting (close_connection reason) = some closed
advance refused (close_connection reason) = some closed
advance live (chat_delivered chat) = some live
advance live (room_joined member) = some live
advance live (room_left member) = some live
advance live app_ping = some live
advance live (close_connection reason) = some closed
advance phase m = none

abbrev pub next : Option Phase → Outbound → Option Phase
next none m = none
next (some p) m = advance p m

-- Where the automaton is after a list of frames, if it accepts them.
unfoldable pub reaches : Option Phase → List Outbound → Option Phase
reaches p [] = p
reaches p (m ∷ ms) = reaches (next p m) ms

pub reaches-append :
    (p : Option Phase) (ms : List Outbound) (m : Outbound)
    → reaches p (ms ++ m ∷ []) ≡ next (reaches p ms) m
unfolding reaches
reaches-append p [] m = refl
reaches-append p (n ∷ ms) m = reaches-append (next p n) ms m

abbrev pub phase_of : {W : Type 0} → Connection W → Option Phase
phase_of c = reaches (some greeting) c.sent

-- The phase that a behaviour stands for.
abbrev pub stands_for : Behaviour → Phase
stands_for pre_auth = greeting
stands_for post_auth = live
stands_for closing = closed

-- Everything sent so far follows the protocol; an open connection is in its behaviour's phase.
pub record Follows {W : Type 0} (c : Connection W) : Type 0 where
  pub accepted : (p : Phase) × (phase_of c ≡ some p)
  pub in_phase : c.is_open ≡ true → phase_of c ≡ some (stands_for c.behaviour)

-- What a handler leaves: an accepted history, and, unless it panicked, one in the behaviour's phase.
unfoldable pub Leaves : {W : Type 0} → Option (Unit {0}) × Connection W → Type 0
Leaves (none, c) = (p : Phase) × (phase_of c ≡ some p)
Leaves (some _, c) = phase_of c ≡ some (stands_for c.behaviour)

pub phase-put :
    {W : Type 0} (m : Outbound) (c : Connection W) (p : Phase)
    → phase_of c ≡ some p
    → phase_of (put m c) ≡ advance p m
phase-put m c p h = reaches-append (some greeting) c.sent m ∙ ap (λ q. next q m) h

-- Sending a frame of the protocol and taking up the behaviour of the phase that it leads to.
pub send_become-Leaves :
    {W : Type 0} (m : Outbound) (b : Behaviour) (c : Connection W) (p : Phase)
    → phase_of c ≡ some p
    → advance p m ≡ some (stands_for b)
    → Leaves ((send_outbound m >> become b) c)
unfolding send_outbound
send_become-Leaves m b c p h ok_next =
    elim (Bool-cases (ltb (length c.outbound) outbound_buffer_size)) [
      | inl room ↦ rw room (unfold Leaves in phase-put m c p h ∙ ok_next)
      | inr full ↦ rw full (unfold Leaves in (p, h))
    ]

pub send_stay-Leaves :
    {W : Type 0} (m : Outbound) (c : Connection W)
    → phase_of c ≡ some (stands_for c.behaviour)
    → advance (stands_for c.behaviour) m ≡ some (stands_for c.behaviour)
    → Leaves (send_outbound m c)
unfolding send_outbound
send_stay-Leaves m c h ok_next = elim (Bool-cases (ltb (length c.outbound) outbound_buffer_size)) [
  | inl room ↦ rw room (unfold Leaves in phase-put m c _ h ∙ ok_next)
  | inr full ↦ rw full (unfold Leaves in (stands_for c.behaviour, h))
]

-- A refusal that may be dropped, and then the close.
pub best_effort-phase :
    {W : Type 0} (code : Code) (message : String) (c : Connection W)
    → phase_of c ≡ some greeting
    → (p : Phase) × (phase_of (send_outbound_best_effort (auth_failed code message) c).1 ≡ some p)
      × ((reason : String) → advance p (close_connection reason) ≡ some closed)
unfolding send_outbound_best_effort
best_effort-phase code message c h =
    elim (Bool-cases (ltb (length c.outbound) outbound_buffer_size)) [
      | inl room ↦
          rw room (refused, phase-put (auth_failed code message) c greeting h, λ reason. refl)
      | inr full ↦ rw full (greeting, h, λ reason. refl)
    ]

pub refuse-Leaves :
    {W : Type 0} (code : Code) (message reason : String) (c : Connection W)
    → phase_of c ≡ some greeting
    → Leaves ((send_outbound_best_effort (auth_failed code message) >> become_closing reason) c)
unfolding become_closing send_outbound_best_effort
refuse-Leaves code message reason c h =
    let (p, at, closes) = best_effort-phase code message c h in
    send_become-Leaves (close_connection reason) closing
      (send_outbound_best_effort (auth_failed code message) c).1 p at (closes reason)
