-- ===== src/Connection/Run.antt =====
-- A connection over time: the mailbox delivers messages, and the write pump takes what is queued.
-- The runtime stops an actor that has asked for it, or that has panicked (supervision.go), before
-- it delivers another message.
use blabby.Prelude.{List, [], ◌∷◌, Option, none, some, if◌then◌else◌}
use blabby.Connection.Messages.{Outbound, Message}
use blabby.Connection.Actor.{Connection, Remote}
use blabby.Connection.Behaviour.{receive, shut_down}

pub data Event : Type 0 where
  delivered : Message → Event
  taken : Event

-- `classifyConnectionFailure`: every failure stops the actor.
abbrev pub supervise : {W : Type 0} → Option (Unit {0}) × Connection W → Connection W
supervise (none, c) = shut_down c
supervise (some _, c) = if c.stopping then shut_down c else c

abbrev pub rest : List Outbound → List Outbound
rest [] = []
rest (m ∷ ms) = ms

unfoldable pub step : {W : Type 0} → Remote W → Connection W → Event → Connection W
unfolding receive shut_down
step r c (delivered m) = if c.is_open then supervise (receive r m c) else c
step r c taken = if c.is_open then record c { outbound = rest c.outbound } else c

unfoldable pub run : {W : Type 0} → Remote W → Connection W → List Event → Connection W
run r c [] = c
run r c (e ∷ es) = run r (step r c e) es
