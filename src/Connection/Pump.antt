-- ===== src/Connection/Pump.antt =====
-- The end of a connection's write pump (write_pump.go): what it reports, and what that does.
use blabby.Prelude.{String, List, [], ◌∷◌, some, true, false, ◌≡◌}
use blabby.Connection.Messages.{Outbound, close_connection, Message, write_pump_failed}
use blabby.Connection.Actor.{Connection, Remote}
use blabby.Connection.Encoder.{Socket, Frame, Pumped, Selected, received}
use blabby.Connection.Run.{delivered, step}

-- Whatever a connection holds, this message stops one that is open.
abbrev pub StopsWith : Message → Type 1
StopsWith m =
    (W : Type 0) (r : Remote W) (c : Connection W)
    → c.is_open ≡ true
    → (step r c (delivered m)).is_open ≡ false

module _ {S : Type 0} (k : Socket S) where
  abbrev Tells : Pumped S → Type 1
  Tells p = (m : Message) × (p.notified ≡ some m) × StopsWith m

  -- One frame, and what is queued after it.
  abbrev write_then : Frame → S → (S → Pumped S) → Pumped S
  write_then f s later =
      let (ready, s1) = k.set_write_deadline s in
      let (done, s2) = k.write_message f s1 in
      elim ready [
        | false ↦ record {
          notified = some (write_pump_failed "write_deadline_error" f.kind);
          written = [];
          socket = s1;
        }
        | true ↦ elim done [
          | false ↦ record {
            notified = some (write_pump_failed "write_error" f.kind);
            written = [];
            socket = s2;
          }
          | true ↦ record (later s2) { written = f ∷ (later s2).written }
        ]
      ]

  -- The messages of the channel, then a close, and whatever comes after it.
  abbrev pub closing_feed : List Outbound → String → List Selected → List Selected
  closing_feed [] reason after = received (close_connection reason) ∷ after
  closing_feed (m ∷ before) reason after = received m ∷ closing_feed before reason after
