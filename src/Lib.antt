-- ===== src/Lib.antt =====
-- A model of Blabby's core: the identifiers and values of a chat service, the grains that own rooms
-- and users, the actor of a client's connection, the store that rooms write to, and the leases of worker
-- ids.
--
-- The parts and the files that model them, with paths from the repository's root:
-- - Snowflake: internal/snowflake/generator.go. A generator is a state; `next` takes the readings of
--   the clock that the call makes, and is undefined where they run out.
-- - Id, PublicCode: internal/id. Strings are lists of bytes (Text), and an int64 is a number with its
--   bounds written out.
-- - Domain: internal/domain, the handles, mail addresses, roles, message bodies and references. Unicode
--   normalisation is a parameter `nfc`, of which only what is named in a hypothesis is used.
-- - ErrCode: internal/errcode. Pin: internal/verification/pin.go, where the comparison of a hash is
--   a parameter.
-- - Wire: the references in the messages between grains, with their parsers and builders
--   (internal/grain/room/events.go, internal/grain/user/user.go).
-- - Room: internal/grain/room. `Room.Grain` and `Room.Roles` have the handlers, over a record of
--   stores; `Room.Store` fills that record from Persistence, as membership.go and message.go do.
-- - Persistence: the statements of internal/persistence/membership_repo.go and journal.go on the two
--   tables, and the transactions of postgres/tx.go. Each statement may fail, by a list of faults;
--   a commit may fail, or its answer may be lost once it has been done. `Persistence.Atomic` and
--   `Room.Atomic` state the outcomes of a transaction. `Persistence.Timeline` has the pages of timeline.go;
--   `Persistence.Reader` follows their cursor, with fuel for one page more than the rows.
-- - User: internal/grain/user. The port of room_client.go is a record; `User.Agreement` fills it with
--   a room of this model, to state what both grains hold after a command.
--   `User.Connections` has the registrations of the user's connections and the fan-out to them.
-- - Connection: internal/actor/connection. `Connection.Actor` and `Connection.Behaviour` have the state
--   and the handlers of connection.go and reregister.go; a handler may panic, as a full channel makes
--   it. `Connection.Run` delivers messages and lets the write pump take frames, in any order, and stops
--   an actor as supervision.go does. `Connection.Encoder` has the pump of write_pump.go,
--   over what its select yields: messages, the end of its context, or the end of the channel.
-- - Account: the life of an account. `Account.Users` and `Account.Verifications` have the statements of
--   internal/persistence/user_repo.go and verification_repo.go, `Account.Registration` and
--   `Account.Verify` internal/gateway/registration.go and verification.go, `Account.Sweep`
--   internal/persistence/accountgc/sweep.go, `Account.Directory` internal/gateway/user_directory.go. A
--   transaction may fail at each statement and at its commit, and the answer of a commit may be lost;
--   transactions run one after another, but under READ COMMITTED other processes may commit a
--   registration right before an INSERT, and failed attempts right before an UPDATE counts one. The turns
--   of the retry loop are fuel, of which the policy's number of collisions and one more is enough.
--   `Account.System` is a step relation on all of these.
-- - Auth: internal/auth, with bcrypt and the jwt library as parameters. Gateway: the account handlers with
--   the decoding of their bodies (decode.go, with the MIME and JSON libraries as parameters), the
--   middleware and the error statuses of internal/gateway.
-- - WorkerLease: internal/persistence/workerlease. `WorkerLease.Repo` has the statements of repo.go,
--   where an acquisition reads a snapshot that may be stale, and any answer may be lost;
--   `WorkerLease.Manager` has manager.go, and `WorkerLease.System` is a step relation on many managers
--   over one table. Clocks are taken to advance alike, on one time line.
-- - Map, Text and Prelude: Go's maps, strings and the notation that the rest shares.
--
-- All functions are total by structural recursion, except that the wait of the generator for the
-- next millisecond recurs on the readings of the clock; it returns once a reading reaches the lease
-- deadline. Log lines are left out. A handler of a grain runs alone, as an actor's does, so a state is
-- passed from call to call. Repo.acquire has the 8 attempts of the source. Not modelled: the
-- room handlers of the gateway, the read pump, the activation of user grains, the room repository, the
-- client, and the libraries under them.
pub mod Prelude
pub mod Text
pub mod Id
pub mod PublicCode
pub mod Domain
pub mod ErrCode
pub mod Map
pub mod Pin
pub mod Wire
pub mod Room
pub mod Persistence
pub mod User
pub mod WorkerLease
pub mod Account
pub mod Gateway
pub mod Auth
pub mod Connection
pub mod Snowflake
