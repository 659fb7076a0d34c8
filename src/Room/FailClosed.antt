-- ===== src/Room/FailClosed.antt =====
-- A command that is answered with an error has changed nothing in the grain and reached nobody.
use blabby.Prelude.{ℕ, List, Option, [], some, ◌≡◌, arith, refl, Result, ok, err}
use blabby.Text.{Bytes}
use blabby.Domain.Refs.{UserRef, RoomRef}
use blabby.Wire.{UserRefPb, ErrorDetail}
use blabby.Room.State.{RoomState}
use blabby.Room.Ports.{Event, StoreError, Job}
use blabby.Room.Grain.{
  Env, Outcome, join, finish_join, leave, finish_leave, post_message, finish_post,
}

module _ {S : Type 0} (env : Env S) (s : RoomState) (db : S) where
  finish_join-closed :
      (room : RoomRef) (joiner : UserRef) (r : Result StoreError Event × S) (d : ErrorDetail)
      → (finish_join env s room joiner r).response.error ≡ some d
      → ((finish_join env s room joiner r).state ≡ s)
        × ((finish_join env s room joiner r).jobs ≡ [])
  unfolding finish_join
  finish_join-closed room joiner (err e, db') d h = (refl, refl)
  finish_join-closed room joiner (ok evt, db') d h = cc

  -- A `Join` that is answered with an error leaves the state of the grain as it was, and hands
  -- nothing to the fan-out child.
  join_fail_closed :
      (user : UserRefPb) (d : ErrorDetail)
      → (join env s db user).response.error ≡ some d
      → ((join env s db user).state ≡ s) × ((join env s db user).jobs ≡ [])
  unfolding join
  join_fail_closed user d h = ground arith

  finish_leave-closed :
      (room : RoomRef) (leaver : UserRef) (u : ℕ) (r : Result StoreError Event × S)
      (d : ErrorDetail)
      → (finish_leave env s room leaver u r).response.error ≡ some d
      → ((finish_leave env s room leaver u r).state ≡ s)
        × ((finish_leave env s room leaver u r).jobs ≡ [])
  unfolding finish_leave
  finish_leave-closed room leaver u r d h = ground arith

  finish_post-closed :
      (room : RoomRef) (sender : UserRef) (text : Bytes) (r : Result StoreError Event × S)
      (d : ErrorDetail)
      → (finish_post env s room sender text r).response.error ≡ some d
      → ((finish_post env s room sender text r).state ≡ s)
        × ((finish_post env s room sender text r).jobs ≡ [])
  unfolding finish_post
  finish_post-closed room sender text r d h = ground arith

  -- A `Leave` that is answered with an error leaves the state of the grain as it was, and hands
  -- nothing to the fan-out child.
  leave_fail_closed :
      (user : Bytes) (d : ErrorDetail)
      → (leave env s db user).response.error ≡ some d
      → ((leave env s db user).state ≡ s) × ((leave env s db user).jobs ≡ [])
  unfolding leave
  leave_fail_closed user d h = ground arith

  -- A `PostMessage` that is answered with an error leaves the state of the grain as it was, and hands
  -- nothing to the fan-out child.
  post_fail_closed :
      (user : UserRefPb) (raw : Bytes) (d : ErrorDetail)
      → (post_message env s db user raw).response.error ≡ some d
      → ((post_message env s db user raw).state ≡ s) × ((post_message env s db user raw).jobs ≡ [])
  unfolding post_message
  post_fail_closed user raw d h = ground arith

-- A command of the room, and what it is answered, with the state and the jobs that it leaves.
pub data Command : Type 0 where
  joins : UserRefPb → Command
  leaves : Bytes → Command
  posts : UserRefPb → Bytes → Command

abbrev pub without_store :
    {S R : Type 0}
    → (R → Option ErrorDetail)
    → Outcome S R
    → Option ErrorDetail × RoomState × List Job
without_store error o = (error o.response, o.state, o.jobs)

unfoldable pub serve :
    {S : Type 0} → Env S → RoomState → S → Command → Option ErrorDetail × RoomState × List Job
unfolding join leave post_message
serve env s db (joins user) = without_store (λ r. r.error) (join env s db user)
serve env s db (leaves user) = without_store (λ r. r.error) (leave env s db user)
serve env s db (posts user raw) = without_store (λ r. r.error) (post_message env s db user raw)

-- A `Join`, a `Leave` or a `PostMessage` that is answered with an error leaves the state of the grain
-- as it was, and hands nothing to the fan-out child.
pub commands_fail_closed :
    {S : Type 0} (env : Env S) (s : RoomState) (db : S) (command : Command) (d : ErrorDetail)
    → (serve env s db command).0 ≡ some d
    → ((serve env s db command).1 ≡ s) × ((serve env s db command).2 ≡ [])
unfolding serve
commands_fail_closed env s db (joins user) d h = join_fail_closed env s db user d h
commands_fail_closed env s db (leaves user) d h = leave_fail_closed env s db user d h
commands_fail_closed env s db (posts user raw) d h = post_fail_closed env s db user raw d h
