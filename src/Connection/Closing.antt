-- ===== src/Connection/Closing.antt =====
-- What ends a connection whose user's grain is lost for good.
use blabby.Prelude.{
  [], ◌∷◌, ◌++◌, none, some, true, false, ◌≡◌, ◌<◌, refl, arith, length, ltb, Result,
}
use blabby.Text.{Bytes}
use blabby.Connection.Messages.{Pid, close_connection, terminated, reregister_retry}
use blabby.Connection.Actor.{
  Connection, Remote, RegisterResponse, TransportError, post_auth, closing, outbound_buffer_size,
  same_pid, become_closing, send_outbound,
}
use blabby.Connection.Behaviour.{
  receive, behave, post_auth_behaviour, try_reregister, attempt_reregister, settle_reregister,
  record_failure, reregistered, user_text,
}
use blabby.Connection.Run.{delivered, step, run}

-- A connection in use that has not lost its grain.
abbrev pub in_use : {W : Type 0} → Connection W → Connection W
in_use c = record c {
  behaviour = post_auth;
  attempts = 0;
  retry_pending = false;
  is_open = true;
  stopping = false;
}

-- A caller whose every call fails, in transport or by an answer with an error.
abbrev pub Unavailable :
    {W : Type 0} → (Bytes → Pid → W → Result TransportError RegisterResponse × W) → Type 0
Unavailable {W} call =
    (user : Bytes) (self : Pid) (w : W) → reregistered (call user self w).0 ≡ none

module _ {W : Type 0} (r : Remote W)
    (call : Bytes → Pid → W → Result TransportError RegisterResponse × W) where
  -- The remote side with this caller, and the state after one of its calls.
  abbrev with_call : Remote W
  with_call = record r { register_connection = some call }

  abbrev called : Connection W → W
  called c = (call (user_text c.user_id) r.self c.world).1

  -- A failed attempt only counts itself.
  attempt-failed :
      (c : Connection W)
      → Unavailable call
      → attempt_reregister with_call c ≡ record_failure (record c { world = called c })
  unfolding attempt_reregister settle_reregister
  attempt-failed c fails = rw (fails (user_text c.user_id) r.self c.world) refl

  lost_grain :
      (who : Pid) (c : Connection W)
      → Unavailable call
      → same_pid who c.grain_pid ≡ true
      → step with_call (in_use c) (delivered (terminated who)) ≡ record c {
        behaviour = post_auth;
        attempts = 1;
        retry_pending = true;
        is_open = true;
        stopping = false;
        world = called c;
      }
  unfolding step receive behave post_auth_behaviour try_reregister record_failure
  lost_grain who c fails same = rw (same, attempt-failed (in_use c) fails) refl

  second_failure :
      (c : Connection W)
      → Unavailable call
      → step with_call
          (record c {
            behaviour = post_auth;
            attempts = 1;
            retry_pending = true;
            is_open = true;
            stopping = false;
          })
          (delivered reregister_retry)
        ≡ record c {
          behaviour = post_auth;
          attempts = 2;
          retry_pending = true;
          is_open = true;
          stopping = false;
          world = called c;
        }
  unfolding step receive behave post_auth_behaviour try_reregister record_failure
  second_failure c fails =
      rw
        (attempt-failed
          (record c {
            behaviour = post_auth;
            attempts = 1;
            retry_pending = false;
            is_open = true;
            stopping = false;
          })
          fails)
        refl

  third_failure :
      (c : Connection W)
      → Unavailable call
      → length c.outbound < outbound_buffer_size
      → step with_call
          (record c {
            behaviour = post_auth;
            attempts = 2;
            retry_pending = true;
            is_open = true;
            stopping = false;
          })
          (delivered reregister_retry)
        ≡ record c {
          behaviour = closing;
          attempts = 3;
          retry_pending = false;
          is_open = true;
          stopping = false;
          outbound = c.outbound ++ close_connection "reregister_failed" ∷ [];
          sent = c.sent ++ close_connection "reregister_failed" ∷ [];
          world = called c;
        }
  unfolding step receive behave post_auth_behaviour try_reregister record_failure become_closing
      send_outbound
  third_failure c fails room =
      rw
        (
          attempt-failed
              (record c {
                behaviour = post_auth;
                attempts = 2;
                retry_pending = false;
                is_open = true;
                stopping = false;
              })
              fails,
          fits,
        )
        refl
    where
      fits : ltb (length c.outbound) outbound_buffer_size ≡ true
      fits = ground arith

  abbrev pub after_three : Pid → Connection W → Connection W
  after_three who c =
      run with_call (in_use c)
        (delivered (terminated who) ∷ delivered reregister_retry ∷ delivered reregister_retry ∷ [])

  -- A connection in use whose grain is lost, and whose caller fails at the loss and at the two retries
  -- that follow, queues the close with the reason "reregister_failed", if there is room for it, and
  -- ends in the closing behaviour, with no further retry.
  pub three_failures_close :
      (who : Pid) (c : Connection W)
      → Unavailable call
      → same_pid who c.grain_pid ≡ true
      → length c.outbound < outbound_buffer_size
      → ((after_three who c).behaviour ≡ closing)
        × ((after_three who c).outbound ≡ c.outbound ++ close_connection "reregister_failed" ∷ [])
        × ((after_three who c).retry_pending ≡ false)
  unfolding run
  three_failures_close who c fails same room =
      rw
        (
          lost_grain who c fails same,
          second_failure (record c { world = called c }) fails,
          third_failure (record c { world = called (record c { world = called c }) }) fails room,
        )
        (refl, refl, refl)
