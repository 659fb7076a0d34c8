-- ===== src/Connection/Bounds.antt =====
-- What a connection keeps bounded, and what sending a frame does to it.
use blabby.Prelude.{
  ℕ, [], ◌∷◌, ◌+◌, ◌≤◌, ◌<◌, Option, none, some, ltb, ◌≡◌, ◌≢◌, arith, length, length-append,
  Bool-cases, inl, inr, String,
}
use blabby.Connection.Messages.{Outbound, auth_succeeded, close_connection}
use blabby.Connection.Actor.{
  Connection, pre_auth, post_auth, closing, outbound_buffer_size, reregister_max_attempts, become,
  Act, ◌>>◌, put, send_outbound_best_effort, become_closing, send_outbound,
}

-- The channel holds at most 64 frames; a connection in use has a user and has failed less than 3
-- times in a row; before the authentication it has not tried.
pub record Bounded {W : Type 0} (c : Connection W) : Type 0 where
  pub queue : length c.outbound ≤ outbound_buffer_size
  pub known : c.behaviour ≡ post_auth → c.user_id ≢ none
  pub tried : c.behaviour ≡ post_auth → c.attempts < reregister_max_attempts
  pub fresh : c.behaviour ≡ pre_auth → c.attempts ≡ 0

unfoldable pub Ends : {W : Type 0} → Option (Unit {0}) × Connection W → Type 0
Ends (none, c) = length c.outbound ≤ outbound_buffer_size
Ends (some _, c) = Bounded c

pub length-put :
    {W : Type 0} (m : Outbound) (c : Connection W)
    → length (put m c).outbound ≡ length c.outbound + 1
length-put m c = length-append c.outbound (m ∷ [])

-- Sending and going on: the frame fits, or the handler panics.
pub send-Ends :
    {W : Type 0} (m : Outbound) (k : Act W (Unit {0})) (c : Connection W)
    → length c.outbound ≤ outbound_buffer_size
    → (length (put m c).outbound ≤ outbound_buffer_size → Ends (k (put m c)))
    → Ends ((send_outbound m >> k) c)
unfolding send_outbound
send-Ends m k c q go = elim (Bool-cases (ltb (length c.outbound) outbound_buffer_size)) [
  | inl room ↦ rw room (go (ground (arith, length-put m c)))
  | inr full ↦ rw full (unfold Ends in q)
]

pub send_stay-Ends :
    {W : Type 0} (m : Outbound) (c : Connection W) → Bounded c → Ends (send_outbound m c)
unfolding send_outbound Ends
send_stay-Ends m c v = elim (Bool-cases (ltb (length c.outbound) outbound_buffer_size)) [
  | inl room ↦ rw room (record {
    queue = ground (arith, length-put m c);
    known = v.known;
    tried = v.tried;
    fresh = v.fresh;
  })
  | inr full ↦ rw full v.queue
]

pub close-Ends :
    {W : Type 0} (reason : String) (c : Connection W)
    → length c.outbound ≤ outbound_buffer_size
    → Ends (become_closing reason c)
unfolding become_closing
close-Ends reason c q = send-Ends (close_connection reason) (become closing) c q (λ q'.
    unfold Ends in
    record {
      queue = q';
      known = λ e. absurd (ground arith);
      tried = λ e. absurd (ground arith);
      fresh = λ e. absurd (ground arith);
    })

pub refuse-Ends :
    {W : Type 0} (m : Outbound) (reason : String) (c : Connection W)
    → length c.outbound ≤ outbound_buffer_size
    → Ends ((send_outbound_best_effort m >> become_closing reason) c)
unfolding send_outbound_best_effort
refuse-Ends m reason c q = elim (Bool-cases (ltb (length c.outbound) outbound_buffer_size)) [
  | inl room ↦ rw room (close-Ends reason (put m c) (ground (arith, length-put m c)))
  | inr full ↦ rw full (close-Ends reason c q)
]

pub accept-Ends :
    {W : Type 0} (u : ℕ) (c : Connection W)
    → c.user_id ≡ some u
    → c.attempts ≡ 0
    → length c.outbound ≤ outbound_buffer_size
    → Ends ((send_outbound auth_succeeded >> become post_auth) c)
accept-Ends u c user none_yet q = send-Ends auth_succeeded (become post_auth) c q (λ q'.
    unfold Ends in
    record {
      queue = q';
      known = λ _ e. ground arith;
      tried = λ e. omega (arith, none_yet);
      fresh = λ e. absurd (ground arith);
    })

pub stay-Ends : {W : Type 0} (c : Connection W) → Bounded c → Ends (some tt, c)
unfolding Ends
stay-Ends c v = v
