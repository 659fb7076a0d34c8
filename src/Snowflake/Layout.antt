-- ===== src/Snowflake/Layout.antt =====
-- The three bit fields of an id, and that they can be read back.
use blabby.Prelude.{ℕ, ◌+◌, ◌*◌, ◌/◌, ◌%◌, ◌^◌, ◌≤◌, ◌<◌, ◌≡◌, arith, ap, ◌∙◌, bit_or}
use blabby.Prelude.Bits.{bit_or-disjoint}
use blabby.Snowflake.{compose, max_timestamp, max_worker_id, max_sequence}

-- The fields do not overlap, so `|` adds them.
pub compose-sum :
    (millis worker seq : ℕ)
    → worker ≤ max_worker_id
    → seq ≤ max_sequence
    → compose millis worker seq ≡ millis * 2 ^ 22 + worker * 2 ^ 12 + seq
unfolding compose
compose-sum millis worker seq hw hs =
    let upper = bit_or-disjoint 22 millis (worker * 2 ^ 12) (omega arith) in
    let whole = bit_or-disjoint 12 (millis * 2 ^ 10 + worker) seq (omega arith) in
    ap (λ (t : ℕ). bit_or t seq) upper
    ∙ ap (λ (t : ℕ). bit_or t seq) (omega arith)
    ∙ whole
    ∙ omega arith

-- An id whose fields are in range is below 2^63, and each field can be read back from it.
pub compose-fields :
    (millis worker seq : ℕ)
    → millis ≤ max_timestamp
    → worker ≤ max_worker_id
    → seq ≤ max_sequence
    → (compose millis worker seq < 2 ^ 63)
      × (compose millis worker seq / 2 ^ 22 ≡ millis)
      × (compose millis worker seq / 2 ^ 12 % 2 ^ 10 ≡ worker)
      × (compose millis worker seq % 2 ^ 12 ≡ seq)
compose-fields millis worker seq hm hw hs = omega (arith, compose-sum millis worker seq hw hs)
