-- ===== src/Snowflake.antt =====
-- internal/snowflake/generator.go: the id generator of one worker.
-- An instant is a number of nanoseconds since Go's zero time. The injected clock is a tape: the
-- list of the readings that it will give, in order. A call that needs a reading when the tape is
-- over is still waiting, which is `none`.
pub mod Layout
pub mod Order
pub mod History
pub mod Fencing
mod Examples
use Prim.Native.Nat.{compare, Ordering}
use blabby.Prelude.{
  ℕ, suc, ◌+◌, ◌-◌, ◌*◌, ◌/◌, ◌^◌, min, bit_or, List, [], ◌∷◌, Option, none, some, Bool, true,
  false, ltb, leb, ◌==◌, ◌||◌, if◌then◌else◌, ℤ, pos, negsuc, neg, Result, ok, err,
}

abbrev pub max_worker_id : ℕ
max_worker_id = 2 ^ 10 - 1

abbrev pub max_sequence : ℕ
max_sequence = 2 ^ 12 - 1

abbrev pub max_timestamp : ℕ
max_timestamp = 2 ^ 41 - 1

abbrev pub worker_id_shift : ℕ
worker_id_shift = 12

abbrev pub timestamp_shift : ℕ
timestamp_shift = 22

pub data Error : Type 0 where
  lease_expired clock_regression epoch_exhausted clock_before_epoch : Error
  worker_id_out_of_range : Error

-- `last_millis` starts at -1; the other fields are never negative.
pub record Generator : Type 0 where
  pub worker_id : ℕ
  pub epoch : ℕ
  pub last_millis : ℤ
  pub sequence : ℕ
  pub lease_deadline : ℕ

-- `NewGenerator`, with the epoch that the options leave.
unfoldable pub new_generator : ℤ → ℕ → Result Error Generator
new_generator (negsuc n) epoch = err worker_id_out_of_range
new_generator (pos worker_id) epoch =
    if ltb max_worker_id worker_id
    then err worker_id_out_of_range
    else ok (record {
      worker_id = worker_id;
      epoch = epoch;
      last_millis = negsuc 0;
      sequence = 0;
      lease_deadline = 0;
    })

unfoldable pub renew : Generator → ℕ → Generator
renew g deadline = record g { lease_deadline = deadline }

-- `t.Sub(epoch).Milliseconds()`: the difference saturates at the bounds of `time.Duration`, and
-- the division rounds towards zero.
unfoldable pub millis_since_epoch : ℕ → ℕ → ℤ
millis_since_epoch epoch t =
    if leb epoch t
    then pos (min (t - epoch) (2 ^ 63 - 1) / 1000000)
    else neg (min (epoch - t) (2 ^ 63) / 1000000)

-- The two `|` and the shifts of `Next`.
unfoldable pub compose : ℕ → ℕ → ℕ → ℕ
compose millis worker_id seq =
    bit_or (bit_or (millis * 2 ^ timestamp_shift) (worker_id * 2 ^ worker_id_shift)) seq

abbrev pub later_than : ℕ → ℤ → Bool
later_than after (pos m) = ltb after m
later_than after (negsuc m) = false

abbrev pub to_millis : ℤ → ℕ
to_millis (pos m) = m
to_millis (negsuc m) = 0

-- `spinNextMillis`, with the readings that it leaves on the tape.
unfoldable pub spin_next_millis : Generator → ℕ → List ℕ → Option (Result Error ℕ × List ℕ)
spin_next_millis g after [] = none
spin_next_millis g after (now ∷ tape) =
    let again = spin_next_millis g after tape in
    let m = millis_since_epoch g.epoch now in
    if ltb now g.lease_deadline
    then (if later_than after m then some (ok (to_millis m), tape) else again)
    else some (err lease_expired, tape)

abbrev pub Outcome : Type 0
Outcome = Result Error ℕ × Generator

-- The end of `Next`: the range check, the id, and the commit of the state.
unfoldable pub mint : Generator → ℕ → ℕ → Outcome
mint g millis seq =
    let id = compose millis g.worker_id seq in
    if ltb max_timestamp millis
    then (err epoch_exhausted, g)
    else if id == 0
    then (err clock_before_epoch, g)
    else (ok id, record g { last_millis = pos millis; sequence = seq })

-- What `Next` does with the outcome of the spin.
unfoldable pub after_spin : Generator → Option (Result Error ℕ × List ℕ) → Option (Outcome × List ℕ)
unfolding mint
after_spin g none = none
after_spin g (some (ok millis, tape)) = some (mint g millis 0, tape)
after_spin g (some (err e, tape)) = some ((err e, g), tape)

-- The case `millis == g.lastMillis` of the switch.
unfoldable pub same_millis : Generator → ℕ → List ℕ → Option (Outcome × List ℕ)
unfolding mint after_spin
same_millis g millis tape =
    let seq = g.sequence + 1 in
    if ltb max_sequence seq
    then after_spin g (spin_next_millis g millis tape)
    else some (mint g millis seq, tape)

abbrev pub compare_last : ℕ → ℤ → Ordering
compare_last millis (pos last) = compare millis last
compare_last millis (negsuc last) = Ordering.gt

-- The switch on the millisecond of the reading.
unfoldable pub resolve : Generator → ℤ → List ℕ → Option (Outcome × List ℕ)
unfolding mint same_millis
resolve g (negsuc m) tape = some ((err clock_before_epoch, g), tape)
resolve g (pos millis) tape = elim (compare_last millis g.last_millis) [
  | Ordering.lt ↦ some ((err clock_regression, g), tape)
  | Ordering.eq ↦ same_millis g millis tape
  | Ordering.gt ↦ some (mint g millis 0, tape)
]

unfoldable pub next : Generator → List ℕ → Option (Outcome × List ℕ)
unfolding resolve
next g [] = none
next g (now ∷ tape) =
    if ltb now g.lease_deadline
    then resolve g (millis_since_epoch g.epoch now) tape
    else some ((err lease_expired, g), tape)
