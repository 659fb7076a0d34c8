-- ===== src/Snowflake/Examples.antt =====
-- Runs of a generator, and the theorems of this component at concrete inputs.
use mathlib.Core.Path.{◌≡◌, refl}
use blabby.Prelude.{
  ℕ, ◌/◌, ◌^◌, ◌*◌, List, [], ◌∷◌, ◌++◌, some, pos, negsuc, ok, err, arith, All, Memᴰ,
}
use blabby.Snowflake.{
  Generator, Outcome, new_generator, renew, compose, next, spin_next_millis, millis_since_epoch,
  clock_regression,
}
use blabby.Snowflake.Order.{IsValid}
use blabby.Snowflake.History.{
  Call, mints, renews, history, Ascends, worker_of, history-Ascends, history_disjoint,
}
use blabby.Snowflake.Fencing.{Witness, minted_under_lease, next-returns}

abbrev at_ms : ℕ → ℕ
at_ms m = m * 1000000

-- worker 7 with a lease until millisecond 100
abbrev held : Generator
held = record {
  worker_id = 7;
  epoch = 0;
  last_millis = negsuc 0;
  sequence = 0;
  lease_deadline = at_ms 100;
}

abbrev full : Generator
full = record held { last_millis = pos 5; sequence = 4095 }

held-IsValid : IsValid held
held-IsValid = record { worker_fits = omega arith; sequence_fits = omega arith; last_fits = tt }

first_id : next held (at_ms 5 ∷ []) ≡ some ((ok 21000192, record held { last_millis = pos 5 }), [])
unfolding next compose millis_since_epoch
first_id = refl

-- The sequence is used up: the call waits through two readings of the same millisecond.
spins :
    next full (at_ms 5 ∷ at_ms 5 ∷ at_ms 6 ∷ [])
    ≡ some ((ok 25194496, record held { last_millis = pos 6 }), [])
unfolding next compose millis_since_epoch spin_next_millis
spins = refl

regressed : next full (at_ms 4 ∷ []) ≡ some ((err clock_regression, full), [])
unfolding next millis_since_epoch
regressed = refl

abbrev fresh : Generator
fresh = record {
  worker_id = 7;
  epoch = 0;
  last_millis = negsuc 0;
  sequence = 0;
  lease_deadline = 0;
}

abbrev other : Generator
other = record fresh { worker_id = 8 }

abbrev day : List Call
day = mints ∷ renews (at_ms 100) ∷ mints ∷ mints ∷ []

abbrev clock : List ℕ
clock = at_ms 4 ∷ at_ms 5 ∷ at_ms 5 ∷ []

history-Ascends_example :
    Ascends 0 (history fresh day clock) × All (λ id. worker_of id ≡ 7) (history fresh day clock)
unfolding new_generator
history-Ascends_example = history-Ascends 7 0 fresh day clock refl

day_mints : Memᴰ 21000193 (history fresh day clock)
unfolding history renew next compose millis_since_epoch
day_mints = Memᴰ.tail (Memᴰ.head refl)

history_disjoint_example : ¬ Memᴰ 21000193 (history other day clock)
unfolding new_generator
history_disjoint_example =
    history_disjoint 7 8 0 fresh other day day clock clock 21000193 refl refl (λ e. omega arith)
      day_mints

minted_under_lease_example : Witness held (at_ms 5 ∷ []) (21000192 / 2 ^ 22)
minted_under_lease_example =
    minted_under_lease held (record held { last_millis = pos 5 }) (at_ms 5 ∷ []) [] 21000192
      held-IsValid first_id

next-returns_example :
    (o : Outcome × List ℕ) × (next full ((at_ms 5 ∷ at_ms 5 ∷ []) ++ at_ms 100 ∷ []) ≡ some o)
next-returns_example = next-returns full (at_ms 5 ∷ at_ms 5 ∷ []) [] (at_ms 100) (omega arith)
