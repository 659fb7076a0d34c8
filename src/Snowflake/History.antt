-- ===== src/Snowflake/History.antt =====
-- A generator over its life: any mix of `Next` and `Renew`, with one tape of clock readings.
use blabby.Prelude.{
  ℕ, ◌/◌, ◌%◌, ◌^◌, ◌<◌, ◌≡◌, ◌≢◌, List, [], ◌∷◌, Option, none, some, arith, ok, err, All, Memᴰ,
  All-mem, subst, sym, ◌∙◌, ℤ, pos, negsuc,
}
use blabby.Snowflake.{Generator, Outcome, new_generator, renew, next}
use blabby.Snowflake.Order.{IsValid, last_id, next-Leaves, Leaves}

pub data Call : Type 0 where
  mints : Call
  renews : ℕ → Call

-- The id that one call returns, in front of what the later calls return.
unfoldable pub collect : (Generator → List ℕ → List ℕ) → Option (Outcome × List ℕ) → List ℕ
collect later none = []
collect later (some ((ok id, g'), rest)) = id ∷ later g' rest
collect later (some ((err e, g'), rest)) = later g' rest

-- The ids that the calls return, in order. It ends at a call that waits for ever.
unfoldable pub history : Generator → List Call → List ℕ → List ℕ
unfolding collect
history g [] tape = []
history g (renews deadline ∷ calls) tape = history (renew g deadline) calls tape
history g (mints ∷ calls) tape = collect (λ g' rest. history g' calls rest) (next g tape)

-- Each number is greater than the one before it, and the first is greater than `lo`.
abbrev pub Ascends : ℕ → List ℕ → Type 0
Ascends lo [] = Unit
Ascends lo (x ∷ xs) = (lo < x) × Ascends x xs

-- The worker id that an id carries.
abbrev pub worker_of : ℕ → ℕ
worker_of id = id / 2 ^ 12 % 2 ^ 10

renew-IsValid : (g : Generator) (d : ℕ) → IsValid g → IsValid (renew g d)
unfolding renew
renew-IsValid g d v = record {
  worker_fits = v.worker_fits;
  sequence_fits = v.sequence_fits;
  last_fits = v.last_fits;
}

abbrev Good : Generator → List ℕ → Type 0
Good g ids = Ascends (last_id g) ids × All (λ id. worker_of id ≡ g.worker_id) ids

collect-Good :
    (g : Generator) (later : Generator → List ℕ → List ℕ) (o : Option (Outcome × List ℕ))
    → IsValid g
    → Leaves g o
    → ((g' : Generator) (rest : List ℕ) → IsValid g' → Good g' (later g' rest))
    → Good g (collect later o)
unfolding collect
collect-Good g later none v left good = (tt, tt)
collect-Good g later (some ((ok id, g'), rest)) v left good =
    let (up, tagged) = good g' rest left.valid in
    (
      (left.above, subst (λ n. Ascends n (later g' rest)) left.recorded up),
      (left.field, subst (λ w. All (λ i. worker_of i ≡ w) (later g' rest)) left.worker tagged),
    )
collect-Good g later (some ((err e, g'), rest)) v left good =
    subst (λ h. Good h (later g' rest)) left (good g' rest (subst IsValid (sym left) v))

history-Good :
    (g : Generator) (calls : List Call) (tape : List ℕ) → IsValid g → Good g (history g calls tape)
unfolding history renew
history-Good g [] tape v = (tt, tt)
history-Good g (renews d ∷ calls) tape v = history-Good (renew g d) calls tape (renew-IsValid g d v)
history-Good g (mints ∷ calls) tape v =
    collect-Good g (λ g' rest. history g' calls rest) (next g tape) v (next-Leaves g v tape)
      (λ g' rest v'. history-Good g' calls rest v')

new_generator-IsValid :
    (worker : ℤ) (epoch : ℕ) (g : Generator) → new_generator worker epoch ≡ ok g → IsValid g
unfolding new_generator
new_generator-IsValid (negsuc w) epoch g e = cc
new_generator-IsValid (pos w) epoch g e = ground arith

new_generator-start :
    (worker epoch : ℕ) (g : Generator)
    → new_generator (pos worker) epoch ≡ ok g
    → (last_id g ≡ 0) × (g.worker_id ≡ worker)
unfolding new_generator
new_generator-start worker epoch g e = ground arith

-- A new generator mints strictly increasing ids, all of them above 0 and tagged with its worker
-- id, whatever the calls, the deadlines and the clock.
pub history-Ascends :
    (worker epoch : ℕ) (g : Generator) (calls : List Call) (tape : List ℕ)
    → new_generator (pos worker) epoch ≡ ok g
    → Ascends 0 (history g calls tape) × All (λ id. worker_of id ≡ worker) (history g calls tape)
history-Ascends worker epoch g calls tape e =
    let (up, tagged) = history-Good g calls tape (new_generator-IsValid (pos worker) epoch g e) in
    let (low, same) = new_generator-start worker epoch g e in
    (
      subst (λ n. Ascends n (history g calls tape)) low up,
      subst (λ w. All (λ i. worker_of i ≡ w) (history g calls tape)) same tagged,
    )

-- Two new generators with different worker ids never mint the same id.
pub history_disjoint :
    (w₁ w₂ epoch : ℕ) (g₁ g₂ : Generator) (calls₁ calls₂ : List Call) (tape₁ tape₂ : List ℕ)
    (id : ℕ)
    → new_generator (pos w₁) epoch ≡ ok g₁
    → new_generator (pos w₂) epoch ≡ ok g₂
    → w₁ ≢ w₂
    → Memᴰ id (history g₁ calls₁ tape₁)
    → ¬ Memᴰ id (history g₂ calls₂ tape₂)
history_disjoint w₁ w₂ epoch g₁ g₂ calls₁ calls₂ tape₁ tape₂ id e₁ e₂ ne m₁ m₂ = ne (
    sym (All-mem _ m₁ (history-Ascends w₁ epoch g₁ calls₁ tape₁ e₁).1)
    ∙ All-mem _ m₂ (history-Ascends w₂ epoch g₂ calls₂ tape₂ e₂).1)
