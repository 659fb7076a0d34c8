-- ===== src/WorkerLease/Beats.antt =====
-- A beat, a release and a minting spare the sessions of the other managers.
use blabby.Prelude.{
  ℕ, ◌≤◌, List, Option, none, some, Bool, true, false, Result, ok, err, ◌≡◌, inr, refl, sym, arith,
  subst,
}
use blabby.Snowflake
use blabby.Snowflake.{Generator, Outcome, lease_expired}
use blabby.WorkerLease.Repo
use blabby.WorkerLease.Repo.{Row, Table, Lease, Attempt, StoreError, renew_sql, release_sql}
use blabby.WorkerLease.Manager.{
  Manager, Session, ManagerError, Call, deadline, renew_to, beat, on_renewal, handle_loss,
  release_and_clear, next, minted,
}
use blabby.WorkerLease.Rows.{
  Tokens, renew_sql-held, renew_sql-Touches, renew_sql-lost, release_sql-Touches,
}
use blabby.WorkerLease.Touches.{Safe}
use blabby.WorkerLease.System.{System, Unused, Sent}
use blabby.WorkerLease.Deadline.{next-deadline}
use blabby.WorkerLease.Invariant.{Fenced, Safe-later, Spares, Apart, Publishes, some_inj}
use blabby.WorkerLease.Operations.{
  Owned-Spares, all-Spares, own-Apart, one-Publishes, none-Publishes, acquire-Publishes,
  renewed-Safe,
}

module _ (config : ℕ → Manager) (σ : System) (f : Fenced config σ) (i : ℕ) where
  module _ (epoch : ℕ) (call again : Call) (attempts : List Attempt) (s : Session)
      (at : σ.managers i ≡ some s) (sent : Sent call) (h : σ.now ≤ call.ran_at)
      (sent_again : Sent again) (h' : call.ran_at ≤ again.ran_at)
      (fresh : Tokens (Unused σ) attempts) where
    abbrev answer : Bool × Table
    answer = renew_sql call.ran_at s.lease (config i).ttl σ.table

    renewal-Spares : Spares σ i again.ran_at answer.1
    renewal-Spares =
        Owned-Spares config σ f i s again.ran_at answer.1 at (omega arith)
          (renew_sql-Touches call.ran_at (config i).ttl s.lease σ.table)

    lost-Publishes :
        Publishes
          (config i).ttl
          σ
          i
          again.ran_at
          (handle_loss (config i) epoch again attempts s σ.table)
    unfolding handle_loss Snowflake.renew
    lost-Publishes =
        acquire-Publishes config σ f i (config i) epoch again attempts (some (renew_to s 0))
          sent_again (omega arith) fresh
          (λ u e.
            subst (λ u. (u.gen.lease_deadline ≤ again.ran_at) × Apart σ i u) (some_inj _ u e)
              (omega arith, own-Apart config σ f i s at))

    answered-Publishes :
        (held : Bool)
        → answer.0 ≡ held
        → Publishes
            (config i).ttl
            σ
            i
            again.ran_at
            (on_renewal (config i) epoch call again attempts s (ok held, answer.1))
    unfolding Snowflake.renew
    answered-Publishes true e =
        one-Publishes config σ f i (config i).ttl again.ran_at
          (renew_to s (deadline (config i) call)) answer.1 renewal-Spares
          (
            inr (_, renew_sql-held call.ran_at (config i).ttl s.lease σ.table e, refl, omega arith),
            omega arith,
            own-Apart config σ f i s at,
          )
    answered-Publishes false e =
        subst
          (λ t.
            Publishes (config i).ttl σ i again.ran_at
              (handle_loss (config i) epoch again attempts s t))
          (sym (renew_sql-lost call.ran_at (config i).ttl s.lease σ.table e)) lost-Publishes

    unanswered-Publishes : Publishes (config i).ttl σ i again.ran_at (some s, answer.1)
    unanswered-Publishes =
        one-Publishes config σ f i (config i).ttl again.ran_at s answer.1 renewal-Spares (
          Safe-later call.ran_at again.ran_at _ s.lease answer.1 h' (
              renewed-Safe config σ f i (config i) call.ran_at s _ (omega (arith, f.within i s at))
                (Safe-later σ.now call.ran_at _ s.lease σ.table h (f.safe i s at))),
          omega (arith, f.within i s at),
          own-Apart config σ f i s at,
        )

  pub beat-Publishes :
      (epoch : ℕ) (call again : Call) (answered : Bool) (attempts : List Attempt)
      (cur : Option Session)
      → σ.managers i ≡ cur
      → Sent call
      → σ.now ≤ call.ran_at
      → Sent again
      → call.ran_at ≤ again.ran_at
      → Tokens (Unused σ) attempts
      → Publishes
          (config i).ttl
          σ
          i
          again.ran_at
          (beat (config i) epoch call answered again attempts cur σ.table)
  unfolding beat Repo.renew
  beat-Publishes epoch call again answered attempts none at sent h sent' h' fresh =
      none-Publishes config σ f i (config i).ttl again.ran_at σ.table
        (all-Spares config σ f i again.ran_at (omega arith))
  beat-Publishes epoch call again true attempts (some s) at sent h sent' h' fresh =
      answered-Publishes epoch call again attempts s at sent h sent' h' fresh _ refl
  beat-Publishes epoch call again false attempts (some s) at sent h sent' h' fresh =
      unanswered-Publishes epoch call again attempts s at sent h sent' h' fresh

  pub release-Publishes :
      (reached : Bool) (cur : Option Session)
      → σ.managers i ≡ cur
      → Publishes (config i).ttl σ i σ.now (release_and_clear reached cur σ.table)
  unfolding release_and_clear
  release-Publishes reached none at =
      none-Publishes config σ f i (config i).ttl σ.now σ.table
        (all-Spares config σ f i σ.now (omega arith))
  release-Publishes true (some s) at =
      none-Publishes config σ f i (config i).ttl σ.now (release_sql s.lease σ.table)
        (Owned-Spares config σ f i s σ.now _ at (omega arith) (release_sql-Touches s.lease σ.table))
  release-Publishes false (some s) at =
      none-Publishes config σ f i (config i).ttl σ.now σ.table
        (all-Spares config σ f i σ.now (omega arith))

  pub mints-Publishes :
      (tape rest : List ℕ) (result : Result ManagerError ℕ) (cur held : Option Session)
      → σ.managers i ≡ held
      → next held tape ≡ some (result, cur, rest)
      → Publishes (config i).ttl σ i σ.now (cur, σ.table)
  unfolding next
  mints-Publishes tape rest result cur none at e =
      subst (λ cur. Publishes (config i).ttl σ i σ.now (cur, σ.table)) (ground arith)
        (none-Publishes config σ f i (config i).ttl σ.now σ.table
          (all-Spares config σ f i σ.now (omega arith)))
  mints-Publishes tape rest result cur (some s) at e = go (Snowflake.next s.gen tape) refl e
    where
      keeps :
          (g : Generator)
          → g.lease_deadline ≡ s.gen.lease_deadline
          → Publishes (config i).ttl σ i σ.now (some (record { lease = s.lease; gen = g }), σ.table)
      keeps g same =
          one-Publishes config σ f i (config i).ttl σ.now (record { lease = s.lease; gen = g })
            σ.table (all-Spares config σ f i σ.now (omega arith))
            (
              subst (λ d. Safe σ.now d s.lease σ.table) (sym same) (f.safe i s at),
              omega (arith, f.within i s at, same),
              own-Apart config σ f i s at,
            )

      go :
          (o : Option (Outcome × List ℕ))
          → Snowflake.next s.gen tape ≡ o
          → minted s.lease o ≡ some (result, cur, rest)
          → Publishes (config i).ttl σ i σ.now (cur, σ.table)
      go none e' e = cc
      go (some ((ok id, g), left)) e' e =
          subst (λ cur. Publishes (config i).ttl σ i σ.now (cur, σ.table)) (ground arith)
            (keeps g (next-deadline s.gen g _ _ _ e'))
      go (some ((err x, g), left)) e' e =
          subst (λ cur. Publishes (config i).ttl σ i σ.now (cur, σ.table)) (ground arith)
            (keeps g (next-deadline s.gen g _ _ _ e'))
