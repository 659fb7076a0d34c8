-- ===== src/Account/Sweeping.antt =====
-- The effect of a sweep on the accounts and on their challenges.
use blabby.Prelude.{
  ℕ, ◌+◌, length, ◌-◌, none, Bool, true, false, ◌&&◌, if◌then◌else◌, Result, ok, ◌≡◌, refl, arith,
  subst,
}
use blabby.Map.{lookup}
use blabby.Map.Laws.{Distinct}
use blabby.Account.World.{Tables, World, Error, Action, continue, pure, statement}
use blabby.Account.Sweep.{sweep_users, delete_abandoned, sweep_op, sweep}
use blabby.Account.Triples.{statement-cases}
use blabby.Account.Landing.{within_tx-Landed}
use blabby.Account.Swept.{is_swept, length-kept, lookup-kept, lookup-left}

abbrev pub swept_at : Bool → ℕ → Tables → ℕ → Bool
swept_at locked cutoff t i = locked && is_swept cutoff t.challenges i (lookup i t.users)

-- Row by row: what the sweep deletes is gone with its challenge, all else is as before; and `n` says how
-- many accounts are gone.
abbrev pub Sweeps : Bool → ℕ → ℕ → Tables → Tables → Type 0
Sweeps locked cutoff n t t' =
    (length t'.users + n ≡ length t.users)
    × ((i : ℕ)
        → (lookup i t'.users ≡ (if swept_at locked cutoff t i then none else lookup i t.users))
          × (lookup i t'.challenges
              ≡ (if swept_at locked cutoff t i then none else lookup i t.challenges)))

abbrev granted : ℕ → Bool → Action ℕ
granted cutoff b = if b then statement (delete_abandoned cutoff) else pure 0

granted-Sweeps :
    (locked : Bool) (cutoff : ℕ) (w : World) (n : ℕ)
    → Distinct w.tables.users
    → (granted cutoff locked w).0 ≡ ok n
    → Sweeps locked cutoff n w.tables (granted cutoff locked w).1.tables
unfolding delete_abandoned
granted-Sweeps false cutoff w n d e = (ground arith, λ i. (refl, refl))
granted-Sweeps true cutoff w n d e =
    statement-cases (λ r. r.0 ≡ ok n → Sweeps true cutoff n w.tables r.1.tables)
      (delete_abandoned cutoff) w (λ rest e. absurd (ground arith))
      (λ rest e. (
        counted (length (sweep_users cutoff w.tables.challenges w.tables.users).1)
            (length w.tables.users) (sweep_users cutoff w.tables.challenges w.tables.users).0 e
            (length-kept cutoff w.tables.challenges w.tables.users),
        λ i. (
          lookup-kept cutoff w.tables.challenges i w.tables.users d,
          lookup-left cutoff w.tables.challenges i w.tables.users d,
        ),
      ))
      e
  where
    counted : (k l m : ℕ) → ◌≡◌ {A = Result Error ℕ} (ok m) (ok n) → k + m ≡ l → k + n ≡ l
    counted k l m e h = ground (arith, h)

sweep_op-Sweeps :
    (locked : Bool) (cutoff : ℕ) (w : World) (n : ℕ)
    → Distinct w.tables.users
    → (sweep_op locked cutoff w).0 ≡ ok n
    → Sweeps locked cutoff n w.tables (sweep_op locked cutoff w).1.tables
unfolding sweep_op
sweep_op-Sweeps locked cutoff w n d =
    statement-cases
      (λ r.
        (continue r.0 (granted cutoff) r.1).0 ≡ ok n
        → Sweeps locked cutoff n w.tables (continue r.0 (granted cutoff) r.1).1.tables)
      (pure locked) w (λ rest e. absurd (ground arith))
      (λ rest. granted-Sweeps locked cutoff (record w { faults = rest }) n d)

-- A sweep that succeeds and holds the lock has deleted exactly the pending accounts whose challenge had
-- expired more than the grace period before, with their challenges; without the lock, nothing. Every
-- other row is as it was, the result is committed, and the number of deleted accounts is returned.
pub sweep-Sweeps :
    (grace : ℕ) (locked : Bool) (now : ℕ) (w : World) (n : ℕ)
    → Distinct w.tables.users
    → (sweep grace locked now w).0 ≡ ok n
    → Sweeps locked (now - grace) n w.tables (sweep grace locked now w).1.committed
unfolding sweep
sweep-Sweeps grace locked now w n d e =
    let (w', (c, t), run, c', t', time) = within_tx-Landed (sweep_op locked (now - grace)) w n e in
    rw c' (
      subst (λ t. Sweeps locked (now - grace) n t (sweep_op locked (now - grace) w').1.tables) t
        (sweep_op-Sweeps locked (now - grace) w' n (rw t d) run))
