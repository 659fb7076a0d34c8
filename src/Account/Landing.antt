-- ===== src/Account/Landing.antt =====
-- On transactions that succeed: the tables that they commit.
use blabby.Prelude.{Result, ok, err, ◌≡◌, refl, ap, arith}
use blabby.Account.World.{
  World, Error, Action, continue, pure, statement, end_tx, within_tx, commit, answered_commit,
  finish_commit,
}
use blabby.Account.Triples.{Same, statement-cases, statement-Reads, pure-Reads}

-- Both views of the tables after it are those that the body left, run on the tables before it.
abbrev pub Landed : {A : Type 0} → Action A → World → A → World → Type 0
Landed body w a after =
    (w' : World) × Same w w'
    × ((body w').0 ≡ ok a)
    × (after.committed ≡ (body w').1.tables)
    × (after.tables ≡ (body w').1.tables)
    × (after.now ≡ (body w').1.now)

-- What a commit leaves, if it succeeds.
abbrev Ends : {A : Type 0} → World → A → A → Result Error A × World → Type 0
Ends w b a r =
    (finish_commit r).0 ≡ ok a
    → (b ≡ a)
      × ((finish_commit r).1.committed ≡ w.tables)
      × ((finish_commit r).1.tables ≡ w.tables)
      × ((finish_commit r).1.now ≡ w.now)

end_tx-Ends :
    {A : Type 0} (r : Result Error A × World) (a : A)
    → (end_tx r).0 ≡ ok a
    → (r.0 ≡ ok a)
      × ((end_tx r).1.committed ≡ r.1.tables)
      × ((end_tx r).1.tables ≡ r.1.tables)
      × ((end_tx r).1.now ≡ r.1.now)
unfolding end_tx
end_tx-Ends (err x, w) a e = absurd (ground arith)
end_tx-Ends (ok b, w) a e = let (same, c, t, n) = ends e in (ap ok same, c, t, n)
  where
    acknowledged :
        (v : World)
        → v.committed ≡ w.tables
        → v.tables ≡ w.tables
        → v.now ≡ w.now
        → Ends w b a (statement (pure b) v)
    acknowledged v c t n =
        statement-cases (Ends w b a) (pure b) v (λ rest e. absurd (ground arith))
          (λ rest e. (ground arith, c, t, n))

    ends : Ends w b a (answered_commit b w)
    ends =
        unfold answered_commit in
        statement-cases (λ r. Ends w b a (continue r.0 (λ x. statement (pure x)) r.1)) (commit b) w
          (λ rest e. absurd (ground arith))
          (λ rest. acknowledged (record w { committed = w.tables; faults = rest }) refl refl refl)

begun-Landed :
    {A : Type 0} (body : Action A) (w : World) (a : A) (r : Result Error (Unit {0}) × World)
    → Same w r.1
    → (continue r.0 (λ _ w. end_tx (body w)) r.1).0 ≡ ok a
    → Landed body w a (continue r.0 (λ _ w. end_tx (body w)) r.1).1
begun-Landed body w a (err x, w') same e = absurd (ground arith)
begun-Landed body w a (ok _, w') same e =
    let (r, c, t, n) = end_tx-Ends (body w') a e in (w', same, r, c, t, n)

pub within_tx-Landed :
    {A : Type 0} (body : Action A) (w : World) (a : A)
    → (within_tx body w).0 ≡ ok a
    → Landed body w a (within_tx body w).1
unfolding within_tx
within_tx-Landed body w a =
    begun-Landed body w a (statement (pure tt) w) (statement-Reads (pure tt) (pure-Reads tt) w)
