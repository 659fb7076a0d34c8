-- ===== src/User/FanOut.antt =====
-- To whom a user's grain passes on what the rooms send: each connection that is registered and has
-- not stopped, once, and nobody else.
use blabby.Prelude.{
  ℕ, ◌+◌, List, [], ◌∷◌, ◌++◌, Option, none, some, Bool, true, false, ◌&&◌, ◌==◌, if◌then◌else◌,
  ◌≡◌, refl, sym, ap, ◌∙◌, arith, Bool-cases, inl, inr, All, subst,
}
use blabby.Text.{Bytes, bytes_eq}
use blabby.Text.Ascii.{bytes_eq_refl, bytes_eq-eq}
use blabby.Map.Named.{
  lookup, insert, delete, keys, sort, count, count-sort, count-keys, one_if, is_some, Distinct,
  insert-Distinct, delete-Distinct, lookup-insert, lookup-delete, All-sort,
}
use blabby.Connection.Messages.{Pid}
use blabby.User.Connections.{
  Connections, pid_key, add_connection, remove_connection, look_up_all, connection_pids,
  is_complete, register_connection, receive_default, fan_out, deliver,
}

-- What reaches the grain: registrations, and the notices that a connection has stopped.
pub data Notice : Type 0 where
  registers : Option Pid → Notice
  terminated : Pid → Notice

unfoldable pub take_notice : Pid → Connections → Notice → Connections
unfolding register_connection receive_default
take_notice self connections (registers requester) =
    (register_connection self requester connections).connections
take_notice self connections (terminated who) = receive_default (some who) connections

unfoldable pub after_notices : Pid → Connections → List Notice → Connections
unfolding take_notice
after_notices self connections [] = connections
after_notices self connections (n ∷ ns) = after_notices self (take_notice self connections n) ns

-- The same actor.
abbrev pub same : Pid → Pid → Bool
same p q = bytes_eq p.address q.address && bytes_eq p.id q.id

-- Whether the last notice about `p` is a registration; `before` is what held until then.
abbrev pub is_live : Pid → Bool → List Notice → Bool
is_live p before [] = before
is_live p before (registers none ∷ ns) = is_live p before ns
is_live p before (registers (some q) ∷ ns) =
    is_live p (if is_complete q && same q p then true else before) ns
is_live p before (terminated q ∷ ns) = is_live p (if same q p then false else before) ns

-- The address of an actor is a host and a port, and has no slash.
unfoldable pub HasNoSlash : Bytes → Type 0
HasNoSlash [] = Unit
HasNoSlash (b ∷ s) = ((b == 47) ≡ false) × HasNoSlash s

abbrev pub Plain : Notice → Type 0
Plain (registers none) = Unit
Plain (registers (some q)) = HasNoSlash q.address
Plain (terminated q) = HasNoSlash q.address

-- Up to a slash both strings are one, or they differ before it.
split_eq :
    (a b s t : Bytes)
    → HasNoSlash a
    → HasNoSlash b
    → bytes_eq (a ++ 47 ∷ s) (b ++ 47 ∷ t) ≡ (bytes_eq a b && bytes_eq s t)
unfolding bytes_eq HasNoSlash
split_eq [] [] s t h k = refl
split_eq [] (b ∷ bs) s t h k = ground (arith, k.0)
split_eq (a ∷ more) [] s t h k = ground (arith, h.0)
split_eq (a ∷ more) (b ∷ bs) s t h k =
    rw (split_eq more bs s t h.1 k.1) (assoc (a == b) (bytes_eq more bs) (bytes_eq s t))
  where
    assoc : (x y z : Bool) → (x && (y && z)) ≡ ((x && y) && z)
    assoc true y z = refl
    assoc false y z = refl

pub pid_key-same :
    (p q : Pid)
    → HasNoSlash p.address
    → HasNoSlash q.address
    → bytes_eq (pid_key p) (pid_key q) ≡ same p q
unfolding pid_key
pid_key-same p q h k = split_eq p.address q.address p.id q.id h k

-- Every entry stands under its own key, with a plain address, and once.
abbrev Keyed : Connections → Type 0
Keyed [] = Unit
Keyed ((k, pid) ∷ m) = ((k ≡ pid_key pid) × HasNoSlash pid.address) × Keyed m

insert-Keyed :
    (pid : Pid) (m : Connections)
    → HasNoSlash pid.address
    → Keyed m
    → Keyed (insert (pid_key pid) pid m)
unfolding insert
insert-Keyed pid [] plain h = ((refl, plain), tt)
insert-Keyed pid ((held, old) ∷ rest) plain h = elim (Bool-cases (bytes_eq held (pid_key pid))) [
  | inl here ↦ rw here ((refl, plain), h.1)
  | inr other ↦ rw other (h.0, insert-Keyed pid rest plain h.1)
]

delete-Keyed : (key : Bytes) (m : Connections) → Keyed m → Keyed (delete key m)
unfolding delete
delete-Keyed key [] h = tt
delete-Keyed key ((held, old) ∷ rest) h = elim (Bool-cases (bytes_eq held key)) [
  | inl here ↦ rw here (delete-Keyed key rest h.1)
  | inr other ↦ rw other (h.0, delete-Keyed key rest h.1)
]

lookup-Keyed :
    (key : Bytes) (m : Connections) (q : Pid)
    → Keyed m
    → lookup key m ≡ some q
    → (key ≡ pid_key q) × HasNoSlash q.address
unfolding lookup
lookup-Keyed key [] q h e = cc
lookup-Keyed key ((held, old) ∷ rest) q h e = elim (Bool-cases (bytes_eq held key)) [
  | inl here ↦
      subst (λ u. (key ≡ pid_key u) × HasNoSlash u.address) (ground (arith, here, e))
        (sym (bytes_eq-eq held key here) ∙ h.0.0, h.0.1)
  | inr other ↦ lookup-Keyed key rest q h.1 (sym (rw other refl) ∙ e)
]

Found : Connections → Bytes → Type 0
Found m k = (q : Pid) × (lookup k m ≡ some q)

Found-cons : (k held : Bytes) (old : Pid) (m : Connections) → Found m k → Found ((held, old) ∷ m) k
unfolding Found lookup
Found-cons k held old m (q, e) = elim (Bool-cases (bytes_eq held k)) [
  | inl here ↦ rw here (old, refl)
  | inr other ↦ rw other (q, e)
]

All-Found-cons :
    (held : Bytes) (old : Pid) (m : Connections) (ks : List Bytes)
    → All (Found m) ks
    → All (Found ((held, old) ∷ m)) ks
All-Found-cons held old m [] h = tt
All-Found-cons held old m (k ∷ ks) h =
    (Found-cons k held old m h.0, All-Found-cons held old m ks h.1)

keys-Found : (m : Connections) → All (Found m) (keys m)
unfolding keys Found lookup
keys-Found [] = tt
keys-Found ((held, old) ∷ m) =
    ((old, rw (bytes_eq_refl held) refl), All-Found-cons held old m (keys m) (keys-Found m))

-- Whether a send goes to `p`, and how many do.
abbrev reached : Pid → Option Pid → Bool
reached p none = false
reached p (some q) = same q p

unfoldable pub times : {M : Type 0} → Pid → List (Option Pid × M) → ℕ
times p [] = 0
times p ((to, message) ∷ sends) = one_if (reached p to) + times p sends

module _ (p : Pid) (plain : HasNoSlash p.address) where
  times-fan_out :
      {M : Type 0} (message : M) (m : Connections) (ks : List Bytes)
      → Keyed m
      → All (Found m) ks
      → times p (fan_out (look_up_all ks m) message) ≡ count (pid_key p) ks
  unfolding times fan_out look_up_all count Found
  times-fan_out message m [] keyed found = refl
  times-fan_out message m (k ∷ ks) keyed ((q, e), found) =
      let (own, slashless) = lookup-Keyed k m q keyed e in
      rw (e, times-fan_out message m ks keyed found, own, pid_key-same q p slashless plain) refl

  times-deliver :
      {M : Type 0} (message : M) (m : Connections)
      → Keyed m
      → Distinct m
      → times p (deliver message m) ≡ one_if (is_some (lookup (pid_key p) m))
  unfolding deliver connection_pids
  times-deliver message m keyed d =
      times-fan_out message m (sort (keys m)) keyed (All-sort (Found m) (keys m) (keys-Found m))
      ∙ count-sort (pid_key p) (keys m)
      ∙ count-keys (pid_key p) m d

-- What every history keeps of the connections.
record IsSound (m : Connections) : Type 0 where
  keyed : Keyed m
  distinct : Distinct m

register-whole :
    (self q : Pid) (m : Connections)
    → is_complete q ≡ true
    → take_notice self m (registers (some q)) ≡ add_connection q m
unfolding take_notice register_connection
register-whole self q m h = ground arith

register-part :
    (self q : Pid) (m : Connections)
    → is_complete q ≡ false
    → take_notice self m (registers (some q)) ≡ m
unfolding take_notice register_connection
register-part self q m h = ground arith

add-IsSound :
    (q : Pid) (m : Connections) → HasNoSlash q.address → IsSound m → IsSound (add_connection q m)
unfolding add_connection
add-IsSound q m plain v = record {
  keyed = insert-Keyed q m plain v.keyed;
  distinct = insert-Distinct (pid_key q) q m v.distinct;
}

take-IsSound :
    (self : Pid) (n : Notice) (m : Connections)
    → Plain n
    → IsSound m
    → IsSound (take_notice self m n)
unfolding take_notice register_connection receive_default add_connection remove_connection
take-IsSound self (registers none) m plain v = v
take-IsSound self (registers (some q)) m plain v = elim (Bool-cases (is_complete q)) [
  | inl whole ↦ subst IsSound (sym (register-whole self q m whole)) (add-IsSound q m plain v)
  | inr part ↦ subst IsSound (sym (register-part self q m part)) v
]
take-IsSound self (terminated q) m plain v = record {
  keyed = delete-Keyed (pid_key q) m v.keyed;
  distinct = delete-Distinct (pid_key q) m v.distinct;
}

module _ (p : Pid) (slashless : HasNoSlash p.address) (self : Pid) where
  abbrev listed : Connections → Bool
  listed m = is_some (lookup (pid_key p) m)

  listed-register :
      (q : Pid) (m : Connections)
      → HasNoSlash q.address
      → listed (take_notice self m (registers (some q)))
        ≡ (if is_complete q && same q p then true else listed m)
  unfolding add_connection
  listed-register q m plain = elim (Bool-cases (is_complete q)) [
    | inr part ↦ rw part (ap listed (register-part self q m part))
    | inl whole ↦
        ap listed (register-whole self q m whole)
        ∙ rw (whole, lookup-insert (pid_key q) (pid_key p) q m, pid_key-same q p plain slashless)
            (go (same q p))
  ]
    where
      go :
          (t : Bool)
          → is_some (if t then some q else lookup (pid_key p) m)
            ≡ (if t then true else is_some (lookup (pid_key p) m))
      go true = refl
      go false = refl

  listed-terminated :
      (q : Pid) (m : Connections)
      → HasNoSlash q.address
      → listed (take_notice self m (terminated q)) ≡ (if same q p then false else listed m)
  unfolding take_notice receive_default remove_connection
  listed-terminated q m plain =
      rw (lookup-delete (pid_key q) (pid_key p) m, pid_key-same q p plain slashless) (go (same q p))
    where
      go :
          (t : Bool)
          → is_some (if t then none else lookup (pid_key p) m)
            ≡ (if t then false else is_some (lookup (pid_key p) m))
      go true = refl
      go false = refl

  after-listed :
      (ns : List Notice) (m : Connections)
      → All Plain ns
      → IsSound m
      → IsSound (after_notices self m ns)
        × (listed (after_notices self m ns) ≡ is_live p (listed m) ns)
  unfolding after_notices
  after-listed [] m plain v = (v, refl)
  after-listed (registers none ∷ ns) m plain v =
      unfold take_notice register_connection in after-listed ns m plain.1 v
  after-listed (registers (some q) ∷ ns) m plain v =
      let (sound, e) =
        after-listed ns (take_notice self m (registers (some q))) plain.1
          (take-IsSound self (registers (some q)) m plain.0 v) in
      (sound, e ∙ ap (λ b. is_live p b ns) (listed-register q m plain.0))
  after-listed (terminated q ∷ ns) m plain v =
      let (sound, e) =
        after-listed ns (take_notice self m (terminated q)) plain.1
          (take-IsSound self (terminated q) m plain.0 v) in
      (sound, e ∙ ap (λ b. is_live p b ns) (listed-terminated q m plain.0))

  -- After any history of registrations and terminations, with addresses that have no slash, a message
  -- that a room sends to the user goes to an actor once if the last of the notices about it that was
  -- accepted is its registration, and else not at all.
  pub delivers_once_to_live :
      {M : Type 0} (message : M) (ns : List Notice)
      → All Plain ns
      → times p (deliver message (after_notices self [] ns)) ≡ one_if (is_live p false ns)
  unfolding lookup
  delivers_once_to_live message ns plain =
      let (v, e) = after-listed ns [] plain (record { keyed = tt; distinct = tt }) in
      times-deliver p slashless message (after_notices self [] ns) v.keyed v.distinct ∙ ap one_if e
