-- ===== src/Prelude/Bits.antt =====
-- `|` of fields that do not overlap is addition.
use Prim.Native.Nat.{ℕ, zero, suc, ◌+◌, ◌*◌, ◌/◌, ◌%◌, ◌^◌, ◌≤◌, ◌<◌, max, bit_or}
use Prim.Native.Nat.{digits, bit_or-bitwise}
use mathlib.Core.Path.{◌≡◌, refl, ap}
use native.Mathlib.Nat.{le_refl, pow-suc}
use native.Mathlib.Omega.{arith}

abbrev or_digits : ℕ → ℕ → ℕ → ℕ
or_digits = digits (λ b. b) max

-- Any fuel from the number itself upwards gives one result.
or_digits-fuel : (k l a b : ℕ) → a ≤ k → a ≤ l → or_digits k a b ≡ or_digits l a b
or_digits-fuel zero zero a b p q = refl
or_digits-fuel zero (suc l) zero b p q = refl
or_digits-fuel (suc k) zero zero b p q = refl
or_digits-fuel zero (suc l) (suc a) b p q = absurd (omega arith)
or_digits-fuel (suc k) zero (suc a) b p q = absurd (omega arith)
or_digits-fuel (suc k) (suc l) zero b p q = refl
or_digits-fuel (suc k) (suc l) (suc a) b p q =
    rw (or_digits-fuel k l (suc a / 2) (b / 2) (omega arith) (omega arith))

-- The lowest binary digit of `a | b`, and the rest.
bit_or-digit : (a b : ℕ) → bit_or a b ≡ bit_or (a / 2) (b / 2) * 2 + max (a % 2) (b % 2)
bit_or-digit zero b = simp bit_or-bitwise (omega arith)
bit_or-digit (suc a) b =
    simp bit_or-bitwise
      (omega (arith, or_digits-fuel a (suc a / 2) (suc a / 2) (b / 2) (omega arith) (le_refl _)))

bit_or-zero_below : (k a : ℕ) → a ≤ k → bit_or a 0 ≡ a
bit_or-zero_below k zero h = refl
bit_or-zero_below zero (suc a) h = absurd (omega arith)
bit_or-zero_below (suc k) (suc a) h =
    omega (arith, bit_or-digit (suc a) 0, bit_or-zero_below k (suc a / 2) (omega arith))

double_pow : (q k : ℕ) → q * 2 ^ suc k ≡ 2 * (q * 2 ^ k)
double_pow q k = omega (arith, ap (λ (t : ℕ). q * t) (pow-suc 2 k))

pub bit_or-disjoint : (k q r : ℕ) → r < 2 ^ k → bit_or (q * 2 ^ k) r ≡ q * 2 ^ k + r
bit_or-disjoint zero q zero fits = ground (arith, bit_or-zero_below q q (le_refl q))
bit_or-disjoint zero q (suc r) fits = absurd (omega arith)
bit_or-disjoint (suc k) q r fits = ground (
  arith,
  bit_or-digit (q * 2 ^ suc k) r,
  double_pow q k,
  pow-suc 2 k,
  bit_or-disjoint k q (r / 2) (omega (arith, pow-suc 2 k)),
)
