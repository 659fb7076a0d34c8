-- ===== src/PublicCode/Alphabet.antt =====
-- The Crockford alphabet: folding, and the distribution of random symbols.
use blabby.Prelude.{
  ℕ, suc, zero, ◌<◌, ◌≡◌, Bool, true, false, ◌&&◌, ◌||◌, not, ltb, arith, refl, ◌==◌, if◌then◌else◌,
}
use blabby.Text.{is_space, lower}
use blabby.PublicCode.{crockford_alphabet, crockford_symbol, normalize_crockford, contains_rune}

abbrev pub IsSymbol : ℕ → Type 0
IsSymbol b = contains_rune crockford_alphabet b ≡ true

each_below : ℕ → (ℕ → Bool) → Bool
each_below zero test = true
each_below (suc m) test = each_below m test && test m

each_below_lem : (test : ℕ → Bool) (m b : ℕ) → b < m → each_below m test ≡ true → test b ≡ true
unfolding each_below
each_below_lem test zero b low passed = absurd (omega arith)
each_below_lem test (suc m) b low passed = ground (arith, each_below_lem test m b)

-- How many of the numbers below `n` pass the test.
unfoldable pub count_below : ℕ → (ℕ → Bool) → ℕ
count_below zero p = 0
count_below (suc n) p = let rest = count_below n p in if p n then suc rest else rest

pub symbol-ascii : (b : ℕ) → IsSymbol b → b < 128
unfolding contains_rune
symbol-ascii b h = ground arith

-- What holds of the symbols, checked on every ASCII byte.
symbol_facts : ℕ → Bool
symbol_facts b =
    not (contains_rune crockford_alphabet b)
    || (normalize_crockford b == b
        && (not (is_space b)
            && (normalize_crockford (lower b) == b
                && (ltb (lower b) 128 && not (is_space (lower b))))))

symbol_table : each_below 128 symbol_facts ≡ true
unfolding each_below symbol_facts contains_rune normalize_crockford is_space
symbol_table = refl

pub symbol-normal :
    (b : ℕ)
    → IsSymbol b
    → (normalize_crockford b ≡ b)
      × (is_space b ≡ false)
      × (normalize_crockford (lower b) ≡ b)
      × (lower b < 128)
      × (is_space (lower b) ≡ false)
unfolding symbol_facts
symbol-normal b h =
    ground (arith, each_below_lem symbol_facts 128 b (symbol-ascii b h) symbol_table)

symbol_of_byte_table :
    each_below 256 (λ b. contains_rune crockford_alphabet (crockford_symbol b)) ≡ true
unfolding each_below contains_rune crockford_symbol
symbol_of_byte_table = refl

-- A random byte gives a symbol.
pub crockford_symbol-IsSymbol : (b : ℕ) → b < 256 → IsSymbol (crockford_symbol b)
crockford_symbol-IsSymbol b h = each_below_lem _ 256 b h symbol_of_byte_table

unbiased_table :
    each_below 128 (λ s.
      not (contains_rune crockford_alphabet s)
      || count_below 256 (λ b. crockford_symbol b == s) == 8)
    ≡ true
unfolding each_below contains_rune crockford_symbol count_below
unbiased_table = refl

-- Each symbol of the alphabet comes from exactly 8 of the 256 bytes, so a random byte gives each
-- symbol with the same probability.
pub crockford_symbol_unbiased :
    (s : ℕ) → IsSymbol s → count_below 256 (λ b. crockford_symbol b == s) ≡ 8
crockford_symbol_unbiased s h =
    ground (arith, each_below_lem _ 128 s (symbol-ascii s h) unbiased_table)
