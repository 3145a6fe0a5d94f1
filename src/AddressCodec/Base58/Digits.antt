-- ===== src/AddressCodec/Base58/Digits.antt =====
-- Digits of base 58 and the characters that stand for them.
use native.Mathlib.Nat.{pow-suc, mul_assoc, mul-le-mul_right}
use sara_pro.Prelude.{
  ℕ, zero, suc, ◌+◌, ◌*◌, ◌/◌, ◌%◌, ◌^◌, ◌≤◌, ◌<◌, ◌≡◌, refl, sym, ap, ◌∙◌, subst, List, [], ◌∷◌,
  Option, none, some, All, Bool, true, false, ◌&&◌, arith, length, ◌==◌, ==_iff, if◌then◌else◌,
  Bool-cases, inl, inr, both_true,
}
use mathlib.Core.Option.{some-injective}
use sara_pro.Bytes.{Text}
use sara_pro.AddressCodec.{base58_alphabet, index_of, indexes_of, base58_value, leading_zeros}
use sara_pro.AddressCodec.Encode.{symbol, base58_chars}

-- The alphabet has each of its characters once.
unfoldable all_digits : ℕ → Bool
all_digits zero = true
all_digits (suc d) = all_digits d && (elim (index_of (symbol d base58_alphabet) base58_alphabet) [
  | none ↦ false
  | some i ↦ i == d
])

index_of-symbol_all :
    (n d : ℕ)
    → all_digits n ≡ true
    → d < n
    → index_of (symbol d base58_alphabet) base58_alphabet ≡ some d
unfolding all_digits
index_of-symbol_all zero d h lt = absurd (omega (arith, lt))
index_of-symbol_all (suc n) d h lt =
    let (before, here) = both_true (all_digits n) _ h in
    elim (Bool-cases (d == n)) [
      | inl e ↦
          subst (λ (k : ℕ). index_of (symbol k base58_alphabet) base58_alphabet ≡ some k)
            (sym ((==_iff d n).0 e))
            (found (index_of (symbol n base58_alphabet) base58_alphabet) here)
      | inr e ↦ index_of-symbol_all n d before (ground (arith, e, lt))
    ]
  where
    found :
        (o : Option ℕ)
        → elim o as (λ _. Bool) [ none ↦ false | some i ↦ i == n ] ≡ true
        → o ≡ some n
    found none k = absurd (cc k)
    found (some i) k = ap some ((==_iff i n).0 k)

index_of-symbol : (d : ℕ) → d < 58 → index_of (symbol d base58_alphabet) base58_alphabet ≡ some d
unfolding all_digits index_of symbol
index_of-symbol d h = index_of-symbol_all 58 d refl h

pub cons_digit :
    (c : ℕ) (s alphabet : Text) {i : ℕ} {ds : List ℕ}
    → index_of c alphabet ≡ some i
    → indexes_of alphabet s ≡ some ds
    → indexes_of alphabet (c ∷ s) ≡ some (i ∷ ds)
unfolding indexes_of
cons_digit c s alphabet e h = rw (indexes_of, e, h) refl

-- The digits of an encoded number.
pub indexes_of-base58_chars :
    (fuel n : ℕ) (rest : Text) (ds : List ℕ)
    → n < 58 ^ fuel
    → indexes_of base58_alphabet rest ≡ some ds
    → (es : List ℕ) × (indexes_of base58_alphabet (base58_chars fuel n rest) ≡ some es)
      × (base58_value 0 es ≡ base58_value n ds)
unfolding base58_chars indexes_of base58_value
indexes_of-base58_chars zero n rest ds lt h =
    let none_left : 0 ≡ n = omega (arith, lt) in
    (ds, h, ap (λ (t : ℕ). base58_value t ds) none_left)
indexes_of-base58_chars (suc fuel) n rest ds lt h = elim (Bool-cases (n == 0)) [
  | inl empty ↦
      let none_left : 0 ≡ n = ground (arith, empty) in
      (ds, rw empty h, ap (λ (t : ℕ). base58_value t ds) none_left)
  | inr more ↦
      let small : n / 58 < 58 ^ fuel = omega (arith, lt, pow-suc 58 fuel) in
      let whole : n / 58 * 58 + n % 58 ≡ n = omega arith in
      let digit = index_of-symbol (n % 58) (omega arith) in
      let (es, e, v) =
        indexes_of-base58_chars fuel (n / 58) (symbol (n % 58) base58_alphabet ∷ rest) (n % 58 ∷ ds)
          small (cons_digit _ rest base58_alphabet digit h) in
      (es, rw more e, v ∙ ap (λ (t : ℕ). base58_value t ds) whole)
]

symbol-not_one : (d : ℕ) → d < 58 → (d == 0) ≡ false → (symbol d base58_alphabet == 49) ≡ false
unfolding index_of
symbol-not_one d lt h = elim (Bool-cases (symbol d base58_alphabet == 49)) [
  | inr other ↦ other
  | inl one ↦
      let is_one : symbol d base58_alphabet ≡ 49 = (==_iff _ 49).0 one in
      let first : index_of 49 base58_alphabet ≡ some d =
        subst (λ (c : ℕ). index_of c base58_alphabet ≡ some d) is_one (index_of-symbol d lt) in
      let is_zero : 0 ≡ d = some-injective _ _ first in absurd (ground (arith, is_zero, h))
]

base58_chars-zero : (fuel : ℕ) (rest : Text) → base58_chars fuel 0 rest ≡ rest
unfolding base58_chars
base58_chars-zero zero rest = refl
base58_chars-zero (suc fuel) rest = refl

leading_zeros-other : (c : ℕ) (s : Text) → (c == 49) ≡ false → leading_zeros (c ∷ s) ≡ []
unfolding leading_zeros
leading_zeros-other c s h = rw h refl

-- The first character of an encoded number that is not zero is no `1`.
leading_zeros-base58_chars :
    (fuel n : ℕ) (rest : Text)
    → n < 58 ^ fuel
    → (n == 0) ≡ false
    → leading_zeros (base58_chars fuel n rest) ≡ []
unfolding base58_chars
leading_zeros-base58_chars zero n rest lt h = absurd (ground (arith, lt, h))
leading_zeros-base58_chars (suc fuel) n rest lt h =
    let small : n / 58 < 58 ^ fuel = omega (arith, lt, pow-suc 58 fuel) in
    rw h (elim (Bool-cases (n / 58 == 0)) [
      | inr more ↦
          leading_zeros-base58_chars fuel (n / 58) (symbol (n % 58) base58_alphabet ∷ rest) small
            more
      | inl last ↦
          let none_left : n / 58 ≡ 0 = (==_iff (n / 58) 0).0 last in
          rw (none_left, base58_chars-zero)
            (leading_zeros-other _ rest
              (symbol-not_one (n % 58) (omega arith) (ground (arith, h, none_left))))
    ])

index_of-below : (c : ℕ) (s : Text) {i : ℕ} → index_of c s ≡ some i → i < length s
unfolding index_of
index_of-below c [] h = absurd (cc h)
index_of-below c (d ∷ s) {i} h = by_test (c == d) (index_of c s) (λ j e. index_of-below c s e) h
  where
    by_test :
        (b : Bool) (o : Option ℕ)
        → ((j : ℕ) → o ≡ some j → j < length s)
        → (if b then some 0 else elim o as (λ _. Option ℕ) [ none ↦ none | some j ↦ some (suc j) ])
          ≡ some i
        → i < suc (length s)
    by_test true o ih e = let first : 0 ≡ i = some-injective _ _ e in omega (arith, first)
    by_test false none ih e = absurd (cc e)
    by_test false (some j) ih e =
        let later : suc j ≡ i = some-injective _ _ e in omega (arith, later, ih j refl)

-- Every character of a number has a digit.
pub indexes_of-below :
    (s : Text) {l : List ℕ}
    → indexes_of base58_alphabet s ≡ some l
    → All (λ d. d < 58) l × (length l ≡ length s)
unfolding indexes_of
indexes_of-below [] h =
    subst (λ (l : List ℕ). All (λ d. d < 58) l × (length l ≡ 0)) (some-injective _ _ h) (tt, refl)
indexes_of-below (c ∷ s) {l} h =
    by_digit (index_of c base58_alphabet) (indexes_of base58_alphabet s)
      (λ j e. index_of-below c base58_alphabet e) (λ k e. indexes_of-below s e) h
  where
    by_digit :
        (o : Option ℕ) (r : Option (List ℕ))
        → ((j : ℕ) → o ≡ some j → j < 58)
        → ((k : List ℕ) → r ≡ some k → All (λ d. d < 58) k × (length k ≡ length s))
        → elim o as (λ _. Option (List ℕ)) [
          | none ↦ none
          | some i ↦ elim r as (λ _. Option (List ℕ)) [ none ↦ none | some k ↦ some (i ∷ k) ]
        ]
          ≡ some l
        → All (λ d. d < 58) l × (length l ≡ suc (length s))
    by_digit none r below ih e = absurd (cc e)
    by_digit (some i) none below ih e = absurd (cc e)
    by_digit (some i) (some k) below ih e =
        let (all, count) = ih k refl in
        subst (λ (l : List ℕ). All (λ d. d < 58) l × (length l ≡ suc (length s)))
          (some-injective _ _ e) ((below i refl, all), ap suc count)

-- A byte has at most two digits of base 58.
pub power_bound : (n : ℕ) → 256 ^ n ≤ 58 ^ (2 * n)
power_bound zero = omega arith
power_bound (suc n) =
    let double : 58 ^ (2 * suc n) ≡ 58 ^ suc (suc (2 * n)) = ap (λ (k : ℕ). 58 ^ k) (omega arith) in
    omega
      (arith, power_bound n, double, pow-suc 256 n, pow-suc 58 (suc (2 * n)), pow-suc 58 (2 * n))

pub no_ones : (fuel n : ℕ) → n < 58 ^ fuel → leading_zeros (base58_chars fuel n []) ≡ []
unfolding leading_zeros
no_ones fuel n fits = elim (Bool-cases (n == 0)) [
  | inr more ↦ leading_zeros-base58_chars fuel n [] fits more
  | inl empty ↦
      ap (λ (k : ℕ). leading_zeros (base58_chars fuel k [])) ((==_iff n 0).0 empty)
      ∙ ap leading_zeros (base58_chars-zero fuel [])
]

least : (k j n : ℕ) → 1 ≤ k → k * 58 ^ j ≤ n → 1 ≤ n
least k j n one from = omega (arith, power_positive j, mul-le-mul_right (58 ^ j) one, from)
  where
    power_positive : (j : ℕ) → 1 ≤ 58 ^ j
    power_positive zero = omega arith
    power_positive (suc j) = omega (arith, power_positive j, pow-suc 58 j)

scaled_power : (k j : ℕ) → k * 58 ^ suc j ≡ k * 58 ^ j * 58
scaled_power k j = ap (λ (t : ℕ). k * t) (pow-suc 58 j) ∙ sym (mul_assoc k (58 ^ j) 58)

-- The first digit of a number between two multiples of a power.
pub base58_chars-first :
    (fuel k j n : ℕ) (rest : Text)
    → 1 ≤ k
    → k < 58
    → n < 58 ^ fuel
    → k * 58 ^ j ≤ n
    → n < suc k * 58 ^ j
    → (s : Text) × (base58_chars fuel n rest ≡ symbol k base58_alphabet ∷ s)
unfolding base58_chars
base58_chars-first zero k j n rest one below lt from till =
    absurd (omega (arith, lt, least k j n one from))
base58_chars-first (suc fuel) k zero n rest one below lt from till =
    let nonzero : (n == 0) ≡ false = ground (arith, least k zero n one from) in
    let quotient : n / 58 ≡ 0 = omega (arith, from, till, below) in
    let remainder : n % 58 ≡ k = omega (arith, from, till, below) in
    (rest, rw nonzero (rw (quotient, base58_chars-zero, remainder) refl))
base58_chars-first (suc fuel) k (suc j) n rest one below lt from till =
    let nonzero : (n == 0) ≡ false = ground (arith, least k (suc j) n one from) in
    let small : n / 58 < 58 ^ fuel = omega (arith, lt, pow-suc 58 fuel) in
    let from_below : k * 58 ^ j ≤ n / 58 = omega (arith, from, scaled_power k j) in
    let to_above : n / 58 < suc k * 58 ^ j = omega (arith, till, scaled_power (suc k) j) in
    let (s, e) =
      base58_chars-first fuel k j (n / 58) (symbol (n % 58) base58_alphabet ∷ rest) one below small
        from_below to_above in
    (s, rw nonzero e)
