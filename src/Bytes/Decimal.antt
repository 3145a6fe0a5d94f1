-- ===== src/Bytes/Decimal.antt =====
-- `str(n)` of a natural number, and `sep.join(items)`.
use sara_pro.Prelude.{
  ℕ, zero, suc, ◌+◌, ◌*◌, ◌/◌, ◌-◌, ◌%◌, ◌<◌, ◌≡◌, ap, ◌∙◌, List, [], ◌∷◌, ◌++◌, arith, ltb,
  if◌then◌else◌, Bool-cases, inl, inr,
}
use sara_pro.Bytes.Hex.{Text}

-- The digits of `n` in front of `rest`; a call for each digit, and `n` has at most `n + 1` of them.
unfoldable pub digits_onto : ℕ → ℕ → Text → Text
digits_onto zero n rest = rest
digits_onto (suc fuel) n rest =
    let more = digits_onto fuel (n / 10) ((48 + n % 10) ∷ rest) in
    if ltb n 10 then (48 + n) ∷ rest else more

unfoldable pub decimal : ℕ → Text
decimal n = digits_onto (suc n) n []

-- The number that decimal digits spell behind those of `acc`.
unfoldable pub digits_value : ℕ → Text → ℕ
digits_value acc [] = acc
digits_value acc (c ∷ s) = digits_value (10 * acc + (c - 48)) s

digits_onto-value :
    (fuel n : ℕ) (rest : Text)
    → n < fuel
    → digits_value 0 (digits_onto fuel n rest) ≡ digits_value n rest
unfolding digits_onto digits_value
digits_onto-value zero n rest h = absurd (omega arith)
digits_onto-value (suc fuel) n rest h = elim (Bool-cases (ltb n 10)) [
  | inl small ↦ rw small (same (omega arith))
  | inr large ↦
      rw large
        (digits_onto-value fuel (n / 10) ((48 + n % 10) ∷ rest) (ground arith) ∙ same (omega arith))
]
  where
    same : {a b : ℕ} → a ≡ b → digits_value a rest ≡ digits_value b rest
    same e = ap (λ (k : ℕ). digits_value k rest) e

-- The digits of `decimal n` spell `n`: the fuel is enough.
pub digits_value-decimal : (n : ℕ) → digits_value 0 (decimal n) ≡ n
unfolding decimal digits_value
digits_value-decimal n = digits_onto-value (suc n) n [] (omega arith)

unfoldable pub join : Text → List Text → Text
join sep [] = []
join sep (t ∷ []) = t
join sep (t ∷ u ∷ l) = t ++ (sep ++ join sep (u ∷ l))
