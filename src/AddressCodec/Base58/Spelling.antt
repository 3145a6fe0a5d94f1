-- ===== src/AddressCodec/Base58/Spelling.antt =====
-- Bytes of a number, most significant first, and the leading zeros in front of them.
use native.Mathlib.Nat.{mul-le-mul_right, mul_assoc, pow-suc, mul_comm}
use sara_pro.Prelude.{
  ℕ, zero, suc, ◌+◌, ◌*◌, ◌/◌, ◌%◌, ◌^◌, ◌≤◌, ◌<◌, ◌≡◌, refl, sym, ap, ap₂, ◌∙◌, subst, List, [],
  ◌∷◌, ◌++◌, All, false, arith, length, ◌==◌, ==_iff, Bool-cases, inl, inr, append-nil,
}
use sara_pro.Bytes.{Bytes, IsBytes}
use sara_pro.SignaturePolicy.{big_onto}
use sara_pro.AddressCodec.{big_bytes, base58_value, leading_zeros}
use sara_pro.AddressCodec.Encode.{leading_ones}

-- With enough fuel, the bytes are those of the number.
pub big_onto-big_bytes :
    (fuel n : ℕ) (rest : Bytes)
    → n < 256 ^ fuel
    → big_onto 0 (big_bytes fuel n rest) ≡ big_onto n rest
unfolding big_bytes big_onto
big_onto-big_bytes zero n rest h =
    let none_left : 0 ≡ n = omega (arith, h) in ap (λ (t : ℕ). big_onto t rest) none_left
big_onto-big_bytes (suc fuel) n rest h = elim (Bool-cases (n == 0)) [
  | inl empty ↦
      let none_left : 0 ≡ n = ground (arith, empty) in
      rw empty (ap (λ (t : ℕ). big_onto t rest) none_left)
  | inr more ↦
      let small : n / 256 < 256 ^ fuel = omega (arith, h, pow-suc 256 fuel) in
      let whole : n / 256 * 256 + n % 256 ≡ n = omega arith in
      rw more (
        big_onto-big_bytes fuel (n / 256) (n % 256 ∷ rest) small
        ∙ ap (λ (t : ℕ). big_onto t rest) whole)
]

shifted : (n count : ℕ) → n * 256 * 256 ^ count ≡ n * 256 ^ suc count
shifted n count =
    mul_assoc n 256 (256 ^ count)
    ∙ ap (λ (t : ℕ). n * t) (mul_comm 256 (256 ^ count) ∙ sym (pow-suc 256 count))

-- One more digit below 256 in front.
pub scaled_bound :
    (value front next count : ℕ)
    → next ≤ front * 256
    → value < next * 256 ^ count
    → value < front * 256 ^ suc count
scaled_bound value front next count step rest =
    omega (arith, rest, mul-le-mul_right (256 ^ count) step, shifted front count)

-- As many bytes as digits hold what digits below 58 spell.
pub base58_value_bound :
    (acc : ℕ) (l : List ℕ) → All (λ d. d < 58) l → base58_value acc l < suc acc * 256 ^ length l
unfolding base58_value
base58_value_bound acc [] h = omega arith
base58_value_bound acc (d ∷ l) (small, others) =
    scaled_bound _ (suc acc) (suc (acc * 58 + d)) (length l) (omega (arith, small))
      (base58_value_bound (acc * 58 + d) l others)

-- Enough fuel is the same as more.
big_bytes-fuel :
    (fuel fuel' n : ℕ) (rest : Bytes)
    → n < 256 ^ fuel
    → n < 256 ^ fuel'
    → big_bytes fuel n rest ≡ big_bytes fuel' n rest
unfolding big_bytes
big_bytes-fuel zero zero n rest h h' = refl
big_bytes-fuel zero (suc fuel') n rest h h' =
    let none_left : n ≡ 0 = omega (arith, h) in rw none_left refl
big_bytes-fuel (suc fuel) zero n rest h h' =
    let none_left : n ≡ 0 = omega (arith, h') in rw none_left refl
big_bytes-fuel (suc fuel) (suc fuel') n rest h h' = elim (Bool-cases (n == 0)) [
  | inl empty ↦ rw empty refl
  | inr more ↦ rw more (
      big_bytes-fuel fuel fuel' (n / 256) (n % 256 ∷ rest) (omega (arith, h, pow-suc 256 fuel))
        (omega (arith, h', pow-suc 256 fuel')))
]

big_bytes-step :
    (fuel n : ℕ) (rest : Bytes)
    → (n == 0) ≡ false
    → big_bytes (suc fuel) n rest ≡ big_bytes fuel (n / 256) (n % 256 ∷ rest)
unfolding big_bytes
big_bytes-step fuel n rest h = rw h refl

big_bytes-one :
    (n : ℕ) (rest : Bytes) → (n == 0) ≡ false → n % 256 ≡ n → big_bytes 1 n rest ≡ n ∷ rest
unfolding big_bytes
big_bytes-one n rest h low = big_bytes-step zero n rest h ∙ ap (λ (k : ℕ). k ∷ rest) low

-- The bytes behind a number that is not zero.
big_bytes-big_onto :
    (fuel n : ℕ) (bs rest : Bytes)
    → IsBytes bs
    → (n == 0) ≡ false
    → big_bytes (fuel + length bs) (big_onto n bs) rest ≡ big_bytes fuel n (bs ++ rest)
unfolding big_onto big_bytes
big_bytes-big_onto fuel n [] rest h nz = ap (λ (k : ℕ). big_bytes k n rest) (omega arith)
big_bytes-big_onto fuel n (b ∷ bs) rest (small, h) nz =
    let count : fuel + suc (length bs) ≡ suc fuel + length bs = omega arith in
    let next : (n * 256 + b == 0) ≡ false = ground (arith, nz) in
    let high : (n * 256 + b) / 256 ≡ n = omega (arith, small) in
    let low : (n * 256 + b) % 256 ≡ b = omega (arith, small) in
    ap (λ (k : ℕ). big_bytes k (big_onto (n * 256 + b) bs) rest) count
    ∙ big_bytes-big_onto (suc fuel) (n * 256 + b) bs rest h next
    ∙ big_bytes-step fuel (n * 256 + b) (bs ++ rest) next
    ∙ ap₂ (λ (k d : ℕ). big_bytes fuel k (d ∷ (bs ++ rest))) high low

big_bytes-zero : (fuel : ℕ) (rest : Bytes) → big_bytes fuel 0 rest ≡ rest
unfolding big_bytes
big_bytes-zero zero rest = refl
big_bytes-zero (suc fuel) rest = refl

pub big_onto_bound : (n : ℕ) (bs : Bytes) → IsBytes bs → big_onto n bs < suc n * 256 ^ length bs
unfolding big_onto
big_onto_bound n [] h = omega arith
big_onto_bound n (b ∷ bs) (small, h) =
    scaled_bound _ (suc n) (suc (n * 256 + b)) (length bs) (omega (arith, small))
      (big_onto_bound (n * 256 + b) bs h)

big_onto-front : (b : ℕ) (bs : Bytes) → big_onto 0 (b ∷ bs) ≡ big_onto b bs
unfolding big_onto
big_onto-front b bs = ap (λ (k : ℕ). big_onto k bs) (omega arith)

-- A first byte that is not zero begins the bytes of the number.
big_bytes-front :
    (fuel b : ℕ) (bs : Bytes)
    → IsBytes (b ∷ bs)
    → (b == 0) ≡ false
    → big_onto b bs < 256 ^ fuel
    → big_bytes fuel (big_onto b bs) [] ≡ b ∷ bs
big_bytes-front fuel b bs (small, h) nz lt =
    let head : b < 256 = small in
    let count : suc (length bs) ≡ 1 + length bs = omega arith in
    let enough : big_onto b bs < 256 ^ suc (length bs) =
      omega (
        arith,
        scaled_bound _ 1 (suc b) (length bs) (omega (arith, head)) (big_onto_bound b bs h),
      ) in
    big_bytes-fuel fuel (suc (length bs)) (big_onto b bs) [] lt enough
    ∙ ap (λ (k : ℕ). big_bytes k (big_onto b bs) []) count
    ∙ big_bytes-big_onto 1 b bs [] h nz
    ∙ big_bytes-one b (bs ++ []) nz (omega (arith, head))
    ∙ ap (λ l. b ∷ l) (append-nil bs)

leading_ones-other :
    (b : ℕ) (bs : Bytes) → (b == 0) ≡ false → leading_zeros (leading_ones (b ∷ bs)) ≡ []
unfolding leading_ones leading_zeros
leading_ones-other b bs e = rw e refl

-- The bytes of a number that some bytes spell, behind their leading zeros.
pub zeros_and_bytes :
    (fuel : ℕ) (bs : Bytes)
    → IsBytes bs
    → big_onto 0 bs < 256 ^ fuel
    → leading_zeros (leading_ones bs) ++ big_bytes fuel (big_onto 0 bs) [] ≡ bs
unfolding leading_ones leading_zeros big_onto
zeros_and_bytes fuel [] h lt = big_bytes-zero fuel []
zeros_and_bytes fuel (b ∷ bs) (small, h) lt = elim (Bool-cases (b == 0)) [
  | inl empty ↦
      subst
        (λ (c : ℕ).
          big_onto 0 (c ∷ bs) < 256 ^ fuel
          → leading_zeros (leading_ones (c ∷ bs)) ++ big_bytes fuel (big_onto 0 (c ∷ bs)) []
            ≡ c ∷ bs)
        (sym ((==_iff b 0).0 empty)) (λ lt'. ap (λ l. 0 ∷ l) (zeros_and_bytes fuel bs h lt')) lt
  | inr more ↦
      ap (λ l. l ++ big_bytes fuel (big_onto 0 (b ∷ bs)) []) (leading_ones-other b bs more)
      ∙ ap (λ (k : ℕ). big_bytes fuel k []) (big_onto-front b bs)
      ∙ big_bytes-front fuel b bs (small, h) more
          (subst (λ (k : ℕ). k < 256 ^ fuel) (big_onto-front b bs) lt)
]

pub no_bytes : (n : ℕ) → leading_zeros [] ++ big_bytes 0 n [] ≡ []
unfolding leading_zeros big_bytes
no_bytes n = refl

pub big_onto_least : (n : ℕ) (bs : Bytes) → n * 256 ^ length bs ≤ big_onto n bs
unfolding big_onto
big_onto_least n [] = omega arith
big_onto_least n (b ∷ bs) =
    let step : n * 256 ≤ n * 256 + b = omega arith in
    omega (
      arith,
      big_onto_least (n * 256 + b) bs,
      mul-le-mul_right (256 ^ length bs) step,
      shifted n (length bs),
    )
