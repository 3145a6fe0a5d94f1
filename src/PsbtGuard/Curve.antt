-- ===== src/PsbtGuard/Curve.antt =====
-- The curve membership of public keys in psbt_guard.py, with `pow(b, e, m)` by squaring.
use native.Mathlib.Nat.{
  div-add-mod, mul-add-mod_self_left, mul_assoc, mul_comm, add-mul, mul-one, pow-zero, pow-suc,
}
use sara_pro.Prelude.{
  ℕ, zero, suc, ◌+◌, ◌-◌, ◌*◌, ◌/◌, ◌%◌, ◌^◌, ◌<◌, ◌≡◌, sym, ap, ◌∙◌, Bool, ◌&&◌, ◌||◌, not, arith,
  length, take, drop, ltb, ◌==◌, if◌then◌else◌, Bool-cases, inl, inr,
}
use sara_pro.Bytes.{Bytes}
use sara_pro.SignaturePolicy.{big_onto, secp256k1_p}
use sara_pro.BitcoinTx.Script.{byte_is}

-- `pow(b, e, m)` of an exponent below 2 ^ fuel
unfoldable pub pow_mod : ℕ → ℕ → ℕ → ℕ → ℕ
pow_mod zero b e m = 1 % m
pow_mod (suc fuel) b e m =
    let half = pow_mod fuel (b * b % m) (e / 2) m in if e % 2 == 0 then half else b * half % m

-- The right-hand side of the curve's equation is a square that is not 0.
unfoldable pub is_on_curve : ℕ → Bool
is_on_curve x =
    let rhs = (x * x * x + 7) % secp256k1_p in
    ltb x secp256k1_p && not (rhs == 0) && pow_mod 256 rhs ((secp256k1_p - 1) / 2) secp256k1_p == 1

-- `(y * y - x * x * x - 7) % P == 0`
abbrev pub is_point : ℕ → ℕ → Bool
is_point x y = y * y % secp256k1_p == (x * x * x + 7) % secp256k1_p

unfoldable pub is_valid_secp256k1_pubkey : Bytes → Bool
is_valid_secp256k1_pubkey raw =
    let x = big_onto 0 (take 32 (drop 1 raw)) in
    let y = big_onto 0 (drop 33 raw) in
    if length raw == 33 && byte_is raw 0 (λ b. b == 2 || b == 3)
    then is_on_curve x
    else (length raw == 65
        && byte_is raw 0 (λ b. b == 4)
        && ltb x secp256k1_p
        && ltb y secp256k1_p
        && is_point x y)

unfoldable pub is_valid_xonly_pubkey : Bytes → Bool
is_valid_xonly_pubkey raw = length raw == 32 && is_on_curve (big_onto 0 raw)

mul-mod : (a c m : ℕ) → a % m * c % m ≡ a * c % m
mul-mod a c m =
    let parts : a * c ≡ m * (a / m * c) + a % m * c =
      ap (λ (t : ℕ). t * c) (sym (div-add-mod a m))
      ∙ add-mul (m * (a / m)) (a % m) c
      ∙ ap (λ (t : ℕ). t + a % m * c) (mul_assoc m (a / m) c) in
    sym (ap (λ (t : ℕ). t % m) parts ∙ mul-add-mod_self_left m (a / m * c) (a % m * c))

-- A base may be reduced first.
pow-mod : (a k c m : ℕ) → (a % m) ^ k * c % m ≡ a ^ k * c % m
pow-mod a zero c m = ap (λ (t : ℕ). t * c % m) (pow-zero (a % m) ∙ sym (pow-zero a))
pow-mod a (suc k) c m =
    let moved : (b : ℕ) → b ^ suc k * c ≡ b ^ k * (b * c) =
      λ b. ap (λ (t : ℕ). t * c) (pow-suc b k) ∙ mul_assoc (b ^ k) b c in
    let swapped : (p b : ℕ) → p * (b * c) ≡ b * (p * c) =
      λ p b. sym (mul_assoc p b c) ∙ ap (λ (t : ℕ). t * c) (mul_comm p b) ∙ mul_assoc b p c in
    ap (λ (t : ℕ). t % m) (moved (a % m))
    ∙ pow-mod a k (a % m * c) m
    ∙ ap (λ (t : ℕ). t % m) (swapped (a ^ k) (a % m))
    ∙ mul-mod a (a ^ k * c) m
    ∙ ap (λ (t : ℕ). t % m) (sym (swapped (a ^ k) a) ∙ sym (moved a))

square-pow : (b k : ℕ) → (b * b) ^ k ≡ b ^ (k + k)
square-pow b zero = pow-zero (b * b) ∙ sym (pow-zero b)
square-pow b (suc k) =
    let two : suc k + suc k ≡ suc (suc (k + k)) = omega arith in
    pow-suc (b * b) k
    ∙ ap (λ (t : ℕ). t * (b * b)) (square-pow b k)
    ∙ sym (mul_assoc (b ^ (k + k)) b b)
    ∙ ap (λ (t : ℕ). t * b) (sym (pow-suc b (k + k)))
    ∙ sym (pow-suc b (suc (k + k)))
    ∙ ap (λ (t : ℕ). b ^ t) (sym two)

reduced : (b k m : ℕ) → (b * b % m) ^ k % m ≡ b ^ (k + k) % m
reduced b k m =
    ap (λ (t : ℕ). t % m) (sym (mul-one ((b * b % m) ^ k)))
    ∙ pow-mod (b * b) k 1 m
    ∙ ap (λ (t : ℕ). t % m) (mul-one ((b * b) ^ k) ∙ square-pow b k)

-- With enough fuel, `pow_mod` is the power modulo `m`.
pub pow_mod_power : (fuel b e m : ℕ) → e < 2 ^ fuel → pow_mod fuel b e m ≡ b ^ e % m
unfolding pow_mod
pow_mod_power zero b e m h =
    let none_left : e ≡ 0 = omega (arith, h) in
    ap (λ (t : ℕ). t % m) (sym (pow-zero b)) ∙ ap (λ (t : ℕ). b ^ t % m) (sym none_left)
pow_mod_power (suc fuel) b e m h =
    let small : e / 2 < 2 ^ fuel = omega (arith, h, pow-suc 2 fuel) in
    let half = pow_mod_power fuel (b * b % m) (e / 2) m small ∙ reduced b (e / 2) m in
    elim (Bool-cases (e % 2 == 0)) [
      | inl even ↦
          let whole : e / 2 + e / 2 ≡ e = ground (arith, even) in
          rw even (half ∙ ap (λ (t : ℕ). b ^ t % m) whole)
      | inr odd ↦
          let whole : suc (e / 2 + e / 2) ≡ e = ground (arith, odd) in
          rw odd (
            ap (λ (t : ℕ). b * t % m) half
            ∙ ap (λ (t : ℕ). t % m) (mul_comm b (b ^ (e / 2 + e / 2) % m))
            ∙ mul-mod (b ^ (e / 2 + e / 2)) b m
            ∙ ap (λ (t : ℕ). t % m) (sym (pow-suc b (e / 2 + e / 2)))
            ∙ ap (λ (t : ℕ). b ^ t % m) whole)
    ]
