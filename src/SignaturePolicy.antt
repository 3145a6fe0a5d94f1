-- ===== src/SignaturePolicy.antt =====
-- signature_policy.py: the encoding, the ranges and the sighash types of signatures at a signing boundary.
pub mod Bounds
pub mod Layout
use sara_pro.Prelude.{
  ℕ, zero, suc, ◌+◌, ◌-◌, ◌*◌, ◌/◌, ◌%◌, List, [], ◌∷◌, Bool, true, false, ◌&&◌, ◌||◌, not, length,
  take, drop, ltb, leb, ◌==◌, if◌then◌else◌, Result, ok, err, ◌>>=◌, ◌>>◌, raise_if,
}
use sara_pro.Bytes.{Bytes, is_empty}

-- A SignaturePolicyError by its message; `index_error` is Python's IndexError.
pub data SignatureError : Type 0 where
  bad_length bad_sighash not_strict_der r_not_integer bad_r_length s_not_integer bad_s_length :
      SignatureError
  not_positive leading_zero scalar_out_of_range high_s index_error : SignatureError
  schnorr_length schnorr_r_range schnorr_s_range schnorr_sighash explicit_default : SignatureError
  unknown_sighash anyonecanpay_blocked none_blocked single_blocked : SignatureError

abbrev pub secp256k1_p : ℕ
secp256k1_p = 115792089237316195423570985008687907853269984665640564039457584007908834671663

abbrev pub secp256k1_n : ℕ
secp256k1_n = 115792089237316195423570985008687907852837564279074904382605163141518161494337

abbrev pub half_n : ℕ
half_n = 57896044618658097711785492504343953926418782139537452191302581570759080747168

-- `n in {...}`
unfoldable pub is_member : ℕ → List ℕ → Bool
is_member n [] = false
is_member n (m ∷ l) = n == m || is_member n l

abbrev pub valid_ecdsa_sighashes : List ℕ
valid_ecdsa_sighashes = 1 ∷ 2 ∷ 3 ∷ 129 ∷ 130 ∷ 131 ∷ []

abbrev pub valid_taproot_sighashes : List ℕ
valid_taproot_sighashes = 0 ∷ 1 ∷ 2 ∷ 3 ∷ 129 ∷ 130 ∷ 131 ∷ []

-- `int.from_bytes(b, "big")`, behind the bytes already read
unfoldable pub big_onto : ℕ → Bytes → ℕ
big_onto n [] = n
big_onto n (b ∷ bs) = big_onto (n * 256 + b) bs

-- `b[i]`
unfoldable pub byte_at : ℕ → Bytes → Result SignatureError ℕ
byte_at i [] = err index_error
byte_at zero (b ∷ bs) = ok b
byte_at (suc i) (b ∷ bs) = byte_at i bs

-- `b & 0x80`
abbrev pub high_bit : ℕ → Bool
high_bit b = (b / 128) % 2 == 1

pub record ParsedEcdsaSignature : Type 0 where
  pub r : ℕ
  pub s : ℕ
  pub sighash_type : ℕ
  pub low_s : Bool

pub record ParsedSchnorrSignature : Type 0 where
  pub r : ℕ
  pub s : ℕ
  pub sighash_type : ℕ

-- The body of the loop over the two integers.
unfoldable pub check_integer : Bytes → Result SignatureError (Unit {0})
check_integer [] = err index_error
check_integer (b ∷ bs) = do raise_if (high_bit b) not_positive; check_second b bs
  where
    check_second : ℕ → Bytes → Result SignatureError (Unit {0})
    check_second b [] = ok tt
    check_second b (c ∷ bs) = raise_if (b == 0 && not (high_bit c)) leading_zero

-- `not 1 <= x < SECP256K1_N`
abbrev pub out_of_range : ℕ → Bool
out_of_range x = not (leb 1 x && ltb x secp256k1_n)

-- The two scalars and the sighash type, in range.
unfoldable pub check_scalars : ℕ → ℕ → ℕ → Bool → Result SignatureError ParsedEcdsaSignature
check_scalars r s sighash require_low_s = do
  raise_if (out_of_range r || out_of_range s) scalar_out_of_range
  raise_if (require_low_s && not (leb s half_n)) high_s
  ok (record { r = r; s = s; sighash_type = sighash; low_s = leb s half_n })

unfoldable pub parse_der : Bytes → ℕ → Bool → Result SignatureError ParsedEcdsaSignature
parse_der der sighash require_low_s = do
  tag ← byte_at 0 der
  total ← byte_at 1 der
  raise_if (ltb (length der) 8 || not (tag == 48) || not (total == length der - 2)) not_strict_der
  r_tag ← byte_at 2 der
  raise_if (not (r_tag == 2)) r_not_integer
  len_r ← byte_at 3 der
  raise_if (len_r == 0 || ltb (length der) (4 + len_r + 2)) bad_r_length
  let r_bytes = take len_r (drop 4 der)
  s_tag ← byte_at (4 + len_r) der
  raise_if (not (s_tag == 2)) s_not_integer
  len_s ← byte_at (4 + len_r + 1) der
  let s_bytes = take len_s (drop (4 + len_r + 2) der)
  raise_if (len_s == 0 || not (4 + len_r + 2 + len_s == length der)) bad_s_length
  check_integer r_bytes
  check_integer s_bytes
  check_scalars (big_onto 0 r_bytes) (big_onto 0 s_bytes) sighash require_low_s

-- `parse_strict_der_ecdsa_signature`
unfoldable pub parse_strict_der_ecdsa_signature :
    Bytes → Bool → Result SignatureError ParsedEcdsaSignature
parse_strict_der_ecdsa_signature sig require_low_s = do
  raise_if (ltb (length sig) 9 || ltb 73 (length sig)) bad_length
  sighash ← byte_at (length sig - 1) sig
  raise_if (not (is_member sighash valid_ecdsa_sighashes)) bad_sighash
  parse_der (take (length sig - 1) sig) sighash require_low_s

-- `0 if len(sig) == 64 else sig[64]`
abbrev pub schnorr_type : Bytes → Result SignatureError ℕ
schnorr_type sig = if length sig == 64 then ok 0 else byte_at 64 sig

-- `parse_schnorr_signature`
unfoldable pub parse_schnorr_signature : Bytes → Result SignatureError ParsedSchnorrSignature
parse_schnorr_signature sig = do
  raise_if (not (length sig == 64) && not (length sig == 65)) schnorr_length
  let r = big_onto 0 (take 32 sig)
  let s = big_onto 0 (take 32 (drop 32 sig))
  raise_if (leb secp256k1_p r) schnorr_r_range
  raise_if (leb secp256k1_n s) schnorr_s_range
  sighash ← schnorr_type sig
  raise_if (not (is_member sighash valid_taproot_sighashes)) schnorr_sighash
  raise_if (length sig == 65 && sighash == 0) explicit_default
  ok (record { r = r; s = s; sighash_type = sighash })

-- The flags `allow_none`, `allow_single` and `allow_anyonecanpay`.
pub record Allowed : Type 0 where
  pub allow_none : Bool
  pub allow_single : Bool
  pub allow_anyonecanpay : Bool

-- `enforce_sighash_policy`
unfoldable pub enforce_sighash_policy : ℕ → Bool → Allowed → Result SignatureError (Unit {0})
enforce_sighash_policy sighash_type taproot allow = do
  raise_if
      (not (
        is_member sighash_type
          (if taproot then valid_taproot_sighashes else valid_ecdsa_sighashes)))
      unknown_sighash
  raise_if (high_bit sighash_type && not allow.allow_anyonecanpay) anyonecanpay_blocked
  raise_if (sighash_type % 4 == 2 && not allow.allow_none) none_blocked
  raise_if (sighash_type % 4 == 3 && not allow.allow_single) single_blocked
