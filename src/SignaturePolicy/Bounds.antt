-- ===== src/SignaturePolicy/Bounds.antt =====
-- The ranges of accepted signatures, and the sighash types that pass the boundary.
use sara_pro.Prelude.{
  negated, either_false, ℕ, ◌+◌, ◌-◌, ◌≤◌, ◌<◌, ◌≡◌, sym, ap, ap₂, ◌∙◌, subst, ◌⊎◌, ◌↔◌, inl, inr,
  Bool, true, false, [], ◌∷◌, ◌++◌, append_assoc, ◌&&◌, ◌||◌, not, arith, length, take, drop, ltb,
  leb, leb→le, ◌==◌, ==_iff, ok, >>=-eq-ok, >>-eq-ok, ok-injective,
}
use sara_pro.Bytes.{Bytes}
use sara_pro.SignaturePolicy.Layout.{
  IsMinimal, check_integer-IsMinimal, laid_out, strict, with_last,
}
use sara_pro.SignaturePolicy.{
  secp256k1_n, half_n, is_member, valid_ecdsa_sighashes, big_onto, byte_at, ParsedEcdsaSignature,
  check_integer, out_of_range, check_scalars, parse_der, parse_strict_der_ecdsa_signature, Allowed,
  enforce_sighash_policy,
}

-- The default flags: nothing but SIGHASH_ALL, and SIGHASH_DEFAULT of Taproot.
abbrev pub nothing_allowed : Allowed
nothing_allowed = record { allow_none = false; allow_single = false; allow_anyonecanpay = false }

passed :
    (n : ℕ) (taproot : Bool)
    → enforce_sighash_policy n taproot nothing_allowed ≡ ok tt
    → (n ≡ 1) ⊎ ((taproot ≡ true) × (n ≡ 0))
unfolding enforce_sighash_policy is_member
passed n true h = ground arith
passed n false h = ground arith

admitted :
    (n : ℕ) (taproot : Bool)
    → (n ≡ 1) ⊎ ((taproot ≡ true) × (n ≡ 0))
    → enforce_sighash_policy n taproot nothing_allowed ≡ ok tt
unfolding enforce_sighash_policy is_member
admitted n true (inl e) = rw e
admitted n false (inl e) = rw e
admitted n true (inr (_, e)) = rw e
admitted n false (inr (e, _)) = absurd (cc e)

-- With the default flags, `enforce_sighash_policy` accepts exactly SIGHASH_ALL and, on a Taproot path,
-- SIGHASH_DEFAULT.
pub enforce_sighash_policy_iff :
    (n : ℕ) (taproot : Bool)
    → (enforce_sighash_policy n taproot nothing_allowed ≡ ok tt)
      ↔ ((n ≡ 1) ⊎ ((taproot ≡ true) × (n ≡ 0)))
enforce_sighash_policy_iff n taproot = (passed n taproot, admitted n taproot)

-- An ECDSA signature within the ranges that the boundary demands.
pub record EcdsaInRange (p : ParsedEcdsaSignature) (require_low_s : Bool) : Type 0 where
  pub r_positive : 1 ≤ p.r
  pub r_below : p.r < secp256k1_n
  pub s_positive : 1 ≤ p.s
  pub s_below : p.s < secp256k1_n
  pub s_low : require_low_s ≡ true → p.s ≤ half_n
  pub low_flag : (p.low_s ≡ true) ↔ (p.s ≤ half_n)
  pub type_valid : is_member p.sighash_type valid_ecdsa_sighashes ≡ true

in_range : (x : ℕ) → out_of_range x ≡ false → (1 ≤ x) × (x < secp256k1_n)
in_range x h = ground arith

low_enough : (b : Bool) (s : ℕ) → (b && not (leb s half_n)) ≡ false → b ≡ true → s ≤ half_n
low_enough true s h e = leb→le s half_n (negated (leb s half_n) h)
low_enough false s h e = absurd (cc e)

low_iff : (s : ℕ) → (leb s half_n ≡ true) ↔ (s ≤ half_n)
low_iff s = ground arith

-- The bytes of a signature in strict DER, with its sighash type behind it: R and S, each behind the tag
-- 2 and its length, behind the tag 48 and the length of both. Each is minimal and not negative.
pub record Spelled (sig : Bytes) (p : ParsedEcdsaSignature) : Type 0 where
  pub r_bytes : Bytes
  pub s_bytes : Bytes
  pub spelled :
      sig
      ≡ 48
        ∷ (4 + length r_bytes + length s_bytes)
        ∷ 2
        ∷ length r_bytes
        ∷ (r_bytes ++ 2 ∷ length s_bytes ∷ (s_bytes ++ p.sighash_type ∷ []))
  pub r_is : p.r ≡ big_onto 0 r_bytes
  pub s_is : p.s ≡ big_onto 0 s_bytes
  pub r_minimal : IsMinimal r_bytes
  pub s_minimal : IsMinimal s_bytes

-- What strict DER and its integers say of a parsed signature.
record Der (der : Bytes) (sighash : ℕ) (p : ParsedEcdsaSignature) : Type 0 where
  r_bytes : Bytes
  s_bytes : Bytes
  spelled :
      der
      ≡ 48
        ∷ (4 + length r_bytes + length s_bytes)
        ∷ 2
        ∷ length r_bytes
        ∷ (r_bytes ++ 2 ∷ length s_bytes ∷ s_bytes)
  r_is : p.r ≡ big_onto 0 r_bytes
  s_is : p.s ≡ big_onto 0 s_bytes
  type_is : p.sighash_type ≡ sighash
  r_minimal : IsMinimal r_bytes
  s_minimal : IsMinimal s_bytes

scalars_kept :
    (r s sighash : ℕ) (require_low_s : Bool) {p : ParsedEcdsaSignature}
    → check_scalars r s sighash require_low_s ≡ ok p
    → (p.r ≡ r) × (p.s ≡ s) × (p.sighash_type ≡ sighash)
unfolding check_scalars
scalars_kept r s sighash require_low_s h =
    let (_, h1) = >>-eq-ok (out_of_range r || out_of_range s) _ _ h in
    let (_, h2) = >>-eq-ok (require_low_s && not (leb s half_n)) _ _ h1 in
    let same = sym (ok-injective h2) in
    (ap (λ q. q.r) same, ap (λ q. q.s) same, ap (λ q. q.sighash_type) same)

check_scalars-range :
    (r s sighash : ℕ) (require_low_s : Bool) {p : ParsedEcdsaSignature}
    → is_member sighash valid_ecdsa_sighashes ≡ true
    → check_scalars r s sighash require_low_s ≡ ok p
    → EcdsaInRange p require_low_s
unfolding check_scalars
check_scalars-range r s sighash require_low_s valid h =
    let (range, h1) = >>-eq-ok (out_of_range r || out_of_range s) _ _ h in
    let (low, h2) = >>-eq-ok (require_low_s && not (leb s half_n)) _ _ h1 in
    let (r_ok, s_ok) = either_false (out_of_range r) (out_of_range s) range in
    subst (λ (p : ParsedEcdsaSignature). EcdsaInRange p require_low_s) (ok-injective h2)
      (record {
        r_positive = (in_range r r_ok).0;
        r_below = (in_range r r_ok).1;
        s_positive = (in_range s s_ok).0;
        s_below = (in_range s s_ok).1;
        s_low = low_enough require_low_s s low;
        low_flag = low_iff s;
        type_valid = valid;
      })

parse_der-range :
    (der : Bytes) (sighash : ℕ) (require_low_s : Bool) {p : ParsedEcdsaSignature}
    → is_member sighash valid_ecdsa_sighashes ≡ true
    → parse_der der sighash require_low_s ≡ ok p
    → EcdsaInRange p require_low_s × Der der sighash p
unfolding parse_der
parse_der-range der sighash require_low_s valid h =
    let (tag, a, h1) = >>=-eq-ok (byte_at 0 der) _ h in
    let (total, b, h2) = >>=-eq-ok (byte_at 1 der) _ h1 in
    let (outer, h3) =
      >>-eq-ok (ltb (length der) 8 || not (tag == 48) || not (total == length der - 2)) _ _ h2 in
    let (r_tag, c, h4) = >>=-eq-ok (byte_at 2 der) _ h3 in
    let (r_int, h5) = >>-eq-ok (not (r_tag == 2)) _ _ h4 in
    let (len_r, d, h6) = >>=-eq-ok (byte_at 3 der) _ h5 in
    let (_, h7) = >>-eq-ok (len_r == 0 || ltb (length der) (4 + len_r + 2)) _ _ h6 in
    let (s_tag, e, h8) = >>=-eq-ok (byte_at (4 + len_r) der) _ h7 in
    let (s_int, h9) = >>-eq-ok (not (s_tag == 2)) _ _ h8 in
    let (len_s, f, h10) = >>=-eq-ok (byte_at (4 + len_r + 1) der) _ h9 in
    let (ends, h11) = >>-eq-ok (len_s == 0 || not (4 + len_r + 2 + len_s == length der)) _ _ h10 in
    let (_, r_ok, h12) = >>=-eq-ok (check_integer (take len_r (drop 4 der))) _ h11 in
    let (_, s_ok, h13) = >>=-eq-ok (check_integer (take len_s (drop (4 + len_r + 2) der))) _ h12 in
    let (front, sized) =
      either_false (ltb (length der) 8 || not (tag == 48)) (not (total == length der - 2)) outer in
    let (_, tagged) = either_false (ltb (length der) 8) (not (tag == 48)) front in
    let (_, whole) = either_false (len_s == 0) (not (4 + len_r + 2 + len_s == length der)) ends in
    let (r_is, s_is, type_is) =
      scalars_kept (big_onto 0 (take len_r (drop 4 der)))
        (big_onto 0 (take len_s (drop (4 + len_r + 2) der))) sighash require_low_s h13 in
    (
      check_scalars-range (big_onto 0 (take len_r (drop 4 der)))
          (big_onto 0 (take len_s (drop (4 + len_r + 2) der))) sighash require_low_s valid h13,
      record {
        r_bytes = take len_r (drop 4 der);
        s_bytes = take len_s (drop (4 + len_r + 2) der);
        spelled =
            strict der len_r len_s (laid_out der a b c d e f) (equal tagged) (equal sized)
              (equal r_int) (equal s_int) (equal whole);
        r_is = r_is;
        s_is = s_is;
        type_is = type_is;
        r_minimal = check_integer-IsMinimal (take len_r (drop 4 der)) r_ok;
        s_minimal = check_integer-IsMinimal (take len_s (drop (4 + len_r + 2) der)) s_ok;
      },
    )
  where
    equal : {m n : ℕ} → not (m == n) ≡ false → m ≡ n
    equal {m} {n} h = (==_iff m n).0 (negated (m == n) h)

-- A signature that `parse_strict_der_ecdsa_signature` accepts is the strict DER of R and S with the
-- sighash type behind it. Both are between 1 and the group order, the type is one of the valid ones,
-- `low_s` is truthful, and S is in the lower half when that is required.
pub parse_strict_der_ecdsa_signature-range :
    (sig : Bytes) (require_low_s : Bool) {p : ParsedEcdsaSignature}
    → parse_strict_der_ecdsa_signature sig require_low_s ≡ ok p
    → EcdsaInRange p require_low_s × Spelled sig p
unfolding parse_strict_der_ecdsa_signature
parse_strict_der_ecdsa_signature-range sig require_low_s h =
    let (_, h1) = >>-eq-ok (ltb (length sig) 9 || ltb 73 (length sig)) _ _ h in
    let (sighash, l, h2) = >>=-eq-ok (byte_at (length sig - 1) sig) _ h1 in
    let (valid, h3) = >>-eq-ok (not (is_member sighash valid_ecdsa_sighashes)) _ _ h2 in
    let (range, d) =
      parse_der-range (take (length sig - 1) sig) sighash require_low_s (negated _ valid) h3 in
    (
      range,
      record {
        r_bytes = d.r_bytes;
        s_bytes = d.s_bytes;
        spelled =
            with_last sig l
            ∙ ap₂ (λ x (t : ℕ). x ++ t ∷ []) d.spelled (sym d.type_is)
            ∙ ap (λ x. 48 ∷ (4 + length d.r_bytes + length d.s_bytes) ∷ 2 ∷ length d.r_bytes ∷ x)
                (append_assoc d.r_bytes (2 ∷ length d.s_bytes ∷ d.s_bytes) _);
        r_is = d.r_is;
        s_is = d.s_is;
        r_minimal = d.r_minimal;
        s_minimal = d.s_minimal;
      },
    )
