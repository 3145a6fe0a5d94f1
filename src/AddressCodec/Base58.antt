-- ===== src/AddressCodec/Base58.antt =====
-- Base58Check: decoding what was encoded.
mod Digits
mod Spelling
use native.Mathlib.Nat.{mul-le-mul_right, mul_assoc, pow-suc, pow-zero, mul_comm, pow-le-pow_left}
use sara_pro.Prelude.{
  ℕ, zero, suc, ◌+◌, ◌-◌, ◌*◌, ◌/◌, ◌%◌, ◌^◌, ◌≤◌, ◌<◌, ◌≡◌, refl, sym, ap, ap₂, ◌∙◌, subst, List,
  [], ◌∷◌, ◌++◌, Option, none, some, All, All-left, All-append, Bool, true, false, ◌&&◌, arith,
  length, length-append, take, drop, length-take, take-append-drop, take-append_length,
  drop-append_length, ltb, ltb→lt, ◌==◌, ==_iff, if◌then◌else◌, Bool-cases, inl, inr, append-nil,
  Result, ok, both_true,
}
use mathlib.Core.Option.{some-injective}
use sara_pro.Bytes.{Bytes, Text, IsByte, IsBytes, text_eq, text_eq_refl, is_empty}
use sara_pro.SignaturePolicy.{big_onto}
use sara_pro.AddressCodec.{
  base58_alphabet, index_of, indexes_of, big_bytes, base58_value, leading_zeros, b58decode_check,
}
use sara_pro.AddressCodec.Encode.{symbol, base58_chars, leading_ones, b58encode_check}
use sara_pro.AddressCodec.Base58.Digits.{
  cons_digit, indexes_of-base58_chars, indexes_of-below, power_bound, no_ones, base58_chars-first,
}
use sara_pro.AddressCodec.Base58.Spelling.{
  big_onto-big_bytes, base58_value_bound, big_onto_bound, big_onto_least, zeros_and_bytes, no_bytes,
}

one_digit : index_of 49 base58_alphabet ≡ some 0
unfolding index_of
one_digit = refl

-- The ones in front spell nothing.
indexes_of-leading_ones :
    (raw : Bytes) (s : Text) {ds : List ℕ}
    → indexes_of base58_alphabet s ≡ some ds
    → (es : List ℕ) × (indexes_of base58_alphabet (leading_ones raw ++ s) ≡ some es)
      × (base58_value 0 es ≡ base58_value 0 ds)
unfolding leading_ones base58_value
indexes_of-leading_ones [] s {ds} h = (ds, h, refl)
indexes_of-leading_ones (b ∷ raw) s {ds} h = elim (Bool-cases (b == 0)) [
  | inr other ↦ (ds, rw other h, refl)
  | inl zeroth ↦
      let (es, e, v) = indexes_of-leading_ones raw s h in
      (0 ∷ es, rw zeroth (cons_digit 49 (leading_ones raw ++ s) base58_alphabet one_digit e), v)
]

leading_zeros-leading_ones :
    (raw : Bytes) (s : Text)
    → leading_zeros s ≡ []
    → leading_zeros (leading_ones raw ++ s) ≡ leading_zeros (leading_ones raw)
unfolding leading_ones leading_zeros
leading_zeros-leading_ones [] s h = h
leading_zeros-leading_ones (b ∷ raw) s h = elim (Bool-cases (b == 0)) [
  | inr other ↦ rw other h
  | inl zeroth ↦ rw zeroth (ap (λ l. 0 ∷ l) (leading_zeros-leading_ones raw s h))
]

-- The bytes of any address that has digits are those of its number: the fuel is enough.
address_bytes :
    (address : Text) {ds : List ℕ}
    → indexes_of base58_alphabet address ≡ some ds
    → big_onto 0 (big_bytes (length address) (base58_value 0 ds) []) ≡ base58_value 0 ds
unfolding big_onto
address_bytes address {ds} e =
    let (small, count) = indexes_of-below address e in
    let bound : base58_value 0 ds < 256 ^ length address =
      omega (arith, ap (λ (k : ℕ). 256 ^ k) count, base58_value_bound 0 ds small) in
    big_onto-big_bytes (length address) (base58_value 0 ds) [] bound

-- The address of some bytes, and what it reads as.
record Encoded (raw : Bytes) (address : Text) : Type 0 where
  digits : List ℕ
  reads : indexes_of base58_alphabet address ≡ some digits
  bytes : leading_zeros address ++ big_bytes (length address) (base58_value 0 digits) [] ≡ raw

raw-Encoded :
    (raw : Bytes)
    → IsBytes raw
    → Encoded raw (leading_ones raw ++ base58_chars (2 * length raw) (big_onto 0 raw) [])
unfolding indexes_of base58_value
raw-Encoded raw h =
    let fuel = 2 * length raw in
    let n = big_onto 0 raw in
    let fits : n < 58 ^ fuel = omega (arith, big_onto_bound 0 raw h, power_bound (length raw)) in
    let chars = base58_chars fuel n [] in
    let (ds, e, v) = indexes_of-base58_chars fuel n [] [] fits refl in
    let (es, e', v') = indexes_of-leading_ones raw chars e in
    let (small, count) = indexes_of-below (leading_ones raw ++ chars) e' in
    let value : base58_value 0 es ≡ n = v' ∙ v in
    let bound : n < 256 ^ length (leading_ones raw ++ chars) =
      omega (arith, value, ap (λ (k : ℕ). 256 ^ k) count, base58_value_bound 0 es small) in
    record {
      digits = es;
      reads = e';
      bytes =
          ap₂ (λ l (k : ℕ). l ++ big_bytes (length (leading_ones raw ++ chars)) k [])
            (leading_zeros-leading_ones raw chars (no_ones fuel n fits)) value
          ∙ zeros_and_bytes (length (leading_ones raw ++ chars)) raw h bound;
    }

module _ (sha256 : Bytes → Bytes) where
  decode-Encoded :
      (payload check : Bytes) (address : Text)
      → Encoded (payload ++ check) address
      → 1 ≤ length payload
      → length check ≡ 4
      → take 4 (sha256 (sha256 payload)) ≡ check
      → b58decode_check sha256 address ≡ ok payload
  unfolding b58decode_check
  decode-Encoded payload check [] e some_bytes four same = absurd (
      omega (
        arith,
        ap length (sym (no_bytes (base58_value 0 e.digits)) ∙ e.bytes),
        length-append payload check,
        four,
      ))
  decode-Encoded payload check (c ∷ s) e some_bytes four same =
      let long : ltb (length (payload ++ check)) 5 ≡ false =
        ground (arith, length-append payload check, some_bytes, four) in
      let cut : length (payload ++ check) - 4 ≡ length payload =
        omega (arith, length-append payload check, four) in
      rw
        (
          e.reads,
          e.bytes,
          long,
          cut,
          take-append_length payload check,
          drop-append_length payload check,
          same,
          text_eq_refl check,
        )
        refl

  abbrev pub Digest : Type 0
  Digest = (b : Bytes) → IsBytes (sha256 b) × (length (sha256 b) ≡ 32)

  -- The checksum is four bytes.
  checksum :
      (payload : Bytes)
      → Digest
      → IsBytes (take 4 (sha256 (sha256 payload))) × (length (take 4 (sha256 (sha256 payload))) ≡ 4)
  checksum payload digest =
      let hash = sha256 (sha256 payload) in
      let (bytes, size) = digest (sha256 payload) in
      (
        All-left IsByte (take 4 hash) (drop 4 hash)
            (subst IsBytes (sym (take-append-drop 4 hash)) bytes),
        length-take 4 hash (omega (arith, size)),
      )

  -- If SHA-256 returns 32 bytes, the Base58Check address of some bytes, at least one, decodes to them.
  pub b58decode_check-b58encode_check :
      (payload : Bytes)
      → Digest
      → IsBytes payload
      → 1 ≤ length payload
      → b58decode_check sha256 (b58encode_check sha256 payload) ≡ ok payload
  unfolding b58encode_check
  b58decode_check-b58encode_check payload digest h some_bytes =
      let check = take 4 (sha256 (sha256 payload)) in
      let (check_bytes, four) = checksum payload digest in
      decode-Encoded payload check _
        (raw-Encoded (payload ++ check) (All-append IsByte payload check h check_bytes)) some_bytes
        four refl

  -- The address of a script hash on a mainnet begins with `3`.
  pub b58encode_check-three :
      (h160 : Bytes)
      → Digest
      → IsBytes h160
      → length h160 ≡ 20
      → (s : Text) × (b58encode_check sha256 (5 ∷ h160) ≡ 51 ∷ s)
  unfolding b58encode_check leading_ones symbol big_onto
  b58encode_check-three h160 digest h size =
      let check = take 4 (sha256 (sha256 (5 ∷ h160))) in
      let bs = h160 ++ check in
      let (check_bytes, four) = checksum (5 ∷ h160) digest in
      let five : IsByte 5 = omega arith in
      let bytes : IsBytes (5 ∷ bs) = (five, All-append IsByte h160 check h check_bytes) in
      let count : length bs ≡ 24 = omega (arith, length-append h160 check, size, four) in
      let power = ap (λ (k : ℕ). 256 ^ k) count in
      base58_chars-first (2 * length (5 ∷ bs)) 2 33 (big_onto 5 bs) [] (omega arith) (omega arith)
        (omega (arith, big_onto_bound 0 (5 ∷ bs) bytes, power_bound (length (5 ∷ bs))))
        (omega (arith, power, big_onto_least 5 bs))
        (omega (arith, power, big_onto_bound 5 bs bytes.1))
