-- ===== src/BitcoinTx/CompactSize/Laws.antt =====
-- `read_compact_size` against `encode_compact_size`, and `_read_slice`.
use sara_pro.Prelude.{
  ℕ, ◌^◌, ◌≤◌, ◌<◌, ◌≡◌, refl, ap, sym, inl, inr, [], ◌∷◌, ◌++◌, some, true, false, arith, length,
  take, drop, take-append-drop, take-append_length, drop-append_length, length-append, ltb, leb,
  le→ltb_false, ltb_false→le, Bool-cases, ok, >>-eq-ok, or_raise, ok_pair-injective, ok-injective,
  >>=-eq-ok, or_raise-eq-ok, length-take, ◌⊎◌, subst,
}
use sara_pro.Bytes.{Bytes, IsBytes, le_value, to_bytes, to_bytes-take, to_bytes-eq-some}
use sara_pro.BitcoinTx.Types.{integer_overflow}
use sara_pro.BitcoinTx.CompactSize.{
  read_payload, read_compact_size, encode_compact_size, compact_width, is_non_minimal, prefixed,
  read_slice,
}

-- What a payload that is read has passed.
payload_inv :
    (width first : ℕ) (xs : Bytes) {v : ℕ} {ys : Bytes}
    → read_payload width first xs ≡ ok (v, ys)
    → (width ≤ length xs)
      × (v ≡ le_value (take width xs))
      × (is_non_minimal first v ≡ false)
      × (ys ≡ drop width xs)
unfolding read_payload
payload_inv width first xs h =
    let (long, h) = >>-eq-ok (ltb (length xs) width) _ _ h in
    let (minimal, h) = >>-eq-ok (is_non_minimal first (le_value (take width xs))) _ _ h in
    let (ev, ey) = ok_pair-injective h in (ltb_false→le _ _ long, sym ev, rw (← ev) minimal, sym ey)

encode_two :
    (v : ℕ) {bs : Bytes}
    → to_bytes 2 v ≡ some bs
    → v < 65536
    → ltb v 253 ≡ false
    → encode_compact_size v ≡ ok (253 ∷ bs)
unfolding encode_compact_size
encode_two v e small big = ground arith

encode_four :
    (v : ℕ) {bs : Bytes}
    → to_bytes 4 v ≡ some bs
    → v < 4294967296
    → leb v 0xFFFF ≡ false
    → encode_compact_size v ≡ ok (254 ∷ bs)
unfolding encode_compact_size
encode_four v e small big = ground arith

encode_eight :
    (v : ℕ) {bs : Bytes}
    → to_bytes 8 v ≡ some bs
    → v < 256 ^ 8
    → leb v 0xFFFFFFFF ≡ false
    → encode_compact_size v ≡ ok (255 ∷ bs)
unfolding encode_compact_size
encode_eight v e small big = ground arith

-- The encoding of a value that a payload holds is the first byte and that payload.
abbrev Payload : ℕ → ℕ → Bytes → ℕ → Bytes → Type 0
Payload width first xs v ys =
    (encode_compact_size v ≡ ok (first ∷ take width xs)) × (xs ≡ take width xs ++ ys)

module _ (xs : Bytes) {v : ℕ} {ys : Bytes} (bytes : IsBytes xs) where
  Payload-two : read_payload 2 253 xs ≡ ok (v, ys) → Payload 2 253 xs v ys
  Payload-two h =
      let (long, ev, minimal, ey) = payload_inv 2 253 xs h in
      let (stored, bound) = to_bytes-take 2 xs bytes long in
      (encode_two v (rw ev stored) (rw ev bound) (ground arith), rw (ey, take-append-drop 2 xs))

  Payload-four : read_payload 4 254 xs ≡ ok (v, ys) → Payload 4 254 xs v ys
  Payload-four h =
      let (long, ev, minimal, ey) = payload_inv 4 254 xs h in
      let (stored, bound) = to_bytes-take 4 xs bytes long in
      (encode_four v (rw ev stored) (rw ev bound) (ground arith), rw (ey, take-append-drop 4 xs))

  Payload-eight : read_payload 8 255 xs ≡ ok (v, ys) → Payload 8 255 xs v ys
  Payload-eight h =
      let (long, ev, minimal, ey) = payload_inv 8 255 xs h in
      let (stored, bound) = to_bytes-take 8 xs bytes long in
      (encode_eight v (rw ev stored) (rw ev bound) (ground arith), rw (ey, take-append-drop 8 xs))

announced :
    (first : ℕ)
    → first < 256
    → ltb first 253 ≡ false
    → (first ≡ 253) ⊎ ((first ≡ 254) ⊎ (first ≡ 255))
announced first byte big = ground arith

Payload-encode :
    (first : ℕ) (xs : Bytes) {v : ℕ} {ys : Bytes}
    → first < 256
    → ltb first 253 ≡ false
    → IsBytes xs
    → read_payload (compact_width first) first xs ≡ ok (v, ys)
    → Payload (compact_width first) first xs v ys
Payload-encode first xs byte big bytes h = elim (announced first byte big) [
  | inl e ↦ rw e (Payload-two xs bytes (rw e at h))
  | inr (inl e) ↦ rw e (Payload-four xs bytes (rw e at h))
  | inr (inr e) ↦ rw e (Payload-eight xs bytes (rw e at h))
]

encode_small : (v : ℕ) → ltb v 253 ≡ true → encode_compact_size v ≡ ok (v ∷ [])
unfolding encode_compact_size
encode_small v h = rw h

-- A CompactSize that is read is spelled as `encode_compact_size` spells its value.
pub read_compact_size_sound :
    (xs : Bytes) {v : ℕ} {ys : Bytes}
    → IsBytes xs
    → read_compact_size xs ≡ ok (v, ys)
    → (bs : Bytes) × (encode_compact_size v ≡ ok bs) × (xs ≡ bs ++ ys)
unfolding read_compact_size
read_compact_size_sound [] bytes h = cc
read_compact_size_sound (first ∷ xs) (byte, bytes) h = elim (Bool-cases (ltb first 253)) [
  | inl small ↦
      let (ev, ey) = ok_pair-injective (rw small at h) in
      (first ∷ [], rw (← ev) (encode_small first small), rw ey)
  | inr big ↦
      let (encoded, e) = Payload-encode first xs byte big bytes (rw big at h) in
      (first ∷ take (compact_width first) xs, encoded, ap (λ t. first ∷ t) e)
]

-- The other way round.
read_payload-append :
    (width first v : ℕ) (t ys : Bytes)
    → to_bytes width v ≡ some t
    → is_non_minimal first v ≡ false
    → read_payload width first (t ++ ys) ≡ ok (v, ys)
unfolding read_payload
read_payload-append width first v t ys stored minimal =
    let (n, e) = to_bytes-eq-some width v stored in
    let long : ltb (length (t ++ ys)) width ≡ false =
      le→ltb_false _ _ (omega (arith, length-append t ys)) in
    let front : take width (t ++ ys) ≡ t =
      subst (λ (k : ℕ). take k (t ++ ys) ≡ t) n (take-append_length t ys) in
    let back : drop width (t ++ ys) ≡ ys =
      subst (λ (k : ℕ). drop k (t ++ ys) ≡ ys) n (drop-append_length t ys) in
    rw (long, front, back, e, minimal)

prefixed_inv :
    (first width v : ℕ) {bs : Bytes}
    → prefixed first width v ≡ ok bs
    → (t : Bytes) × (to_bytes width v ≡ some t) × (bs ≡ first ∷ t)
prefixed_inv first width v h =
    let (t, e, h) = >>=-eq-ok (or_raise (to_bytes width v) integer_overflow) _ h in
    (t, or_raise-eq-ok _ _ e, sym (ok-injective h))

read_prefixed :
    (first v : ℕ) {bs : Bytes} (ys : Bytes)
    → ltb first 253 ≡ false
    → is_non_minimal first v ≡ false
    → prefixed first (compact_width first) v ≡ ok bs
    → read_compact_size (bs ++ ys) ≡ ok (v, ys)
unfolding read_compact_size
read_prefixed first v ys big minimal h =
    let (t, stored, e) = prefixed_inv first (compact_width first) v h in
    rw (e, big) (read_payload-append (compact_width first) first v t ys stored minimal)

-- The encoding of a value is read back, whatever follows it.
pub read_compact_size-append :
    (v : ℕ) {bs : Bytes} (ys : Bytes)
    → encode_compact_size v ≡ ok bs
    → read_compact_size (bs ++ ys) ≡ ok (v, ys)
unfolding encode_compact_size
read_compact_size-append v ys h = elim (Bool-cases (ltb v 253)) [
  | inl small ↦ rw (sym (ok-injective (rw small at h))) (unfold read_compact_size in rw small)
  | inr big ↦ elim (Bool-cases (leb v 0xFFFF)) [
    | inl two ↦ read_prefixed 253 v ys refl (rw big) (rw (big, two) at h)
    | inr more ↦ elim (Bool-cases (leb v 0xFFFFFFFF)) [
      | inl four ↦ read_prefixed 254 v ys refl (rw more) (rw (big, more, four) at h)
      | inr most ↦ elim (Bool-cases (leb v 0xFFFFFFFFFFFFFFFF)) [
        | inl eight ↦ read_prefixed 255 v ys refl (rw most) (rw (big, more, most, eight) at h)
        | inr none_left ↦ absurd (cc (rw (big, more, most, none_left) at h))
      ]
    ]
  ]
]

pub read_slice_sound :
    (xs : Bytes) (n : ℕ) {a ys : Bytes}
    → read_slice xs n ≡ ok (a, ys)
    → (xs ≡ a ++ ys) × (length a ≡ n)
unfolding read_slice
read_slice_sound xs n h =
    let (long, h) = >>-eq-ok (ltb (length xs) n) _ _ h in
    let (ea, ey) = ok_pair-injective h in
    (rw (← ea, ← ey, take-append-drop n xs), rw (← ea) (length-take n xs (ltb_false→le _ _ long)))

pub read_slice-append : (a ys : Bytes) → read_slice (a ++ ys) (length a) ≡ ok (a, ys)
unfolding read_slice
read_slice-append a ys =
    let long : ltb (length (a ++ ys)) (length a) ≡ false =
      le→ltb_false _ _ (omega (arith, length-append a ys)) in
    rw (long, take-append_length a ys, drop-append_length a ys)
