-- ===== src/Bytes/Little.antt =====
-- `int.from_bytes(_, "little")` and `int.to_bytes(_, "little")`, unsigned and signed.
use native.Mathlib.Nat.{pow-suc}
use sara_pro.Prelude.{
  ℕ, zero, suc, ◌+◌, ◌-◌, ◌*◌, ◌/◌, ◌%◌, ◌^◌, ◌<◌, ◌≡◌, refl, ap₂, List, [], ◌∷◌, Option, none,
  some, arith, length, All, All-left, take, drop, take-append-drop, length-take, ltb, lt→ltb,
  if◌then◌else◌, sym, subst, ◌≤◌,
}
use sara_pro.Prelude.Int.{ℤ, pos, negsuc}

abbrev pub Bytes : Type 0
Bytes = List ℕ

abbrev pub IsByte : ℕ → Type 0
IsByte b = b < 256

abbrev pub IsBytes : Bytes → Type 0
IsBytes = All IsByte

-- `int.from_bytes(bs, "little")`
unfoldable pub le_value : Bytes → ℕ
le_value [] = 0
le_value (b ∷ bs) = b + 256 * le_value bs

unfoldable pub le_bytes : ℕ → ℕ → Bytes
le_bytes zero v = []
le_bytes (suc w) v = (v % 256) ∷ le_bytes w (v / 256)

-- `v.to_bytes(w, "little")`; `none` is an OverflowError
unfoldable pub to_bytes : ℕ → ℕ → Option Bytes
to_bytes w v = if ltb v (256 ^ w) then some (le_bytes w v) else none

-- `int.from_bytes(bs, "little", signed=True)` of the value `v` of `w` bytes
unfoldable pub signed_value : ℕ → ℕ → ℤ
signed_value w v = if ltb (2 * v) (256 ^ w) then pos v else negsuc (256 ^ w - 1 - v)

-- the two's complement of a signed integer on `w` bytes; `none` is an OverflowError
unfoldable pub to_unsigned : ℕ → ℤ → Option ℕ
to_unsigned w (pos n) = if ltb (2 * n) (256 ^ w) then some n else none
to_unsigned w (negsuc n) = if ltb (2 * n + 1) (256 ^ w) then some (256 ^ w - 1 - n) else none

pub length-le_bytes : (w v : ℕ) → length (le_bytes w v) ≡ w
unfolding le_bytes
length-le_bytes zero v = refl
length-le_bytes (suc w) v = omega (arith, length-le_bytes w (v / 256))

pub le_value-le_bytes : (w v : ℕ) → v < 256 ^ w → le_value (le_bytes w v) ≡ v
unfolding le_value le_bytes
le_value-le_bytes zero v h = omega arith
le_value-le_bytes (suc w) v h =
    omega (arith, le_value-le_bytes w (v / 256) (omega (arith, pow-suc 256 w)))

pub le_bytes-le_value : (bs : Bytes) → IsBytes bs → le_bytes (length bs) (le_value bs) ≡ bs
unfolding le_value le_bytes
le_bytes-le_value [] h = refl
le_bytes-le_value (b ∷ bs) (hb, h) =
    let low : (b + 256 * le_value bs) % 256 ≡ b = omega arith in
    let high : (b + 256 * le_value bs) / 256 ≡ le_value bs = omega arith in
    rw (low, high) (ap₂ ◌∷◌ refl (le_bytes-le_value bs h))

pub le_value_bound : (bs : Bytes) → IsBytes bs → le_value bs < 256 ^ length bs
unfolding le_value
le_value_bound [] h = omega arith
le_value_bound (b ∷ bs) (hb, h) = omega (arith, le_value_bound bs h, pow-suc 256 (length bs))

-- `to_bytes` undoes `from_bytes` on the first `w` bytes of a text that has them.
pub to_bytes-take :
    (w : ℕ) (xs : Bytes)
    → IsBytes xs
    → w ≤ length xs
    → (to_bytes w (le_value (take w xs)) ≡ some (take w xs)) × (le_value (take w xs) < 256 ^ w)
unfolding to_bytes
to_bytes-take w xs bytes enough =
    let front : IsBytes (take w xs) =
      All-left IsByte (take w xs) (drop w xs) (subst IsBytes (sym (take-append-drop w xs)) bytes) in
    let n = length-take w xs enough in
    let bound : le_value (take w xs) < 256 ^ w =
      subst (λ (k : ℕ). le_value (take w xs) < 256 ^ k) n (le_value_bound (take w xs) front) in
    let back : le_bytes w (le_value (take w xs)) ≡ take w xs =
      subst (λ (k : ℕ). le_bytes k (le_value (take w xs)) ≡ take w xs) n
        (le_bytes-le_value (take w xs) front) in
    (rw (lt→ltb _ _ bound, back), bound)

to_bytes_inv : (w v : ℕ) {bs : Bytes} → to_bytes w v ≡ some bs → (v < 256 ^ w) × (bs ≡ le_bytes w v)
unfolding to_bytes
to_bytes_inv w v h = ground arith

-- What `to_bytes` returns has the width asked for and reads back as the value.
pub to_bytes-eq-some :
    (w v : ℕ) {bs : Bytes} → to_bytes w v ≡ some bs → (length bs ≡ w) × (le_value bs ≡ v)
to_bytes-eq-some w v h =
    let (bound, e) = to_bytes_inv w v h in rw e (length-le_bytes w v, le_value-le_bytes w v bound)

pub to_bytes-le_value :
    (w : ℕ) (bs : Bytes) → IsBytes bs → length bs ≡ w → to_bytes w (le_value bs) ≡ some bs
unfolding to_bytes
to_bytes-le_value w bs bytes n =
    rw (← n, lt→ltb _ _ (le_value_bound bs bytes), le_bytes-le_value bs bytes)

-- The signed reading of an unsigned value and its two's complement undo one another.
pub to_unsigned-signed_value : (v : ℕ) → v < 256 ^ 4 → to_unsigned 4 (signed_value 4 v) ≡ some v
unfolding to_unsigned signed_value
to_unsigned-signed_value v h = ground arith

pub signed_value-to_unsigned :
    (z : ℤ) {v : ℕ} → to_unsigned 4 z ≡ some v → (signed_value 4 v ≡ z) × (v < 256 ^ 4)
unfolding to_unsigned signed_value
signed_value-to_unsigned (pos n) h = ground arith
signed_value-to_unsigned (negsuc n) h = ground arith
