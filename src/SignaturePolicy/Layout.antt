-- ===== src/SignaturePolicy/Layout.antt =====
-- The layout of strict DER: the bytes of a signature, from the places where the parser looks.
use sara_pro.Prelude.{
  ℕ, zero, suc, ◌+◌, ◌-◌, ◌≤◌, ◌≡◌, refl, sym, ap, ap₂, ◌∙◌, ◌⊎◌, append-nil, Bool, true, false, [],
  ◌∷◌, ◌++◌, ◌&&◌, not, arith, length, length-take, take, take-append-drop, drop, ◌==◌, ok,
  ok-injective, raise_if, >>-eq-ok, ◌/◌, ◌%◌,
}
use sara_pro.Bytes.{Bytes}
use sara_pro.SignaturePolicy.{SignatureError, byte_at, check_integer, high_bit}

-- An integer in DER: not empty, not negative, and with a first byte of 0 only where the next byte would
-- make it negative.
abbrev pub IsMinimal : Bytes → Type 0
IsMinimal [] = ⊥
IsMinimal (b ∷ []) = (b / 128) % 2 ≡ 0
IsMinimal (b ∷ c ∷ s) = ((b / 128) % 2 ≡ 0) × ((1 ≤ b) ⊎ ((c / 128) % 2 ≡ 1))

positive : (b : ℕ) → high_bit b ≡ false → (b / 128) % 2 ≡ 0
positive b h = ground arith

unraised : (t : Bool) (e : SignatureError) {u : Unit {0}} → raise_if t e ≡ ok u → t ≡ false
unraised true e h = absurd (cc h)
unraised false e h = refl

needed : (b c : ℕ) → (b == 0 && not (high_bit c)) ≡ false → (1 ≤ b) ⊎ ((c / 128) % 2 ≡ 1)
needed b c h = ground arith

pub check_integer-IsMinimal : (s : Bytes) {u : Unit {0}} → check_integer s ≡ ok u → IsMinimal s
unfolding check_integer
check_integer-IsMinimal [] h = absurd (cc h)
check_integer-IsMinimal (b ∷ []) h = positive b (>>-eq-ok (high_bit b) _ _ h).0
check_integer-IsMinimal (b ∷ c ∷ s) h =
    let (first, second) = >>-eq-ok (high_bit b) _ _ h in
    (positive b first, needed b c (unraised (b == 0 && not (high_bit c)) _ second))

drop-byte_at : (i : ℕ) (s : Bytes) {b : ℕ} → byte_at i s ≡ ok b → drop i s ≡ b ∷ drop (suc i) s
unfolding byte_at
drop-byte_at i [] h = absurd (cc h)
drop-byte_at zero (c ∷ s) h = ap (λ (b : ℕ). b ∷ s) (ok-injective h)
drop-byte_at (suc i) (c ∷ s) h = drop-byte_at i s h

drop-nil : (n : ℕ) → drop {A = ℕ} n [] ≡ []
drop-nil zero = refl
drop-nil (suc n) = refl

drop-drop : (n m : ℕ) (s : Bytes) → drop m (drop n s) ≡ drop (n + m) s
drop-drop zero m s = ap (λ (k : ℕ). drop k s) (plain m)
  where
    plain : (m : ℕ) → m ≡ zero + m
    plain m = omega arith
drop-drop (suc n) m [] = drop-nil m ∙ sym (drop-nil (suc n + m))
drop-drop (suc n) m (b ∷ s) =
    let next : suc (n + m) ≡ suc n + m = omega arith in
    drop-drop n m s ∙ ap (λ (k : ℕ). drop k (b ∷ s)) next

drop_all : (n : ℕ) (s : Bytes) → length s ≤ n → drop n s ≡ []
drop_all zero [] h = refl
drop_all zero (b ∷ s) h = absurd (omega (arith, h))
drop_all (suc n) [] h = refl
drop_all (suc n) (b ∷ s) h = drop_all n s (omega (arith, h))

length-drop_lem : (n : ℕ) (s : Bytes) → length (drop n s) ≡ length s - n
length-drop_lem zero s = omega arith
length-drop_lem (suc n) [] = omega arith
length-drop_lem (suc n) (b ∷ s) = omega (arith, length-drop_lem n s)

take_all : (n : ℕ) (s : Bytes) → length s ≤ n → take n s ≡ s
take_all n s h =
    sym (append-nil (take n s))
    ∙ ap (λ l. take n s ++ l) (sym (drop_all n s h))
    ∙ take-append-drop n s

-- The parts of strict DER, at their places.
pub laid_out :
    (der : Bytes) {tag total r_tag len_r s_tag len_s : ℕ}
    → byte_at 0 der ≡ ok tag
    → byte_at 1 der ≡ ok total
    → byte_at 2 der ≡ ok r_tag
    → byte_at 3 der ≡ ok len_r
    → byte_at (4 + len_r) der ≡ ok s_tag
    → byte_at (4 + len_r + 1) der ≡ ok len_s
    → der
      ≡ tag
        ∷ total
        ∷ r_tag
        ∷ len_r
        ∷ (take len_r (drop 4 der) ++ s_tag ∷ len_s ∷ drop (4 + len_r + 2) der)
laid_out der {tag} {total} {r_tag} {len_r} {s_tag} {len_s} a b c d e f =
    let one : suc (4 + len_r) ≡ 4 + len_r + 1 = omega arith in
    let two : suc (4 + len_r + 1) ≡ 4 + len_r + 2 = omega arith in
    let front : der ≡ tag ∷ total ∷ r_tag ∷ len_r ∷ drop 4 der =
      drop-byte_at 0 der a
      ∙ ap (λ l. tag ∷ l)
          (drop-byte_at 1 der b
            ∙ ap (λ l. total ∷ l)
                (drop-byte_at 2 der c ∙ ap (λ l. r_tag ∷ l) (drop-byte_at 3 der d))) in
    let behind : drop len_r (drop 4 der) ≡ s_tag ∷ len_s ∷ drop (4 + len_r + 2) der =
      drop-drop 4 len_r der
      ∙ drop-byte_at (4 + len_r) der e
      ∙ ap (λ l. s_tag ∷ l)
          (ap (λ (k : ℕ). drop k der) one
            ∙ drop-byte_at (4 + len_r + 1) der f
            ∙ ap (λ (k : ℕ). len_s ∷ drop k der) two) in
    front
    ∙ ap (λ l. tag ∷ total ∷ r_tag ∷ len_r ∷ l)
        (sym (take-append-drop len_r (drop 4 der)) ∙ ap (λ l. take len_r (drop 4 der) ++ l) behind)

-- Strict DER spelled out, with the tags and lengths that are checked.
pub strict :
    (der : Bytes) (len_r len_s : ℕ) {tag total r_tag s_tag : ℕ}
    → der
      ≡ tag
        ∷ total
        ∷ r_tag
        ∷ len_r
        ∷ (take len_r (drop 4 der) ++ s_tag ∷ len_s ∷ drop (4 + len_r + 2) der)
    → tag ≡ 48
    → total ≡ length der - 2
    → r_tag ≡ 2
    → s_tag ≡ 2
    → 4 + len_r + 2 + len_s ≡ length der
    → (let r_bytes = take len_r (drop 4 der) in
        let s_bytes = take len_s (drop (4 + len_r + 2) der) in
        der
        ≡ 48
          ∷ (4 + length r_bytes + length s_bytes)
          ∷ 2
          ∷ length r_bytes
          ∷ (r_bytes ++ 2 ∷ length s_bytes ∷ s_bytes))
strict der len_r len_s {tag} {total} {r_tag} {s_tag} laid a b c d whole =
    let behind_r = length-drop_lem 4 der in
    let behind_s = length-drop_lem (4 + len_r + 2) der in
    let r_size : length (take len_r (drop 4 der)) ≡ len_r =
      length-take len_r (drop 4 der) (omega (arith, behind_r, whole)) in
    let s_all : take len_s (drop (4 + len_r + 2) der) ≡ drop (4 + len_r + 2) der =
      take_all len_s (drop (4 + len_r + 2) der) (omega (arith, behind_s, whole)) in
    let s_size : length (take len_s (drop (4 + len_r + 2) der)) ≡ len_s =
      omega (arith, ap length s_all, behind_s, whole) in
    let sum : total
        ≡ 4 + length (take len_r (drop 4 der)) + length (take len_s (drop (4 + len_r + 2) der)) =
      omega (arith, b, whole, r_size, s_size) in
    laid
    ∙ cons a (
        cons sum (
          cons c (
            cons (sym r_size)
              (ap (λ l. take len_r (drop 4 der) ++ l) (cons d (cons (sym s_size) (sym s_all)))))))
  where
    cons : {x y : ℕ} {l m : Bytes} → x ≡ y → l ≡ m → ◌≡◌ {A = Bytes} (x ∷ l) (y ∷ m)
    cons e g = ap₂ (λ (x : ℕ) l. x ∷ l) e g

pub with_last :
    (s : Bytes) {b : ℕ} → byte_at (length s - 1) s ≡ ok b → s ≡ take (length s - 1) s ++ b ∷ []
with_last s {b} h =
    let n = length s - 1 in
    sym (take-append-drop n s)
    ∙ ap (λ l. take n s ++ l)
        (drop-byte_at n s h ∙ ap (λ l. b ∷ l) (drop_all (suc n) s (omega arith)))
