-- ===== src/Ledger/Tamper.antt =====
-- What the length and the last hash of a chain commit to.
use sara_pro.Prelude.{
  negated, both_true, ◌+◌, ◌≡◌, refl, sym, ap, ap₂, ◌∙◌, subst, ◌⊎◌, inl, inr, List, [], ◌∷◌,
  reverse, some, Bool, true, false, ◌&&◌, ◌||◌, not, arith, length, length-reverse, ◌==◌, ==_iff,
  Bool-cases, map, ok, >>-eq-ok, ok-injective,
}
use mathlib.Core.List.{reverse-append, reverse-reverse, reverse_aux}
use sara_pro.Bytes.{Text, text, text_eq, text_eq→eq, text_eq_comm}
use sara_pro.Ledger.Lines.{Json, null, num, str, other, Object, get, remove, is_num, is_str}
use sara_pro.Ledger.Chain.{Chain, Linking, misplaced, link, is_str-true}

unfoldable pub json_eq : Json → Json → Bool
json_eq null null = true
json_eq (num m) (num n) = m == n
json_eq (str s) (str t) = text_eq s t
json_eq (other s) (other t) = text_eq s t
json_eq _ _ = false

unfoldable pub object_eq : Object → Object → Bool
object_eq [] [] = true
object_eq ((j, v) ∷ o) ((k, w) ∷ p) = text_eq j k && json_eq v w && object_eq o p
object_eq _ _ = false

json_eq→eq : (v w : Json) → json_eq v w ≡ true → v ≡ w
unfolding json_eq
json_eq→eq null null h = refl
json_eq→eq (num m) (num n) h = ap num ((==_iff m n).0 h)
json_eq→eq (str s) (str t) h = ap str (text_eq→eq s t h)
json_eq→eq (other s) (other t) h = ap other (text_eq→eq s t h)
json_eq→eq null (num n) h = absurd (cc h)
json_eq→eq null (str n) h = absurd (cc h)
json_eq→eq null (other n) h = absurd (cc h)
json_eq→eq (num m) null h = absurd (cc h)
json_eq→eq (num m) (str n) h = absurd (cc h)
json_eq→eq (num m) (other n) h = absurd (cc h)
json_eq→eq (str s) null h = absurd (cc h)
json_eq→eq (str s) (num n) h = absurd (cc h)
json_eq→eq (str s) (other n) h = absurd (cc h)
json_eq→eq (other s) null h = absurd (cc h)
json_eq→eq (other s) (num n) h = absurd (cc h)
json_eq→eq (other s) (str n) h = absurd (cc h)

object_eq→eq : (o p : Object) → object_eq o p ≡ true → o ≡ p
unfolding object_eq
object_eq→eq [] [] h = refl
object_eq→eq [] (_ ∷ _) h = absurd (cc h)
object_eq→eq (_ ∷ _) [] h = absurd (cc h)
object_eq→eq ((j, v) ∷ o) ((k, w) ∷ p) h =
    let (a, h1) = both_true (text_eq j k && json_eq v w) (object_eq o p) h in
    let (b, c) = both_true (text_eq j k) (json_eq v w) a in
    ap₂ (λ e l. e ∷ l) (ap₂ (λ x y. (x, y)) (text_eq→eq j k b) (json_eq→eq v w c))
      (object_eq→eq o p h1)

get-remove_other : (k j : Text) (o : Object) → text_eq j k ≡ false → get j (remove k o) ≡ get j o
unfolding get remove
get-remove_other k j [] h = refl
get-remove_other k j ((i, w) ∷ o) h = elim (Bool-cases (text_eq i k)) [
  | inl same ↦
      let other_key : text_eq i j ≡ false =
        subst (λ (t : Text). text_eq t j ≡ false) (sym (text_eq→eq i k same))
          (text_eq_comm k j ∙ h) in
      rw (same, other_key, get-remove_other k j o h)
  | inr different ↦ ground (arith, different, get-remove_other k j o h)
]

-- Two objects that `object_eq` tells apart and that have the same digest.
abbrev pub Collision : (Object → Text) → Type 0
Collision digest = (o : Object) × (p : Object) × (object_eq o p ≡ false) × (digest o ≡ digest p)

map-reverse_aux :
    {A B : Type 0} (f : A → B) (xs ys : List A)
    → map f (reverse_aux xs ys) ≡ reverse_aux (map f xs) (map f ys)
map-reverse_aux f [] ys = refl
map-reverse_aux f (x ∷ xs) ys = map-reverse_aux f xs (x ∷ ys)

-- Lists whose reversals have the same images have the same images.
unreversed :
    {A B : Type 0} (f : A → B) (xs ys : List A)
    → map f (reverse xs) ≡ map f (reverse ys)
    → map f xs ≡ map f ys
unreversed f xs ys h =
    sym (reverse-reverse (map f xs))
    ∙ ap reverse (sym (map-reverse_aux f xs []) ∙ h ∙ map-reverse_aux f ys [])
    ∙ reverse-reverse (map f ys)

module _ {E : Type 0} (l : Linking E) (keys : text_eq l.previous_key l.hash_key ≡ false) where
  -- The rows from the last to the first, each with the hash of the one before it.
  unfoldable pub Backed : List Object → Text → Type 0
  Backed [] prev = Unit
  Backed (row ∷ older) prev =
      (l.digest (remove l.hash_key row) ≡ prev)
      × ((p : Text) × (get l.previous_key (remove l.hash_key row) ≡ some (str p)) × Backed older p)

  pub link-Backed :
      (s : Chain) (row : Object) {s' : Chain}
      → Backed (reverse s.rows) s.prev
      → link l s row ≡ ok s'
      → Backed (reverse s'.rows) s'.prev
  unfolding link Backed
  link-Backed s row b h =
      let (m, h1) = >>-eq-ok (misplaced l s row) _ _ h in
      let (_, h2) =
        >>-eq-ok (not (is_str (get l.hash_key row) (l.digest (remove l.hash_key row)))) _ _ h1 in
      let found = is_str-true l (get l.previous_key row) s.prev (
        negated _
          (right_false (not (is_num (get (text "sequence") row) (length s.rows + 1))) _ m)) in
      subst (λ (t : Chain). Backed (reverse t.rows) t.prev) (ok-injective h2)
        (subst (λ (r : List Object). Backed r (l.digest (remove l.hash_key row)))
          (sym (reverse-append s.rows (row ∷ [])))
          (refl, (s.prev, get-remove_other l.hash_key l.previous_key row keys ∙ found, b)))
    where
      right_false : (a b : Bool) → (a || b) ≡ false → b ≡ false
      right_false true b h = absurd (cc h)
      right_false false b h = h

  Backed-same :
      (rows rows' : List Object) {prev prev' : Text}
      → Backed rows prev
      → Backed rows' prev'
      → length rows ≡ length rows'
      → prev ≡ prev'
      → (map (remove l.hash_key) rows ≡ map (remove l.hash_key) rows') ⊎ Collision l.digest
  unfolding Backed
  Backed-same [] [] b b' n e = inl refl
  Backed-same [] (_ ∷ _) b b' n e = absurd (omega arith)
  Backed-same (_ ∷ _) [] b b' n e = absurd (omega arith)
  Backed-same (row ∷ rows) (row' ∷ rows') (d, (p, g, b)) (d', (p', g', b')) n e =
      elim (Bool-cases (object_eq (remove l.hash_key row) (remove l.hash_key row'))) [
        | inr different ↦
            inr (remove l.hash_key row, remove l.hash_key row', different, d ∙ e ∙ sym d')
        | inl same ↦
            let bodies = object_eq→eq (remove l.hash_key row) (remove l.hash_key row') same in
            elim (Backed-same rows rows' b b' (omega arith) (cc (g, g', bodies))) [
              | inl rest ↦ inl (ap₂ (λ x y. x ∷ y) bodies rest)
              | inr collision ↦ inr collision
            ]
      ]

  -- The two chains end alike only if they are alike.
  pub chains_same :
      (s t : Chain)
      → Backed (reverse s.rows) s.prev
      → Backed (reverse t.rows) t.prev
      → length s.rows ≡ length t.rows
      → s.prev ≡ t.prev
      → (map (remove l.hash_key) s.rows ≡ map (remove l.hash_key) t.rows) ⊎ Collision l.digest
  chains_same s t b b' n e =
      elim (Backed-same (reverse s.rows) (reverse t.rows) b b'
        (length-reverse s.rows ∙ n ∙ sym (length-reverse t.rows)) e) [
          | inl same ↦ inl (unreversed (remove l.hash_key) s.rows t.rows same)
          | inr collision ↦ inr collision
        ]
