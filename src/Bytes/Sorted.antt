-- ===== src/Bytes/Sorted.antt =====
-- `sorted` of texts, the sorted elements of a set, and the difference of sets.
use sara_pro.Prelude.{
  ◌≡◌, refl, List, [], ◌∷◌, true, false, arith, All, if◌then◌else◌, Bool-cases, inl, inr,
}
use sara_pro.Bytes.Hex.{Text}
use sara_pro.Bytes.Strings.{text_eq, text_in, text_ltb, is_empty}

-- `sorted(l)`
unfoldable pub insert_text : Text → List Text → List Text
insert_text t [] = t ∷ []
insert_text t (s ∷ l) = let rest = insert_text t l in if text_ltb s t then s ∷ rest else t ∷ s ∷ l

unfoldable pub sort_texts : List Text → List Text
sort_texts [] = []
sort_texts (t ∷ l) = insert_text t (sort_texts l)

-- The sorted elements of a set.
unfoldable pub insert_sorted : Text → List Text → List Text
insert_sorted t [] = t ∷ []
insert_sorted t (s ∷ l) =
    let rest = insert_sorted t l in
    if text_eq t s then s ∷ l else if text_ltb t s then t ∷ s ∷ l else s ∷ rest

unfoldable pub sorted_set : List Text → List Text
sorted_set [] = []
sorted_set (t ∷ l) = insert_sorted t (sorted_set l)

-- `[r for r in required if r not in roles]`
unfoldable pub without : List Text → List Text → List Text
without [] roles = []
without (r ∷ l) roles = let rest = without l roles in if text_in r roles then rest else r ∷ rest

pub insert_sorted-nonempty : (t : Text) (l : List Text) → is_empty (insert_sorted t l) ≡ false
unfolding insert_sorted
insert_sorted-nonempty t [] = refl
insert_sorted-nonempty t (s ∷ l) = ground arith

pub sorted_set-empty : (l : List Text) → is_empty (sorted_set l) ≡ true → l ≡ []
unfolding sorted_set
sorted_set-empty [] h = refl
sorted_set-empty (t ∷ l) h = absurd (cc (h, insert_sorted-nonempty t (sorted_set l)))

pub without-empty :
    (required roles : List Text)
    → without required roles ≡ []
    → All (λ r. text_in r roles ≡ true) required
unfolding without
without-empty [] roles h = tt
without-empty (r ∷ l) roles h = elim (Bool-cases (text_in r roles)) [
  | inl held ↦ (held, without-empty l roles (rw held at h))
  | inr missing ↦ absurd (cc (rw missing at h))
]
