-- ===== src/Bytes/Dicts.antt =====
-- A dict as its entries: lookup, and equality, which does not see the order of the entries.
use sara_pro.Prelude.{
  ◌≡◌, refl, sym, ◌∙◌, subst, List, [], ◌∷◌, Option, none, some, Bool, true, false, ◌&&◌,
  if◌then◌else◌, Bool-cases, Option-cases, both_true, inl, inr,
}
use sara_pro.Bytes.Hex.{Text}
use sara_pro.Bytes.Strings.{text_eq, text_eq→eq}

abbrev pub Dict : Type 0 → Type 0
Dict A = List (Text × A)

-- `d.get(k)`
unfoldable pub get_item : {A : Type 0} → Text → Dict A → Option A
get_item k [] = none
get_item k ((j, v) ∷ d) = if text_eq j k then some v else get_item k d

module _ {A : Type 0} (eq : A → A → Bool) where
  unfoldable pub option_eq : Option A → Option A → Bool
  option_eq none none = true
  option_eq (some a) (some b) = eq a b
  option_eq _ _ = false

  -- The two dicts have the same value, or both none, at each key of `l`.
  unfoldable pub agree : Dict A → Dict A → Dict A → Bool
  agree d e [] = true
  agree d e ((k, _) ∷ l) = option_eq (get_item k d) (get_item k e) && agree d e l

  -- `d == e`
  unfoldable pub dict_eq : Dict A → Dict A → Bool
  dict_eq d e = agree d e d && agree d e e

  module _ (same : (a b : A) → eq a b ≡ true → a ≡ b) where
    pub option_eq→eq : (o p : Option A) → option_eq o p ≡ true → o ≡ p
    unfolding option_eq
    option_eq→eq none none h = refl
    option_eq→eq (some a) (some b) h = rw (same a b h)
    option_eq→eq none (some b) h = absurd (cc h)
    option_eq→eq (some a) none h = absurd (cc h)

    agree_at :
        (d e l : Dict A) (k : Text) {a : A}
        → get_item k l ≡ some a
        → agree d e l ≡ true
        → get_item k d ≡ get_item k e
    unfolding agree get_item
    agree_at d e [] k h g = absurd (cc h)
    agree_at d e ((j, v) ∷ l) k h g =
        let (g1, g2) = both_true (option_eq (get_item j d) (get_item j e)) (agree d e l) g in
        elim (Bool-cases (text_eq j k)) [
          | inl at ↦
              subst (λ (t : Text). get_item t d ≡ get_item t e) (text_eq→eq j k at)
                (option_eq→eq _ _ g1)
          | inr other ↦ agree_at d e l k (rw other at h) g2
        ]

    -- Equal dicts have the same value at every key.
    pub dict_eq→get : (d e : Dict A) → dict_eq d e ≡ true → (k : Text) → get_item k d ≡ get_item k e
    unfolding dict_eq
    dict_eq→get d e h k =
        let (hd, he) = both_true (agree d e d) (agree d e e) h in
        elim (Option-cases (get_item k d)) [
          | inr (a, found) ↦ agree_at d e d k found hd
          | inl missing ↦ elim (Option-cases (get_item k e)) [
            | inr (a, found) ↦ agree_at d e e k found he
            | inl gone ↦ missing ∙ sym gone
          ]
        ]

  module _ (eq_refl : (a : A) → eq a a ≡ true) where
    option_eq_refl : (o : Option A) → option_eq o o ≡ true
    unfolding option_eq
    option_eq_refl none = refl
    option_eq_refl (some a) = eq_refl a

    agree_refl : (d l : Dict A) → agree d d l ≡ true
    unfolding agree
    agree_refl d [] = refl
    agree_refl d ((k, _) ∷ l) = rw (option_eq_refl (get_item k d), agree_refl d l)

    pub dict_eq_refl : (d : Dict A) → dict_eq d d ≡ true
    unfolding dict_eq
    dict_eq_refl d = rw (agree_refl d d)
