-- ===== src/Bytes/Strings.antt =====
-- Text as a list of code points: literals, equality, `in`, `dict.fromkeys`, case and `replace`.
use Prim.Native.Char.{code}
use Prim.Native.String.{String}
use sara_pro.Prelude.{
  ℕ, ◌+◌, ◌-◌, ◌≡◌, refl, sym, subst, All, List, [], ◌∷◌, ◌++◌, Bool, true, false, ◌&&◌, ◌||◌,
  arith, ltb, leb, ◌==◌, if◌then◌else◌, Bool-cases, inl, inr,
}
use sara_pro.Bytes.Hex.{Text}

-- The code points of a literal.
abbrev pub text : String → Text
text String.[] = []
text (String.◌∷◌ c s) = code c ∷ text s

unfoldable pub text_eq : Text → Text → Bool
text_eq [] [] = true
text_eq (a ∷ s) (b ∷ t) = a == b && text_eq s t
text_eq _ _ = false

pub text_eq_refl : (s : Text) → text_eq s s ≡ true
unfolding text_eq
text_eq_refl [] = refl
text_eq_refl (a ∷ s) = ground (arith, text_eq_refl s)

pub text_eq→eq : (s t : Text) → text_eq s t ≡ true → s ≡ t
unfolding text_eq
text_eq→eq [] [] h = refl
text_eq→eq (a ∷ s) (b ∷ t) h = ground (arith, text_eq→eq s t)
text_eq→eq [] (b ∷ t) h = cc
text_eq→eq (a ∷ s) [] h = cc

-- `t in {...}`
unfoldable pub text_in : Text → List Text → Bool
text_in t [] = false
text_in t (s ∷ l) = text_eq t s || text_in t l

-- `tuple(dict.fromkeys(l))`: the first occurrence of each element, in order.
module _ {A : Type 0} (eq : A → A → Bool) where
  unfoldable pub contains : A → List A → Bool
  contains a [] = false
  contains a (b ∷ l) = eq a b || contains a l

  unfoldable pub from_keys_onto : List A → List A → List A
  from_keys_onto seen [] = []
  from_keys_onto seen (a ∷ l) = elim (contains a seen) [
    | true ↦ from_keys_onto seen l
    | false ↦ a ∷ from_keys_onto (a ∷ seen) l
  ]

  unfoldable pub from_keys : List A → List A
  unfolding from_keys_onto
  from_keys l = from_keys_onto [] l

-- Python's Unicode tables outside ASCII, where one character may become several.
pub record CaseTables : Type 0 where
  pub upper_other : ℕ → Text
  pub lower_other : ℕ → Text

module _ (tables : CaseTables) where
  -- `str.upper`
  unfoldable pub upper : Text → Text
  upper [] = []
  upper (c ∷ s) =
      (if ltb c 128
        then (if leb 97 c && leb c 122 then c - 32 else c) ∷ []
        else tables.upper_other c)
      ++ upper s

  -- `str.lower`
  unfoldable pub lower : Text → Text
  lower [] = []
  lower (c ∷ s) =
      (if ltb c 128
        then (if leb 65 c && leb c 90 then c + 32 else c) ∷ []
        else tables.lower_other c)
      ++ lower s

-- `s < t`, by code points
unfoldable pub text_ltb : Text → Text → Bool
text_ltb [] [] = false
text_ltb [] (b ∷ t) = true
text_ltb (a ∷ s) [] = false
text_ltb (a ∷ s) (b ∷ t) = ltb a b || (a == b && text_ltb s t)

pub text_eq_comm : (s t : Text) → text_eq s t ≡ text_eq t s
unfolding text_eq
text_eq_comm [] [] = refl
text_eq_comm [] (b ∷ t) = refl
text_eq_comm (a ∷ s) [] = refl
text_eq_comm (a ∷ s) (b ∷ t) = ground (arith, text_eq_comm s t)

pub text_ltb-asymm : (s t : Text) → text_ltb s t ≡ true → text_ltb t s ≡ false
unfolding text_ltb
text_ltb-asymm [] [] h = refl
text_ltb-asymm [] (b ∷ t) h = refl
text_ltb-asymm (a ∷ s) [] h = cc
text_ltb-asymm (a ∷ s) (b ∷ t) h = ground (arith, text_ltb-asymm s t)

-- `s.replace(c, "")` of a single character
unfoldable pub remove_char : ℕ → Text → Text
remove_char c [] = []
remove_char c (d ∷ s) = let rest = remove_char c s in if d == c then rest else d ∷ rest

-- What holds of each element of a literal set holds of its members.
pub text_in-All :
    (P : Text → Type 0) (t : Text) (l : List Text) → All P l → text_in t l ≡ true → P t
unfolding text_in
text_in-All P t [] h e = absurd (cc e)
text_in-All P t (s ∷ l) (h, hs) e = elim (Bool-cases (text_eq t s)) [
  | inl same ↦ subst P (sym (text_eq→eq t s same)) h
  | inr other ↦ text_in-All P t l hs (rw other at e)
]

-- `bool(s)` of a text or a list
abbrev pub is_empty : {A : Type 0} → List A → Bool
is_empty [] = true
is_empty (_ ∷ _) = false

-- `c in s` of a character
unfoldable pub char_in : ℕ → Text → Bool
char_in c [] = false
char_in c (d ∷ s) = c == d || char_in c s
