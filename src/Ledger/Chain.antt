-- ===== src/Ledger/Chain.antt =====
-- The loop that two of the ledgers run over their rows: each row carries its number, the hash of the
-- row before it and its own hash, which is of the row without that hash. `rows` are the rows that the
-- loop has passed, so that their number is the loop's counter.
use sara_pro.Prelude.{
  negated, ◌+◌, ◌≡◌, refl, sym, ap, subst, List, [], ◌∷◌, ◌++◌, Option, none, some, Bool, true,
  ◌||◌, not, length, ◌==◌, ==_iff, Bool-cases, inl, inr, Result, ok, ◌>>◌, raise_if, fold_result,
  fold_result_inv, >>-eq-ok, ok-injective,
}
use sara_pro.Bytes.{Text, text, text_eq, text_eq→eq, text_eq_refl}
use sara_pro.Ledger.Lines.{
  Json, null, num, str, other, Object, get, remove, is_num, is_str, last, last-append, genesis,
  get-append, get-append_old,
}

pub record Chain : Type 0 where
  pub rows : List Object
  pub prev : Text

abbrev pub no_rows : Chain
no_rows = record { rows = []; prev = genesis }

-- The names of the two hashes in a row, the digest, and the two errors.
pub record Linking (E : Type 0) : Type 0 where
  pub hash_key : Text
  pub previous_key : Text
  pub digest : Object → Text
  pub broken : E
  pub mismatch : E

-- Whether the row is out of its place.
abbrev pub misplaced : {E : Type 0} → Linking E → Chain → Object → Bool
misplaced l s row =
    not (is_num (get (text "sequence") row) (length s.rows + 1))
    || not (is_str (get l.previous_key row) s.prev)

module _ {E : Type 0} (l : Linking E) where
  unfoldable pub link : Chain → Object → Result E Chain
  link s row = do
    raise_if (misplaced l s row) l.broken
    let body = remove l.hash_key row
    raise_if (not (is_str (get l.hash_key row) (l.digest body))) l.mismatch
    ok (record { rows = s.rows ++ row ∷ []; prev = l.digest body })

  -- What the loop's `prev` says of the last row.
  abbrev pub Tip : Chain → Option Object → Type 0
  Tip s none = s.prev ≡ genesis
  Tip s (some row) = get l.hash_key row ≡ some (str s.prev)

  pub is_str-true : (o : Option Json) (t : Text) → is_str o t ≡ true → o ≡ some (str t)
  is_str-true none t h = absurd (cc h)
  is_str-true (some null) t h = absurd (cc h)
  is_str-true (some (num n)) t h = absurd (cc h)
  is_str-true (some (other u)) t h = absurd (cc h)
  is_str-true (some (str s)) t h = ap (λ u. some (str u)) (text_eq→eq s t h)

  link-Tip : (s : Chain) (row : Object) {s' : Chain} → link s row ≡ ok s' → Tip s' (last s'.rows)
  unfolding link
  link-Tip s row h =
      let (_, h1) = >>-eq-ok (misplaced l s row) _ _ h in
      let (m, h2) =
        >>-eq-ok (not (is_str (get l.hash_key row) (l.digest (remove l.hash_key row)))) _ _ h1 in
      subst (λ (t : Chain). Tip t (last t.rows)) (ok-injective h2)
        (subst
          (λ (o : Option Object).
            Tip (record { rows = s.rows ++ row ∷ []; prev = l.digest (remove l.hash_key row) }) o)
          (sym (last-append s.rows row))
          (is_str-true (get l.hash_key row) (l.digest (remove l.hash_key row)) (negated _ m)))

  pub fold-Tip :
      (rows : List Object) {s : Chain} → fold_result link no_rows rows ≡ ok s → Tip s (last s.rows)
  unfolding last
  fold-Tip rows {s} h =
      fold_result_inv link (λ t. Tip t (last t.rows)) (λ t x t' _ e. link-Tip t x e) no_rows rows s
        refl h

  remove-append :
      (base : Object) (v : Json)
      → get l.hash_key base ≡ none
      → remove l.hash_key (base ++ (l.hash_key, v) ∷ []) ≡ base
  unfolding get remove
  remove-append [] v h = rw (text_eq_refl l.hash_key)
  remove-append ((k, w) ∷ base) v h = elim (Bool-cases (text_eq k l.hash_key)) [
    | inl same ↦ absurd (cc (rw same at h))
    | inr different ↦ rw (different, remove-append base v (rw different at h))
  ]

  -- The loop passes a row that was built on the chain.
  pub link-built :
      (s : Chain) (base : Object)
      → get l.hash_key base ≡ none
      → get (text "sequence") base ≡ some (num (length s.rows + 1))
      → get l.previous_key base ≡ some (str s.prev)
      → let row = base ++ (l.hash_key, str (l.digest base)) ∷ [] in
        link s row ≡ ok (record { rows = s.rows ++ row ∷ []; prev = l.digest base })
  unfolding link
  link-built s base h n p =
      let here : ((length s.rows + 1) == (length s.rows + 1)) ≡ true = (==_iff _ _).1 refl in
      rw (
        get-append_old (text "sequence") base l.hash_key (str (l.digest base))
            (num (length s.rows + 1)) n,
        get-append_old l.previous_key base l.hash_key (str (l.digest base)) (str s.prev) p,
        here,
        text_eq_refl s.prev,
        remove-append base (str (l.digest base)) h,
        get-append l.hash_key base l.hash_key (str (l.digest base)) h,
        text_eq_refl l.hash_key,
        text_eq_refl (l.digest base),
      )
