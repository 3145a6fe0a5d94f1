-- ===== src/PolicyEpoch/Tips.antt =====
-- The variables of the loop of `_read` at the last row, and one more line behind a file.
use sara_pro.Prelude.{
  ◌≡◌, refl, sym, ◌∙◌, subst, List, [], ◌∷◌, ◌++◌, Option, none, some, not, Result, ok, err, ◌>>=◌,
  or_raise, fold_result, fold_result-append, fold_result_inv, >>=-eq-ok, >>-eq-ok, ok-injective,
  or_raise-eq-ok,
}
use sara_pro.Bytes.{Text, text, text_eq_refl}
use sara_pro.Ledger.{
  Json, str, Object, Line, malformed, blank, object, get, remove, is_str, genesis, last,
  last-append, get-append, get-append_old, get-remove_self, LedgerFile, absent, unsafe, lines,
  unended, Ended, append_line,
}
use sara_pro.QuantumPolicy.Types.{CryptoPolicyState}
use sara_pro.PolicyEpoch.States.{state_of_json}
use sara_pro.PolicyEpoch.{
  invalid_state, ReadState, start, is_downgrade, breaks_chain, read_object, read_line, read_file,
}

-- What the loop's variables say of the last row.
abbrev pub Tip : ReadState → Option Object → Type 0
Tip s none = (s.prev ≡ genesis) × (s.state ≡ none)
Tip s (some row) =
    (get (text "record_hash") row ≡ some (str s.prev))
    × ((c : CryptoPolicyState) × (state_of_json (get (text "policy_state") row) ≡ some c)
        × (s.state ≡ some c))

bind-ok {ℓ} : {E : Type 0} {A : Type ℓ} (r : Result E A) → (r >>= λ a. ok a) ≡ r
bind-ok (ok a) = refl
bind-ok (err e) = refl

-- The row that the loop keeps: the line without its claimed hash, and the hash that was computed.
abbrev pub kept : Object → Text → Object
kept body hash = body ++ (text "record_hash", str hash) ∷ []

kept-Tip :
    (row : Object) (rows : List Object) (hash : Text) (c : CryptoPolicyState)
    → state_of_json (get (text "policy_state") (remove (text "record_hash") row)) ≡ some c
    → Tip
        (record {
          rows = rows ++ kept (remove (text "record_hash") row) hash ∷ [];
          prev = hash;
          state = some c;
        })
        (last (rows ++ kept (remove (text "record_hash") row) hash ∷ []))
kept-Tip row rows hash c e = rw last-append (
  get-append (text "record_hash") (remove (text "record_hash") row) (text "record_hash") (str hash)
        (get-remove_self (text "record_hash") row)
      ∙ rw text_eq_refl,
  (c, still (get (text "policy_state") (remove (text "record_hash") row)) refl e, refl),
)
  where
    still :
        (o : Option Json)
        → get (text "policy_state") (remove (text "record_hash") row) ≡ o
        → state_of_json o ≡ some c
        → state_of_json (get (text "policy_state") (kept (remove (text "record_hash") row) hash))
          ≡ some c
    still none g e = absurd (unfold state_of_json in cc e)
    still (some j) g e =
        rw
          (get-append_old (text "policy_state") (remove (text "record_hash") row)
            (text "record_hash") (str hash) j g)
          e

module _ (digest : Object → Text) where
  read_object-Tip :
      (s : ReadState) (row : Object) (s' : ReadState)
      → read_object digest s row ≡ ok s'
      → Tip s' (last s'.rows)
  unfolding read_object
  read_object-Tip s row s' h =
      let body = remove (text "record_hash") row in
      let (_, h1) = >>-eq-ok (breaks_chain s body) _ _ h in
      let (_, h2) = >>-eq-ok (not (is_str (get (text "record_hash") row) (digest body))) _ _ h1 in
      let (c, e, h3) =
        >>=-eq-ok (or_raise (state_of_json (get (text "policy_state") body)) invalid_state) _ h2 in
      let (_, h4) = >>-eq-ok (is_downgrade c s.state) _ _ h3 in
      subst (λ (t : ReadState). Tip t (last t.rows)) (ok-injective h4)
        (kept-Tip row s.rows (digest (remove (text "record_hash") row)) c (or_raise-eq-ok _ _ e))

  read_line-Tip :
      (s : ReadState) (l : Line) (s' : ReadState)
      → read_line digest s l ≡ ok s'
      → Tip s' (last s'.rows)
  unfolding read_line
  read_line-Tip s malformed s' h = absurd (cc h)
  read_line-Tip s blank s' h = absurd (cc h)
  read_line-Tip s (object row) s' h = read_object-Tip s row s' h

  pub read_file-Tip :
      (file : LedgerFile) (s : ReadState) → read_file digest file ≡ ok s → Tip s (last s.rows)
  unfolding read_file last
  read_file-Tip absent s h =
      subst (λ (t : ReadState). Tip t (last t.rows)) (ok-injective h) (refl, refl)
  read_file-Tip unsafe s h = absurd (cc h)
  read_file-Tip (lines l) s h =
      fold_result_inv (read_line digest) (λ t. Tip t (last t.rows))
        (λ t x t' _ e. read_line-Tip t x t' e) start l s (refl, refl) h
  read_file-Tip (unended l x) s h =
      fold_result_inv (read_line digest) (λ t. Tip t (last t.rows))
        (λ t y t' _ e. read_line-Tip t y t' e) start (l ++ x ∷ []) s (refl, refl) h

  -- Reading a file to which a line was appended is one more round of the loop.
  pub read_file-append :
      (file : LedgerFile) (row : Object) (s : ReadState)
      → Ended file
      → read_file digest file ≡ ok s
      → read_file digest (append_line file row) ≡ read_object digest s row
  unfolding read_file append_line fold_result read_line
  read_file-append absent row s e h =
      subst
        (λ (t : ReadState).
          fold_result (read_line digest) start (object row ∷ []) ≡ read_object digest t row)
        (ok-injective h) (bind-ok (read_object digest start row))
  read_file-append unsafe row s e h = absurd (cc h)
  read_file-append (lines l) row s e h =
      fold_result-append (read_line digest) start l (object row) ∙ rw h
  read_file-append (unended l x) row s e h = absurd e

  -- A file whose last line was joined with another cannot be read.
  pub read_file-joined :
      (l : List Line) {s : ReadState} → ¬ (read_file digest (lines (l ++ malformed ∷ [])) ≡ ok s)
  unfolding read_file fold_result read_line
  read_file-joined l h =
      let e = sym (fold_result-append (read_line digest) start l malformed) ∙ h in
      let (t, _, h1) = >>=-eq-ok (fold_result (read_line digest) start l) _ e in absurd (cc h1)
