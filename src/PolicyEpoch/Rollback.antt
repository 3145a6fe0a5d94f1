-- ===== src/PolicyEpoch/Rollback.antt =====
-- Anti-rollback: what a readable ledger says of its history, and what a transition that succeeds
-- means for the readers and writers after it.
use sara_pro.Prelude.{
  ℕ, ◌≤◌, ◌≡◌, refl, sym, ap, ◌∙◌, subst, List, [], ◌∷◌, ◌++◌, Option, none, some, false, not,
  arith, length, length-append, ltb_false→le, ok, or_raise, fold_result_inv, >>=-eq-ok, >>-eq-ok,
  ok-injective, or_raise-eq-ok,
}
use sara_pro.Bytes.{Text, text, text_eq_refl, strip}
use sara_pro.Ledger.{
  Json, str, Object, Line, malformed, blank, object, get, remove, is_str, last-append,
  get-append_old, LedgerFile, absent, unsafe, lines, unended, Ended, append_line,
}
use sara_pro.QuantumPolicy.Types.{CryptoPolicyState}
use sara_pro.PolicyEpoch.Order.{order}
use sara_pro.PolicyEpoch.States.{state_text, state_of_json}
use sara_pro.PolicyEpoch.{
  invalid_state, ReadState, start, is_downgrade, breaks_chain, read_object, read_line, read_file,
  read, TransitionArgs, transition, current, assert_current,
}
use sara_pro.PolicyEpoch.Tips.{read_file-joined}
use sara_pro.PolicyEpoch.Transition.{transition_appends}

-- From strictness `n` to strictness `m`: every row names a policy state, at least as strict as the one
-- before it.
unfoldable pub RisingTo : ℕ → List Object → ℕ → Type 0
RisingTo n [] m = n ≡ m
RisingTo n (row ∷ rows) m =
    (c : CryptoPolicyState) × (state_of_json (get (text "policy_state") row) ≡ some c)
    × (n ≤ order c)
    × RisingTo (order c) rows m

RisingTo-append :
    (n m : ℕ) (rows : List Object) (row : Object) (c : CryptoPolicyState)
    → RisingTo n rows m
    → state_of_json (get (text "policy_state") row) ≡ some c
    → m ≤ order c
    → RisingTo n (rows ++ row ∷ []) (order c)
unfolding RisingTo
RisingTo-append n m [] row c h e le = (c, e, subst (λ (k : ℕ). k ≤ order c) (sym h) le, refl)
RisingTo-append n m (first ∷ rows) row c (d, e', le', h) e le =
    (d, e', le', RisingTo-append (order d) m rows row c h e le)

abbrev level : Option CryptoPolicyState → ℕ
level none = 0
level (some c) = order c

level-le :
    (c : CryptoPolicyState) (o : Option CryptoPolicyState)
    → is_downgrade c o ≡ false
    → level o ≤ order c
level-le c none h = omega arith
level-le c (some d) h = ltb_false→le _ _ h

still_named :
    (body : Object) (hash : Text) (o : Option Json) (c : CryptoPolicyState)
    → get (text "policy_state") body ≡ o
    → state_of_json o ≡ some c
    → state_of_json (get (text "policy_state") (body ++ (text "record_hash", str hash) ∷ []))
      ≡ some c
still_named body hash none c g e = absurd (unfold state_of_json in cc e)
still_named body hash (some j) c g e =
    rw (get-append_old (text "policy_state") body (text "record_hash") (str hash) j g, e)

module _ (digest : Object → Text) where
  abbrev Rising : ReadState → Type 0
  Rising s = RisingTo 0 s.rows (level s.state)

  read_object-Rising :
      (s : ReadState) (row : Object) (s' : ReadState)
      → Rising s
      → read_object digest s row ≡ ok s'
      → Rising s'
  unfolding read_object
  read_object-Rising s row s' rising h =
      let body = remove (text "record_hash") row in
      let (_, h1) = >>-eq-ok (breaks_chain s body) _ _ h in
      let (_, h2) = >>-eq-ok (not (is_str (get (text "record_hash") row) (digest body))) _ _ h1 in
      let (c, e, h3) =
        >>=-eq-ok (or_raise (state_of_json (get (text "policy_state") body)) invalid_state) _ h2 in
      let (up, h4) = >>-eq-ok (is_downgrade c s.state) _ _ h3 in
      subst Rising (ok-injective h4) (
        RisingTo-append 0 (level s.state) s.rows _ c rising
          (still_named body (digest body) _ c refl (or_raise-eq-ok _ _ e)) (level-le c s.state up))

  read_line-Rising :
      (s : ReadState) (l : Line) (s' : ReadState)
      → Rising s
      → read_line digest s l ≡ ok s'
      → Rising s'
  unfolding read_line
  read_line-Rising s malformed s' rising h = absurd (cc h)
  read_line-Rising s blank s' rising h = absurd (cc h)
  read_line-Rising s (object row) s' rising h = read_object-Rising s row s' rising h

  read_file-Rising : (file : LedgerFile) (s : ReadState) → read_file digest file ≡ ok s → Rising s
  unfolding read_file RisingTo
  read_file-Rising absent s h = subst Rising (ok-injective h) refl
  read_file-Rising unsafe s h = absurd (cc h)
  read_file-Rising (lines l) s h =
      fold_result_inv (read_line digest) Rising read_line-Rising start l s refl h
  read_file-Rising (unended l x) s h =
      fold_result_inv (read_line digest) Rising read_line-Rising start (l ++ x ∷ []) s refl h

  -- Whenever the ledger file can be read, whatever wrote it, each row names a policy state that is at
  -- least as strict as the state of the row before it.
  pub read-RisingTo :
      (file : LedgerFile) {rows : List Object}
      → read digest file ≡ ok rows
      → (m : ℕ) × RisingTo 0 rows m
  unfolding read
  read-RisingTo file h =
      let (s, found, e) = >>=-eq-ok (read_file digest file) _ h in
      subst (λ (r : List Object). (m : ℕ) × RisingTo 0 r m) (ok-injective e)
        (level s.state, read_file-Rising file s found)

  read-joined :
      (l : List Line) {rows : List Object} → ¬ (read digest (lines (l ++ malformed ∷ [])) ≡ ok rows)
  unfolding read
  read-joined l h =
      let (s, found, _) = >>=-eq-ok (read_file digest (lines (l ++ malformed ∷ []))) _ h in
      read_file-joined digest l found

  read→current :
      (file : LedgerFile) (rows : List Object) {row : Object}
      → read digest file ≡ ok (rows ++ row ∷ [])
      → current digest file ≡ ok (some row)
  unfolding current
  read→current file rows {row} h = rw (h, last-append rows row)

  anchored :
      (file : LedgerFile) {row : Object} (state : CryptoPolicyState) (epoch : Text)
      → current digest file ≡ ok (some row)
      → get (text "policy_state") row ≡ some (str (state_text state))
      → get (text "policy_epoch") row ≡ some (str epoch)
      → assert_current digest state epoch file ≡ ok row
  unfolding assert_current
  anchored file state epoch h s e =
      rw (h, s, text_eq_refl (state_text state), e, text_eq_refl epoch)

module _ (digest : Object → Text) (sha256_text : Text → Text)
    (parse_time : Text → Option Text) where
  -- A transition that succeeds on a file without a last line that no newline ends leaves the old lines
  -- and appends one; from then on the appended row is the current one, and `assert_current` accepts the
  -- state with the epoch as it was stored, stripped.
  pub transition-assert_current :
      (args : TransitionArgs) (file : LedgerFile) {row : Object} {file' : LedgerFile}
      → Ended file
      → transition digest sha256_text parse_time args file ≡ ok (row, file')
      → (file' ≡ append_line file row)
        × (current digest file' ≡ ok (some row))
        × (assert_current digest args.policy_state (strip args.policy_epoch) file' ≡ ok row)
  transition-assert_current args file {row} {file'} ended h =
      let a = transition_appends digest sha256_text parse_time args file h in
      let found = read→current digest file' a.rows (a.after ended) in
      (
        a.written,
        found,
        anchored digest file' args.policy_state (strip args.policy_epoch) found a.state a.epoch,
      )

  -- Of two writers that both saw the same number of rows, the one that comes second never succeeds.
  pub transition_stale :
      (first second : TransitionArgs) (file : LedgerFile) {row row' : Object}
      {file' file'' : LedgerFile}
      → first.expected_sequence ≡ second.expected_sequence
      → transition digest sha256_text parse_time first file ≡ ok (row, file')
      → ¬ (transition digest sha256_text parse_time second file' ≡ ok (row', file''))
  unfolding append_line
  transition_stale first second file {row} {row'} {file'} {file''} e h h' =
      let a = transition_appends digest sha256_text parse_time first file h in
      let b = transition_appends digest sha256_text parse_time second file' h' in
      let m = a.fresh in
      let n = b.fresh in
      by_file file a.written
        (λ ended. longer a.rows b.rows (omega (arith, m, n, e)) (a.after ended) b.before) b.before
    where
      longer :
          (rows rows'' : List Object)
          → length rows ≡ length rows''
          → read digest file' ≡ ok (rows ++ row ∷ [])
          → read digest file' ≡ ok rows''
          → ⊥
      longer rows rows'' same after before =
          let grown : rows'' ≡ rows ++ row ∷ [] = ok-injective (sym before ∙ after) in
          let count = ap length grown ∙ length-append rows (row ∷ []) in omega (arith, same, count)

      by_file :
          (f : LedgerFile) {rows : List Object}
          → file' ≡ append_line f row
          → (Ended f → ⊥)
          → read digest file' ≡ ok rows
          → ⊥
      by_file absent w grew found = grew tt
      by_file unsafe w grew found = grew tt
      by_file (lines l) w grew found = grew tt
      by_file (unended l x) {rows} w grew found =
          read-joined digest l (subst (λ g. read digest g ≡ ok rows) w found)
