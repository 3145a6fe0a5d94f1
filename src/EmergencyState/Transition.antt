-- ===== src/EmergencyState/Transition.antt =====
-- `transition` of the emergency ledger, taken apart into its steps.
use sara_pro.Prelude.{
  negated, ◌+◌, ◌≡◌, refl, sym, ap, ◌∙◌, subst, List, [], ◌∷◌, ◌++◌, Option, none, some, false,
  ◌||◌, not, length, ltb, ◌==◌, ==_iff, Result, ok, err, ◌>>=◌, or_raise, fold_result,
  fold_result-append, >>=-eq-ok, >>-eq-ok, ok-injective, or_raise-eq-ok,
}
use sara_pro.Bytes.{Text, text, text_eq, CaseTables, is_empty}
use sara_pro.Ledger.{
  Json, str, Object, Line, malformed, blank, object, last, LedgerFile, absent, unsafe, lines,
  unended, Ended, append_line,
}
use sara_pro.Ledger.Chain.{Chain, no_rows, link, Tip, fold-Tip}
use sara_pro.EmergencyState.{
  EmergencyMode, normal, freeze, migration_only, mode_text, mode_of_text, mode_of_json,
  EmergencyError, value_error, load_lines, mode_of_last, tip_of, TransitionArgs, check_recovery,
  body_of, linking, check_rows, read_lines, read, transition,
}

pub mode_of_json-mode_text : (m : EmergencyMode) → mode_of_json (some (str (mode_text m))) ≡ some m
unfolding mode_of_json mode_of_text mode_text text_eq
mode_of_json-mode_text normal = refl
mode_of_json-mode_text freeze = refl
mode_of_json-mode_text migration_only = refl

pub mode_text-injective : (m n : EmergencyMode) → mode_text m ≡ mode_text n → m ≡ n
unfolding mode_of_json
mode_text-injective m n h =
    let same =
      sym (mode_of_json-mode_text m)
      ∙ ap (λ t. mode_of_json (some (str t))) h
      ∙ mode_of_json-mode_text n in
    cc same

load_lines-append :
    (l : List Line) (row : Object)
    → load_lines (l ++ object row ∷ []) ≡ (load_lines l >>= λ rows. ok (rows ++ row ∷ []))
unfolding load_lines
load_lines-append [] row = refl
load_lines-append (malformed ∷ l) row = refl
load_lines-append (blank ∷ l) row = load_lines-append l row
load_lines-append (object first ∷ l) row =
    step (load_lines l) (load_lines (l ++ object row ∷ [])) (load_lines-append l row)
  where
    step :
        (r r' : Result EmergencyError (List Object))
        → r' ≡ (r >>= λ rows. ok (rows ++ row ∷ []))
        → (r' >>= λ rows. ok (first ∷ rows))
          ≡ ((r >>= λ rows. ok (first ∷ rows)) >>= λ rows. ok (rows ++ row ∷ []))
    step (ok rows) r' h = rw h
    step (err e) r' h = rw h

module _ (digest : Object → Text) where
  read-Tip :
      (file : LedgerFile) {s : Chain}
      → read digest file ≡ ok s
      → Tip (linking digest) s (last s.rows)
  unfolding read read_lines check_rows last
  read-Tip absent h =
      subst (λ (t : Chain). Tip (linking digest) t (last t.rows)) (ok-injective h) refl
  read-Tip unsafe h = absurd (cc h)
  read-Tip (lines l) h =
      let (rows, _, h1) = >>=-eq-ok (load_lines l) _ h in fold-Tip (linking digest) rows h1
  read-Tip (unended l x) h =
      let (rows, _, h1) = >>=-eq-ok (load_lines (l ++ x ∷ [])) _ h in
      fold-Tip (linking digest) rows h1

  tip_found :
      (file : LedgerFile) {s : Chain}
      → read digest file ≡ ok s
      → tip_of (last s.rows) ≡ some (str s.prev)
  unfolding tip_of
  tip_found file {s} h = from_tip s (last s.rows) (read-Tip file h)
    where
      from_tip :
          (s : Chain) (o : Option Object) → Tip (linking digest) s o → tip_of o ≡ some (str s.prev)
      from_tip s none e = ap (λ t. some (str t)) (sym e)
      from_tip s (some row) e = e

  bind-ok : {A : Type 0} (r : Result EmergencyError A) → (r >>= λ a. ok a) ≡ r
  bind-ok (ok a) = refl
  bind-ok (err e) = refl

  pub read-append :
      (file : LedgerFile) (row : Object) {s : Chain}
      → Ended file
      → read digest file ≡ ok s
      → read digest (append_line file row) ≡ link (linking digest) s row
  unfolding read read_lines check_rows append_line load_lines fold_result
  read-append absent row end h =
      subst
        (λ (t : Chain).
          (link (linking digest) no_rows row >>= λ u. ok u) ≡ link (linking digest) t row)
        (ok-injective h) (bind-ok (link (linking digest) no_rows row))
  read-append unsafe row end h = absurd (cc h)
  read-append (lines l) row end h =
      let (rows, e, h1) = >>=-eq-ok (load_lines l) _ h in
      rw (
        load_lines-append l row,
        e,
        fold_result-append (link (linking digest)) no_rows rows row,
        h1,
      )
  read-append (unended l x) row end h = absurd end

  abbrev pub row_of : TransitionArgs → Chain → EmergencyMode → Option Text → Object
  row_of args s prior recovery =
      let body = body_of args (length s.rows + 1) (str s.prev) prior recovery in
      body ++ (text "record_sha256", str (digest body)) ∷ []

  -- Everything that a transition which succeeds has established.
  pub record Written (tables : CaseTables) (args : TransitionArgs) (file : LedgerFile)
      (row : Object) (file' : LedgerFile) : Type 0 where
    pub s : Chain
    pub before : read digest file ≡ ok s
    pub fresh : length s.rows ≡ args.expected_sequence
    pub prior : EmergencyMode
    pub prior_found : mode_of_last (last s.rows) ≡ ok prior
    pub recovery : Option Text
    pub checked :
        check_recovery tables args.mode prior args.recovery_authorization_sha256 ≡ ok recovery
    pub row_is : row_of args s prior recovery ≡ row
    pub written : append_line file (row_of args s prior recovery) ≡ file'

  pub transition-Written :
      (tables : CaseTables) (args : TransitionArgs) (file : LedgerFile) {row : Object}
      {file' : LedgerFile}
      → transition digest tables args file ≡ ok (row, file')
      → Written tables args file row file'
  unfolding transition
  transition-Written tables args file {row} {file'} h =
      let (_, h1) = >>-eq-ok (is_empty args.reason || ltb 512 (length args.reason)) _ _ h in
      let (s, e, h2) = >>=-eq-ok (read digest file) _ h1 in
      let (f, h3) = >>-eq-ok (not (length s.rows == args.expected_sequence)) _ _ h2 in
      let (prior, p, h4) = >>=-eq-ok (mode_of_last (last s.rows)) _ h3 in
      let (recovery, r, h5) =
        >>=-eq-ok (check_recovery tables args.mode prior args.recovery_authorization_sha256) _ h4 in
      let (previous, t, h6) = >>=-eq-ok (or_raise (tip_of (last s.rows)) value_error) _ h5 in
      finish s prior recovery previous e f p r (or_raise-eq-ok _ _ t) (ok-injective h6)
    where
      finish :
          (s : Chain) (prior : EmergencyMode) (recovery : Option Text) (previous : Json)
          → read digest file ≡ ok s
          → not (length s.rows == args.expected_sequence) ≡ false
          → mode_of_last (last s.rows) ≡ ok prior
          → check_recovery tables args.mode prior args.recovery_authorization_sha256 ≡ ok recovery
          → tip_of (last s.rows) ≡ some previous
          → (let body = body_of args (length s.rows + 1) previous prior recovery in
              let new = body ++ (text "record_sha256", str (digest body)) ∷ [] in
              ◌≡◌ {A = Object × LedgerFile} (new, append_line file new) (row, file'))
          → Written tables args file row file'
      finish s prior recovery previous e f p r t h =
          let same : previous ≡ str s.prev = option_same (sym t ∙ tip_found file e) in
          let pair =
            subst
              (λ (j : Json).
                (let body = body_of args (length s.rows + 1) j prior recovery in
                  let new = body ++ (text "record_sha256", str (digest body)) ∷ [] in
                  ◌≡◌ {A = Object × LedgerFile} (new, append_line file new) (row, file')))
              same h in
          record {
            s = s;
            before = e;
            fresh = (==_iff _ _).0 (negated (length s.rows == args.expected_sequence) f);
            prior = prior;
            prior_found = p;
            recovery = recovery;
            checked = r;
            row_is = ap (λ t. t.0) pair;
            written = ap (λ t. t.1) pair;
          }
        where
          option_same : {A : Type 0} {a b : A} → ◌≡◌ {A = Option A} (some a) (some b) → a ≡ b
          option_same h = cc h
