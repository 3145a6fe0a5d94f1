-- ===== src/EmergencyState/Recovery.antt =====
-- The durable mode after a transition of the emergency ledger, and its de-escalation rule.
use sara_pro.Prelude.{
  negated, ◌+◌, ◌<◌, ◌≡◌, refl, sym, ap, ◌∙◌, subst, [], ◌∷◌, ◌++◌, Option, none, some, not, length,
  length-append, ltb, lt→ltb, ok, >>=-eq-ok, >>-eq-ok, ok-injective,
}
use sara_pro.Bytes.{Text, text, text_eq, text_eq→eq, text_eq_refl, CaseTables}
use sara_pro.Ledger.{str, Object, get, last, last-append, LedgerFile, Ended, append_line}
use sara_pro.Ledger.Chain.{Chain, link, link-built}
use sara_pro.EmergencyState.{
  EmergencyMode, severity, mode_text, hex32, mode_of_last, tip_of, TransitionArgs, check_recovery,
  body_of, Anchor, linking, read, transition, assert_current,
}
use sara_pro.EmergencyState.Transition.{
  mode_of_json-mode_text, mode_text-injective, read-append, row_of, transition-Written,
}

module _ (digest : Object → Text) where
  abbrev hash_of : TransitionArgs → Chain → EmergencyMode → Option Text → Text
  hash_of args s prior recovery =
      digest (body_of args (length s.rows + 1) (str s.prev) prior recovery)

  row_linked :
      (args : TransitionArgs) (s : Chain) (prior : EmergencyMode) (recovery : Option Text)
      → link (linking digest) s (row_of digest args s prior recovery)
        ≡ ok (record {
          rows = s.rows ++ row_of digest args s prior recovery ∷ [];
          prev = hash_of args s prior recovery;
        })
  unfolding get text_eq
  row_linked args s prior recovery =
      link-built (linking digest) s (body_of args (length s.rows + 1) (str s.prev) prior recovery)
        refl refl refl

  row_mode :
      (args : TransitionArgs) (s : Chain) (prior : EmergencyMode) (recovery : Option Text)
      → mode_of_last (some (row_of digest args s prior recovery)) ≡ ok args.mode
  unfolding get text_eq mode_of_last
  row_mode args s prior recovery = rw (mode_of_json-mode_text args.mode)

  row_tip :
      (args : TransitionArgs) (s : Chain) (prior : EmergencyMode) (recovery : Option Text)
      → tip_of (some (row_of digest args s prior recovery))
        ≡ some (str (hash_of args s prior recovery))
  unfolding get text_eq tip_of
  row_tip args s prior recovery = refl

  anchored :
      (args : TransitionArgs) (file : LedgerFile) (s : Chain) (prior : EmergencyMode)
      (recovery : Option Text)
      → Ended file
      → read digest file ≡ ok s
      → assert_current digest args.mode (append_line file (row_of digest args s prior recovery))
        ≡ ok (record {
          mode = args.mode;
          sequence = length s.rows + 1;
          tip_sha256 = str (hash_of args s prior recovery);
        })
  unfolding assert_current
  anchored args file s prior recovery ended h = rw (
    read-append digest file (row_of digest args s prior recovery) ended h,
    row_linked args s prior recovery,
    last-append s.rows (row_of digest args s prior recovery),
    row_mode args s prior recovery,
    text_eq_refl (mode_text args.mode),
    row_tip args s prior recovery,
    length-append s.rows (row_of digest args s prior recovery ∷ []),
  )

  -- After a transition that succeeds on a file without a last line that no newline ends, `assert_current`
  -- of the new mode succeeds on the new file and reports one more row than the writer had expected.
  pub transition-assert_mode :
      (tables : CaseTables) (args : TransitionArgs) (file : LedgerFile) {row : Object}
      {file' : LedgerFile}
      → Ended file
      → transition digest tables args file ≡ ok (row, file')
      → (hash : Text) × (assert_current digest args.mode file'
          ≡ ok (record {
            mode = args.mode;
            sequence = args.expected_sequence + 1;
            tip_sha256 = str hash;
          }))
  transition-assert_mode tables args file ended h =
      let w = transition-Written digest tables args file h in
      let a = anchored args file w.s w.prior w.recovery ended w.before in
      (
        hash_of args w.s w.prior w.recovery,
        ap (assert_current digest args.mode) (sym w.written)
            ∙ a
            ∙ ap
                (λ n. ok (record {
                  mode = args.mode;
                  sequence = n + 1;
                  tip_sha256 = str (hash_of args w.s w.prior w.recovery);
                }))
                w.fresh,
      )

  recovery_demanded :
      (tables : CaseTables) (mode prior : EmergencyMode) (given : Option Text)
      {recovery : Option Text}
      → severity mode < severity prior
      → check_recovery tables mode prior given ≡ ok recovery
      → (d : Text) × (t : Text) × (given ≡ some d) × (hex32 tables d ≡ ok t) × (recovery ≡ some t)
  unfolding check_recovery
  recovery_demanded tables mode prior none less h =
      let (calm, _) = >>-eq-ok (ltb (severity mode) (severity prior)) _ _ h in
      absurd (cc (calm, lt→ltb (severity mode) (severity prior) less))
  recovery_demanded tables mode prior (some d) less h =
      let (t, e, h1) = >>=-eq-ok (hex32 tables d) _ h in (d, t, refl, e, sym (ok-injective h1))

  row_recovery :
      (args : TransitionArgs) (s : Chain) (prior : EmergencyMode) (t : Text)
      → get (text "recovery_authorization_sha256") (row_of digest args s prior (some t))
        ≡ some (str t)
  unfolding get text_eq
  row_recovery args s prior t = refl

  prior_is :
      (file : LedgerFile) (prior current : EmergencyMode) (s : Chain) {a : Anchor}
      → read digest file ≡ ok s
      → mode_of_last (last s.rows) ≡ ok current
      → assert_current digest prior file ≡ ok a
      → current ≡ prior
  unfolding assert_current
  prior_is file prior current s e m h =
      let (s', e', h1) = >>=-eq-ok (read digest file) _ h in
      let (c, m', h2) = >>=-eq-ok (mode_of_last (last s'.rows)) _ h1 in
      let (same, _) = >>-eq-ok (not (text_eq (mode_text c) (mode_text prior))) _ _ h2 in
      let found : s ≡ s' = ok-injective (sym e ∙ e') in
      let modes : current ≡ c =
        ok-injective (sym m ∙ ap (λ t. mode_of_last (last t.rows)) found ∙ m') in
      modes
      ∙ mode_text-injective c prior
          (text_eq→eq _ _ (negated (text_eq (mode_text c) (mode_text prior)) same))

  -- A transition that succeeds while the durable mode is a more severe one was given a recovery
  -- authorization that is the hex text of 32 bytes, and its row records that text in lower case.
  pub transition_recovery :
      (tables : CaseTables) (args : TransitionArgs) (file : LedgerFile) (prior : EmergencyMode)
      {a : Anchor} {row : Object} {file' : LedgerFile}
      → assert_current digest prior file ≡ ok a
      → severity args.mode < severity prior
      → transition digest tables args file ≡ ok (row, file')
      → (d : Text) × (t : Text) × (args.recovery_authorization_sha256 ≡ some d)
        × (hex32 tables d ≡ ok t)
        × (get (text "recovery_authorization_sha256") row ≡ some (str t))
  transition_recovery tables args file prior {row = row} anchor less h =
      let w = transition-Written digest tables args file h in
      let same = prior_is file prior w.prior w.s w.before w.prior_found anchor in
      let (d, t, given, hex, recorded) =
        recovery_demanded tables args.mode w.prior args.recovery_authorization_sha256
          (subst (λ (m : EmergencyMode). severity args.mode < severity m) (sym same) less)
          w.checked in
      (
        d,
        t,
        given,
        hex,
        subst (λ (r : Object). get (text "recovery_authorization_sha256") r ≡ some (str t))
            (ap (λ u. row_of digest args w.s w.prior u) (sym recorded) ∙ w.row_is)
            (row_recovery args w.s w.prior t),
      )
