-- ===== src/PolicyEpoch/Transition.antt =====
-- What a `transition` of the policy ledger that succeeds leaves behind.
use sara_pro.Prelude.{
  negated, ◌+◌, ◌≡◌, refl, sym, ◌∙◌, subst, List, [], ◌∷◌, ◌++◌, Option, none, some, true, false,
  ◌||◌, not, length, ltb, ◌==◌, ==_iff, Result, ok, or_raise, >>=-eq-ok, >>-eq-ok, ok-injective,
  or_raise-eq-ok,
}
use sara_pro.Bytes.{Text, text, text_eq, text_eq_refl, strip, is_empty}
use sara_pro.Ledger.{str, Object, get, remove, last, LedgerFile, Ended, append_line}
use sara_pro.PolicyEpoch.Order.{order}
use sara_pro.PolicyEpoch.States.{state_text, state_of_json, state_of_json-state_text}
use sara_pro.PolicyEpoch.{
  EpochError, invalid_state, ReadState, is_downgrade, read_object, read_file, read, TransitionArgs,
  check_last, previous_hash, base_record, transition, bad_time,
}
use sara_pro.PolicyEpoch.Tips.{Tip, kept, read_file-Tip, read_file-append}

-- The state of the last row, read back where `transition` reads it.
last_checked :
    (args : TransitionArgs) (s : ReadState) (row : Option Object)
    → Tip s row
    → check_last args row ≡ ok tt
    → is_downgrade args.policy_state s.state ≡ false
unfolding check_last
last_checked args s none (_, e) h = rw e
last_checked args s (some row) (_, (c, e, e')) h =
    let (current, found, h1) =
      >>=-eq-ok (or_raise (state_of_json (get (text "policy_state") row)) invalid_state) _ h in
    let (weaker, _) = >>-eq-ok (ltb (order args.policy_state) (order current)) _ _ h1 in
    let same : some c ≡ some current = sym e ∙ or_raise-eq-ok _ _ found in cc (e', same, weaker)

previous_found :
    (s : ReadState) (row : Option Object) {t : Text}
    → Tip s row
    → previous_hash row ≡ ok t
    → s.prev ≡ t
unfolding previous_hash
previous_found s none (e, _) h = e ∙ ok-injective h
previous_found s (some row) (e, _) h = ok-injective (rw e at h)

-- The loop accepts the line that `transition` writes.
module _ (digest : Object → Text) (args : TransitionArgs) (s : ReadState)
    (effective reason_hash : Text) where
  abbrev base : Object
  base = base_record args (length s.rows + 1) s.prev effective reason_hash

  written_read :
      is_downgrade args.policy_state s.state ≡ false
      → read_object digest s (kept base (digest base))
        ≡ ok (record {
          rows = s.rows ++ kept base (digest base) ∷ [];
          prev = digest base;
          state = some args.policy_state;
        })
  unfolding read_object get remove text_eq
  written_read h =
      let sequence : ((length s.rows + 1) == (length s.rows + 1)) ≡ true = (==_iff _ _).1 refl in
      rw (
        sequence,
        text_eq_refl s.prev,
        text_eq_refl (digest base),
        state_of_json-state_text args.policy_state,
        h,
      )

-- Everything that a transition which succeeds has established.
pub record Appended (digest : Object → Text) (args : TransitionArgs) (file : LedgerFile)
    (row : Object) (file' : LedgerFile) : Type 0 where
  pub rows : List Object
  pub before : read digest file ≡ ok rows
  pub fresh : length rows ≡ args.expected_sequence
  pub written : file' ≡ append_line file row
  pub after : Ended file → read digest file' ≡ ok (rows ++ row ∷ [])
  pub state : get (text "policy_state") row ≡ some (str (state_text args.policy_state))
  pub epoch : get (text "policy_epoch") row ≡ some (str (strip args.policy_epoch))

module _ (digest : Object → Text) (args : TransitionArgs) (file : LedgerFile) (s : ReadState)
    (effective reason_hash : Text) where
  appended :
      read_file digest file ≡ ok s
      → (length s.rows == args.expected_sequence) ≡ true
      → is_downgrade args.policy_state s.state ≡ false
      → let row =
          kept
            (base digest args s effective reason_hash)
            (digest (base digest args s effective reason_hash)) in
        Appended digest args file row (append_line file row)
  unfolding read get text_eq
  appended found fresh rising =
      let b = base digest args s effective reason_hash in
      record {
        rows = s.rows;
        before = rw found;
        fresh = (==_iff _ _).0 fresh;
        written = refl;
        after = λ end. rw (
          read_file-append digest file (kept b (digest b)) s end found,
          written_read digest args s effective reason_hash rising,
        );
        state = refl;
        epoch = refl;
      }

module _ (digest : Object → Text) (sha256_text : Text → Text)
    (parse_time : Text → Option Text) where
  -- What `transition` does once the file is read and the writer is known to be fresh.
  pair-Appended :
      (args : TransitionArgs) (file : LedgerFile) (s : ReadState) (previous effective : Text)
      {row : Object} {file' : LedgerFile}
      → read_file digest file ≡ ok s
      → (length s.rows == args.expected_sequence) ≡ true
      → is_downgrade args.policy_state s.state ≡ false
      → s.prev ≡ previous
      → (let base =
            base_record args (length s.rows + 1) previous effective (sha256_text args.reason) in
          let record_row = base ++ (text "record_hash", str (digest base)) ∷ [] in
          ◌≡◌ {A = Result EpochError (Object × LedgerFile)}
            (ok (record_row, append_line file record_row))
            (ok (row, file')))
      → Appended digest args file row file'
  pair-Appended args file s previous effective {row} {file'} found fresh rising e h =
      subst (λ (t : Object × LedgerFile). Appended digest args file t.0 t.1)
        (subst
          (λ (p : Text).
            (let base =
                base_record args (length s.rows + 1) p effective (sha256_text args.reason) in
              let record_row = base ++ (text "record_hash", str (digest base)) ∷ [] in
              ◌≡◌ {A = Object × LedgerFile} (record_row, append_line file record_row) (row, file')))
          (sym e) (ok-injective h))
        (appended digest args file s effective (sha256_text args.reason) found fresh rising)

  pub transition_appends :
      (args : TransitionArgs) (file : LedgerFile) {row : Object} {file' : LedgerFile}
      → transition digest sha256_text parse_time args file ≡ ok (row, file')
      → Appended digest args file row file'
  unfolding transition read
  transition_appends args file h =
      let (_, h1) =
        >>-eq-ok (is_empty (strip args.policy_epoch) || ltb 128 (length args.policy_epoch)) _ _ h in
      let (_, h2) =
        >>-eq-ok (is_empty (strip args.reason) || ltb 2048 (length args.reason)) _ _ h1 in
      let (rows, e, h3) = >>=-eq-ok (read digest file) _ h2 in
      let (s, found, e') = >>=-eq-ok (read_file digest file) _ e in
      let (fresh, h4) = >>-eq-ok (not (length rows == args.expected_sequence)) _ _ h3 in
      let (_, checked, h5) = >>=-eq-ok (check_last args (last rows)) _ h4 in
      let (previous, p, h6) = >>=-eq-ok (previous_hash (last rows)) _ h5 in
      let (effective, _, h7) = >>=-eq-ok (or_raise (parse_time args.effective_at) bad_time) _ h6 in
      from_rows args file s previous effective rows (ok-injective e') found fresh checked p h7
    where
      from_rows :
          (args : TransitionArgs) (file : LedgerFile) (s : ReadState) (previous effective : Text)
          (rows : List Object) {row : Object} {file' : LedgerFile}
          → s.rows ≡ rows
          → read_file digest file ≡ ok s
          → not (length rows == args.expected_sequence) ≡ false
          → check_last args (last rows) ≡ ok tt
          → previous_hash (last rows) ≡ ok previous
          → (let base =
                base_record args (length rows + 1) previous effective (sha256_text args.reason) in
              let record_row = base ++ (text "record_hash", str (digest base)) ∷ [] in
              ◌≡◌ {A = Result EpochError (Object × LedgerFile)}
                (ok (record_row, append_line file record_row))
                (ok (row, file')))
          → Appended digest args file row file'
      from_rows args file s previous effective rows {row} {file'} e found fresh checked p h =
          let tip = read_file-Tip digest file s found in
          pair-Appended args file s previous effective found
            (negated (length s.rows == args.expected_sequence) (
              subst (λ (r : List Object). not (length r == args.expected_sequence) ≡ false) (sym e)
                fresh))
            (last_checked args s (last s.rows) tip
              (subst (λ (r : List Object). check_last args (last r) ≡ ok tt) (sym e) checked))
            (previous_found s (last s.rows) tip
              (subst (λ (r : List Object). previous_hash (last r) ≡ ok previous) (sym e) p))
            (subst
              (λ (r : List Object).
                (let base =
                    base_record args (length r + 1) previous effective (sha256_text args.reason) in
                  let record_row = base ++ (text "record_hash", str (digest base)) ∷ [] in
                  ◌≡◌ {A = Result EpochError (Object × LedgerFile)}
                    (ok (record_row, append_line file record_row)) (ok (row, file'))))
              (sym e) h)
