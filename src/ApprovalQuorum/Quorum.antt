-- ===== src/ApprovalQuorum/Quorum.antt =====
-- What an answer of `verify_approval_quorum` guarantees of the approvals it was given.
use sara_pro.Prelude.{
  negated, either_false, both_true, ℕ, suc, ◌≤◌, ◌<◌, ◌≡◌, refl, sym, ap, ◌∙◌, subst, List, [], ◌∷◌,
  ◌++◌, append_assoc, append-nil, some, true, false, ◌||◌, not, arith, All, length, map, ltb, leb,
  leb→le, ltb_false→le, ok, or_raise, fold_result, >>=-eq-ok, >>-eq-ok, ok-injective,
  or_raise-eq-ok,
}
use sara_pro.Prelude.Int.{pos}
use sara_pro.Bytes.{
  sorted_set, sorted_set-empty, without, without-empty, Bytes, Text, text_eq, text_eq→eq, text_in,
  lower, is_empty,
}
use sara_pro.ApprovalQuorum.{
  bad_time, not_in_registry, bad_base64, SignedApproval, Crypto, trusted_key, ApprovalReport, Tally,
  no_tally, canonical_bytes, verify_signature, counted, check_approval, report_of,
  verify_approval_quorum,
}

-- No text of the list stands in `seen`, and none occurs twice.
unfoldable pub Fresh : List Text → List Text → Type 0
Fresh seen [] = Unit
Fresh seen (t ∷ l) = (text_in t seen ≡ false) × Fresh (t ∷ seen) l

-- The approval names the intent, is within its time, and carries the trusted key of its approver and
-- that key's signature of its statement.
pub record Vouched (c : Crypto) (intent : Text) (trusted : List (Text × Bytes)) (current : ℕ)
    (approval : SignedApproval) : Type 0 where
  pub intent_same : lower c.tables approval.statement.intent_sha256 ≡ lower c.tables intent
  pub issued : ℕ
  pub issued_at : c.parse_time approval.statement.issued_at ≡ some issued
  pub issued_before : issued ≤ current
  pub expires : ℕ
  pub expires_at : c.parse_time approval.statement.expires_at ≡ some expires
  pub expires_after : current < expires
  pub key : Bytes
  pub key_trusted : trusted_key approval.statement.approver_id trusted ≡ some key
  pub key_supplied : c.b64u_decode approval.public_key_b64url ≡ some key
  pub signature : Bytes
  pub signature_supplied : c.b64u_decode approval.signature_b64url ≡ some signature
  pub message : Bytes
  pub message_signed : canonical_bytes c approval.statement ≡ ok message
  pub verified : c.verify key signature message ≡ true

leb_false→lt : (a b : ℕ) → leb a b ≡ false → b < a
leb_false→lt a b h = ground arith

module _ (c : Crypto) (intent : Text) (trusted : List (Text × Bytes)) (current : ℕ) where
  -- What one round of the loop has checked.
  check_approval-ok :
      (t : Tally) (a : SignedApproval) {t' : Tally}
      → check_approval c intent trusted current t a ≡ ok t'
      → Vouched c intent trusted current a
        × (text_in a.statement.approver_id t.seen ≡ false)
        × (text_in a.statement.nonce t.nonces ≡ false)
        × (t' ≡ counted c t a.statement)
  unfolding check_approval verify_signature
  check_approval-ok t a h =
      let st = a.statement in
      let (i, h1) =
        >>-eq-ok (not (text_eq (lower c.tables st.intent_sha256) (lower c.tables intent))) _ _ h in
      let (d, h2) = >>-eq-ok (text_in st.approver_id t.seen) _ _ h1 in
      let (n, h3) = >>-eq-ok (text_in st.nonce t.nonces) _ _ h2 in
      let (issued, ie, h4) = >>=-eq-ok (or_raise (c.parse_time st.issued_at) bad_time) _ h3 in
      let (expires, ee, h5) = >>=-eq-ok (or_raise (c.parse_time st.expires_at) bad_time) _ h4 in
      let (now, h6) = >>-eq-ok (ltb current issued || leb expires current) _ _ h5 in
      let (key, ke, h7) =
        >>=-eq-ok (or_raise (trusted_key st.approver_id trusted) not_in_registry) _ h6 in
      let (supplied, se, h8) =
        >>=-eq-ok (or_raise (c.b64u_decode a.public_key_b64url) bad_base64) _ h7 in
      let (m, h9) = >>-eq-ok (not (text_eq supplied key)) _ _ h8 in
      let (_, ve, h10) = >>=-eq-ok (verify_signature c supplied a) _ h9 in
      let (_, v1) = >>-eq-ok (not (c.key_ok supplied)) _ _ ve in
      let (signature, sg, v2) =
        >>=-eq-ok (or_raise (c.b64u_decode a.signature_b64url) bad_base64) _ v1 in
      let (message, mg, v3) = >>=-eq-ok (canonical_bytes c st) _ v2 in
      let (good, _) = >>-eq-ok (not (c.verify supplied signature message)) _ _ v3 in
      let now' = either_false (ltb current issued) (leb expires current) now in
      let same = text_eq→eq supplied key (negated (text_eq supplied key) m) in
      (
        record {
          intent_same =
              text_eq→eq _ _
                (negated (text_eq (lower c.tables st.intent_sha256) (lower c.tables intent)) i);
          issued = issued;
          issued_at = or_raise-eq-ok _ _ ie;
          issued_before = ltb_false→le current issued now'.0;
          expires = expires;
          expires_at = or_raise-eq-ok _ _ ee;
          expires_after = leb_false→lt expires current now'.1;
          key = supplied;
          key_trusted = or_raise-eq-ok _ _ ke ∙ ap some (sym same);
          key_supplied = or_raise-eq-ok _ _ se;
          signature = signature;
          signature_supplied = or_raise-eq-ok _ _ sg;
          message = message;
          message_signed = mg;
          verified = negated (c.verify supplied signature message) good;
        },
        d,
        n,
        sym (ok-injective h10),
      )

  -- What the whole loop has checked, from any tally.
  record Checked (t t' : Tally) (approvals : List SignedApproval) : Type 0 where
    pub vouched : All (Vouched c intent trusted current) approvals
    pub approvers : Fresh t.seen (map (λ a. a.statement.approver_id) approvals)
    pub fresh_nonces : Fresh t.nonces (map (λ a. a.statement.nonce) approvals)
    pub verified : t'.verified ≡ t.verified ++ map (λ a. a.statement.approver_id) approvals
    pub roles : t'.roles ≡ t.roles ++ map (λ a. a.statement.role) approvals

  loop-Checked :
      (t : Tally) (approvals : List SignedApproval) {t' : Tally}
      → fold_result (check_approval c intent trusted current) t approvals ≡ ok t'
      → Checked t t' approvals
  unfolding fold_result Fresh
  loop-Checked t [] h = record {
    vouched = tt;
    approvers = tt;
    fresh_nonces = tt;
    verified = sym (ap (λ u. u.verified) (ok-injective h)) ∙ sym (append-nil t.verified);
    roles = sym (ap (λ u. u.roles) (ok-injective h)) ∙ sym (append-nil t.roles);
  }
  loop-Checked t (a ∷ approvals) {t'} h =
      let (u, e, h1) = >>=-eq-ok (check_approval c intent trusted current t a) _ h in
      let (v, d, n, same) = check_approval-ok t a e in
      let rest = subst (λ (w : Tally). Checked w t' approvals) same (loop-Checked u approvals h1) in
      record {
        vouched = (v, rest.vouched);
        approvers = (d, rest.approvers);
        fresh_nonces = (n, rest.fresh_nonces);
        verified = rest.verified ∙ append_assoc t.verified (a.statement.approver_id ∷ []) _;
        roles = rest.roles ∙ append_assoc t.roles (a.statement.role ∷ []) _;
      }

-- What an answer says of the approvals: each is vouched for, no approver and no nonce occurs twice, the
-- answer names the approvers in order, and a satisfied answer has enough approvals and every role.
pub record Accepted (c : Crypto) (intent : Text) (trusted : List (Text × Bytes))
    (current required_count : ℕ) (required_roles : List Text) (approvals : List SignedApproval)
    (report : ApprovalReport) : Type 0 where
  pub vouched : All (Vouched c intent trusted current) approvals
  pub approvers : Fresh [] (map (λ a. a.statement.approver_id) approvals)
  pub fresh_nonces : Fresh [] (map (λ a. a.statement.nonce) approvals)
  pub named : report.verified_approvers ≡ map (λ a. a.statement.approver_id) approvals
  pub enough :
      report.satisfied ≡ true
      → (required_count ≤ length approvals)
        × All (λ r. text_in r (map (λ a. a.statement.role) approvals) ≡ true) required_roles

length-map : {A B : Type 0} (f : A → B) (l : List A) → length (map f l) ≡ length l
length-map f [] = refl
length-map f (a ∷ l) = ap suc (length-map f l)

module _ (c : Crypto) (intent : Text) (trusted : List (Text × Bytes)) (current : ℕ) where
  report_enough :
      (n : ℕ) (required_roles : List Text) (approvals : List SignedApproval) (t : Tally)
      → Checked c intent trusted current no_tally t approvals
      → (report_of c intent trusted current n required_roles t).satisfied ≡ true
      → (n ≤ length approvals)
        × All (λ r. text_in r (map (λ a. a.statement.role) approvals) ≡ true) required_roles
  report_enough n required_roles approvals t done h =
      let (many, covered) =
        both_true (leb n (length t.verified))
          (is_empty (sorted_set (without required_roles t.roles))) h in
      (
        subst (λ (k : ℕ). n ≤ k)
            (ap length done.verified ∙ length-map (λ a. a.statement.approver_id) approvals)
            (leb→le _ _ many),
        subst (λ (l : List Text). All (λ r. text_in r l ≡ true) required_roles) done.roles
            (without-empty required_roles t.roles (sorted_set-empty _ covered)),
      )

  -- When a positive count is required and `verify_approval_quorum` answers, then each of the approvals
  -- names the intent, is within its time and carries a signature of its statement that verifies under
  -- the key that the registry trusts for its approver; no approver and no nonce occurs twice; and if the
  -- answer is `satisfied`, there are at least as many approvals as required and every required role
  -- occurs.
  pub verify_approval_quorum-Accepted :
      (n : ℕ) (required_roles : List Text) (approvals : List SignedApproval)
      {report : ApprovalReport}
      → verify_approval_quorum c intent trusted current (pos (suc n)) required_roles approvals
        ≡ ok report
      → Accepted c intent trusted current (suc n) required_roles approvals report
  unfolding verify_approval_quorum
  verify_approval_quorum-Accepted n required_roles approvals h =
      let (t, e, h1) =
        >>=-eq-ok (fold_result (check_approval c intent trusted current) no_tally approvals) _ h in
      let done = loop-Checked c intent trusted current no_tally approvals e in
      subst
        (λ (r : ApprovalReport).
          Accepted c intent trusted current (suc n) required_roles approvals r)
        (ok-injective h1)
        (record {
          vouched = done.vouched;
          approvers = done.approvers;
          fresh_nonces = done.fresh_nonces;
          named = done.verified;
          enough = report_enough (suc n) required_roles approvals t done;
        })
