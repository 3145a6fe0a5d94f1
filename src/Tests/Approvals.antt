-- ===== src/Tests/Approvals.antt =====
-- A quorum of one operator. Every text is its own base64 decoding, and a signature verifies when it is
-- the key.
use sara_pro.Prelude.{◌≡◌, refl, List, [], ◌∷◌, some, true, ok, fold_result}
use sara_pro.Prelude.Int.{pos}
use sara_pro.Bytes.{Bytes, Text, text, text_eq, text_in, lower, sorted_set, insert_sorted, without}
use sara_pro.ApprovalQuorum.{
  SignedApproval, Crypto, all_hex, trusted_key, ApprovalReport, canonical_bytes, verify_signature,
  check_approval, verify_approval_quorum,
}
use sara_pro.ApprovalQuorum.Quorum.{Accepted, verify_approval_quorum-Accepted}
use sara_pro.Tests.{ascii, repeat}

abbrev crypto : Crypto
crypto = record {
  tables = ascii;
  parse_time = λ t. some (elim t [ [] ↦ 0 | c ∷ _ ↦ c ]);
  iso = λ n. n ∷ [];
  dump = λ l. [];
  b64u_decode = λ t. some t;
  key_ok = λ key. true;
  verify = λ key signature message. text_eq key signature;
  registry_digest = λ l. text "registry";
}

abbrev approval : SignedApproval
approval = record {
  statement = record {
    intent_sha256 = repeat 64 65;
    approver_id = text "alice";
    role = text "custody";
    issued_at = 5 ∷ [];
    expires_at = 9 ∷ [];
    nonce = text "n1";
    decision = text "APPROVE";
  };
  public_key_b64url = text "key";
  signature_b64url = text "key";
}

abbrev trusted : List (Text × Bytes)
trusted = (text "bob", text "other") ∷ (text "alice", text "key") ∷ []

abbrev report : ApprovalReport
report = record {
  required_count = 1;
  verified_count = 1;
  verified_approvers = text "alice" ∷ [];
  roles = text "custody" ∷ [];
  missing_roles = some [];
  satisfied = true;
  registry_sha256 = some (text "registry");
}

answered :
    verify_approval_quorum crypto
      (repeat 64 97)
      trusted
      5
      (pos 1)
      (text "custody" ∷ [])
      (approval ∷ [])
    ≡ ok report
unfolding verify_approval_quorum check_approval verify_signature canonical_bytes all_hex trusted_key
    fold_result lower text_eq text_in sorted_set insert_sorted without
answered = refl

verify_approval_quorum-Accepted_example :
    Accepted crypto (repeat 64 97) trusted 5 1 (text "custody" ∷ []) (approval ∷ []) report
verify_approval_quorum-Accepted_example =
    verify_approval_quorum-Accepted crypto (repeat 64 97) trusted 5 0 (text "custody" ∷ [])
      (approval ∷ []) answered
