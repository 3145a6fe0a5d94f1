-- ===== src/ApprovalQuorum.antt =====
-- approval_quorum.py: detached operator approvals that must reach a quorum for a release intent. The
-- base64 and ISO-8601 codecs, the canonical JSON and Ed25519 are parameters (`Crypto`); instants are
-- numbers.
pub mod Quorum
use sara_pro.Prelude.{
  ℕ, zero, suc, ◌≡◌, List, [], ◌∷◌, ◌++◌, Option, none, some, Bool, true, false, ◌&&◌, ◌||◌, not,
  All, length, map, ltb, leb, ◌==◌, if◌then◌else◌, Result, ok, err, ◌>>=◌, ◌>>◌, raise_if, or_raise,
  fold_result,
}
use sara_pro.Prelude.Int.{ℤ, pos, negsuc}
use sara_pro.Bytes.{
  sorted_set, without, Bytes, Text, text, text_eq, text_in, text_ltb, lower, CaseTables, is_empty,
}

-- An ApprovalQuorumError by its message.
pub data ApprovalError : Type 0 where
  bad_intent bad_approver_id bad_role bad_nonce not_approve expiry_before_issue bad_time :
      ApprovalError
  negative_count different_intent duplicate_approver nonce_replay not_currently_valid :
      ApprovalError
  not_in_registry bad_base64 key_mismatch signature_failed : ApprovalError

pub record ApprovalStatement : Type 0 where
  pub intent_sha256 : Text
  pub approver_id : Text
  pub role : Text
  pub issued_at : Text
  pub expires_at : Text
  pub nonce : Text
  pub decision : Text

pub record SignedApproval : Type 0 where
  pub statement : ApprovalStatement
  pub public_key_b64url : Text
  pub signature_b64url : Text

-- What the module calls. `parse_time` is `_parse_time` (`none` raises); `iso` prints an instant with
-- `Z`; `dump` is the canonical JSON of named texts; `key_ok` and `verify` are Ed25519's.
pub record Crypto : Type 0 where
  pub tables : CaseTables
  pub parse_time : Text → Option ℕ
  pub iso : ℕ → Text
  pub dump : List (Text × Text) → Bytes
  pub b64u_decode : Text → Option Bytes
  pub key_ok : Bytes → Bool
  pub verify : Bytes → Bytes → Bytes → Bool
  pub registry_digest : List (Text × Bytes) → Text

abbrev pub is_hex_digit : ℕ → Bool
is_hex_digit c = (leb 48 c && leb c 57) || (leb 65 c && leb c 70) || (leb 97 c && leb c 102)

unfoldable pub all_hex : Text → Bool
all_hex [] = true
all_hex (c ∷ t) = is_hex_digit c && all_hex t

-- `not x or len(x) > 128`
abbrev pub bad_name : Text → Bool
bad_name t = is_empty t || ltb 128 (length t)

-- `mapping.get(k)`
unfoldable pub trusted_key : Text → List (Text × Bytes) → Option Bytes
trusted_key k [] = none
trusted_key k ((j, key) ∷ l) = if text_eq j k then some key else trusted_key k l

pub record ApprovalReport : Type 0 where
  pub required_count : ℕ
  pub verified_count : ℕ
  pub verified_approvers : List Text
  pub roles : List Text
  pub missing_roles : Option (List Text)
  pub satisfied : Bool
  pub registry_sha256 : Option Text

-- The lists and sets of the loop.
pub record Tally : Type 0 where
  pub verified : List Text
  pub roles : List Text
  pub seen : List Text
  pub nonces : List Text

abbrev pub no_tally : Tally
no_tally = record { verified = []; roles = []; seen = []; nonces = [] }

module _ (c : Crypto) where
  abbrev pub payload : ApprovalStatement → ℕ → ℕ → List (Text × Text)
  payload st issued expires =
      (text "schema", text "WS-BITCOIN-OPERATOR-APPROVAL-V1")
      ∷ (text "intent_sha256", lower c.tables st.intent_sha256)
      ∷ (text "approver_id", st.approver_id)
      ∷ (text "role", st.role)
      ∷ (text "issued_at", c.iso issued)
      ∷ (text "expires_at", c.iso expires)
      ∷ (text "nonce", st.nonce)
      ∷ (text "decision", st.decision)
      ∷ []

  -- `canonical_bytes`
  unfoldable pub canonical_bytes : ApprovalStatement → Result ApprovalError Bytes
  canonical_bytes st = do
    raise_if (not (length st.intent_sha256 == 64) || not (all_hex st.intent_sha256)) bad_intent
    raise_if (bad_name st.approver_id) bad_approver_id
    raise_if (bad_name st.role) bad_role
    raise_if (bad_name st.nonce) bad_nonce
    raise_if (not (text_eq st.decision (text "APPROVE"))) not_approve
    issued ← or_raise (c.parse_time st.issued_at) bad_time
    expires ← or_raise (c.parse_time st.expires_at) bad_time
    raise_if (leb expires issued) expiry_before_issue
    ok (c.dump (payload st issued expires))

  -- `Ed25519PublicKey.from_public_bytes(key).verify(_b64u_decode(signature), st.canonical_bytes())`
  unfoldable pub verify_signature : Bytes → SignedApproval → Result ApprovalError (Unit {0})
  verify_signature key approval = do
    raise_if (not (c.key_ok key)) signature_failed
    signature ← or_raise (c.b64u_decode approval.signature_b64url) bad_base64
    message ← canonical_bytes approval.statement
    raise_if (not (c.verify key signature message)) signature_failed
    ok tt

  abbrev pub counted : Tally → ApprovalStatement → Tally
  counted t st = record {
    verified = t.verified ++ st.approver_id ∷ [];
    roles = t.roles ++ st.role ∷ [];
    seen = st.approver_id ∷ t.seen;
    nonces = st.nonce ∷ t.nonces;
  }

  module _ (intent : Text) (trusted : List (Text × Bytes)) (current : ℕ) where
    -- The body of the loop of `verify_approval_quorum`.
    unfoldable pub check_approval : Tally → SignedApproval → Result ApprovalError Tally
    check_approval t approval = do
      let st = approval.statement
      raise_if (not (text_eq (lower c.tables st.intent_sha256) (lower c.tables intent)))
          different_intent
      raise_if (text_in st.approver_id t.seen) duplicate_approver
      raise_if (text_in st.nonce t.nonces) nonce_replay
      issued ← or_raise (c.parse_time st.issued_at) bad_time
      expires ← or_raise (c.parse_time st.expires_at) bad_time
      raise_if (ltb current issued || leb expires current) not_currently_valid
      expected_key ← or_raise (trusted_key st.approver_id trusted) not_in_registry
      supplied_key ← or_raise (c.b64u_decode approval.public_key_b64url) bad_base64
      raise_if (not (text_eq supplied_key expected_key)) key_mismatch
      verify_signature supplied_key approval
      ok (counted t st)

    abbrev pub report_of : ℕ → List Text → Tally → ApprovalReport
    report_of required_count required_roles t = record {
      required_count = required_count;
      verified_count = length t.verified;
      verified_approvers = t.verified;
      roles = sorted_set t.roles;
      missing_roles = some (sorted_set (without required_roles t.roles));
      satisfied =
          leb required_count (length t.verified)
          && is_empty (sorted_set (without required_roles t.roles));
      registry_sha256 = some (c.registry_digest trusted);
    }

    -- `verify_approval_quorum`
    unfoldable pub verify_approval_quorum :
        ℤ → List Text → List SignedApproval → Result ApprovalError ApprovalReport
    verify_approval_quorum (negsuc n) required_roles approvals = err negative_count
    verify_approval_quorum (pos zero) required_roles approvals = ok (record {
      required_count = 0;
      verified_count = 0;
      verified_approvers = [];
      roles = [];
      missing_roles = none;
      satisfied = true;
      registry_sha256 = none;
    })
    verify_approval_quorum (pos (suc n)) required_roles approvals = do
      t ← fold_result check_approval no_tally approvals
      ok (report_of (suc n) required_roles t)
