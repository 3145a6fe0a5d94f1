-- ===== src/AwsKms.antt =====
-- The signer on AWS KMS, research/qcrypto_tsv/v3_6/worldshepherd_qcrypto_kms/aws_kms_provider.py: its
-- results, the bytes that it signs and the names of its operations. SHA-256 and the client are parameters.
pub mod Descriptor
pub mod Sign
pub mod Sends
pub mod Replays
pub mod Again
pub mod Bound
pub mod Kept
pub mod Restart
use sara_pro.Prelude.{
  ℕ, ◌+◌, ◌≡◌, List, [], ◌∷◌, ◌++◌, Option, none, some, Bool, true, false, ◌&&◌, ◌||◌, not, length,
  ltb, ◌==◌, if◌then◌else◌, Result, ok, err, ◌>>=◌, ◌>>◌, raise_if, or_raise,
}
use sara_pro.Bytes.{
  Bytes, Text, text, text_eq, text_in, is_empty, to_hex, utf8, big_pair, starts_with, Dict,
  get_item,
}
use sara_pro.Ledger.{Json, null, num, str, other, Object}
use sara_pro.OperationJournal.{JournalError, str_of}

-- Each `raise`, by its message; the five last ones but one are a ProviderAmbiguousOutcome, and
-- `journal_failed` is an exception of the journal that nothing catches.
pub data AwsError : Type 0 where
  context_too_long payload_too_long arn_required arn_invalid arn_fields_invalid : AwsError
  client_raised metadata_omitted wrong_key_spec wrong_key_usage not_enabled : AwsError
  arn_not_text wrong_region wrong_account no_public_key not_advertised : AwsError
  arn_changed public_key_changed operation_mismatch claim_rejected : AwsError
  durable_mismatch invalid_result journal_unreadable : AwsError
  second_sign_forbidden : Text → AwsError
  sign_raised response_mismatch no_signature : AwsError
  journal_failed : JournalError → AwsError
  commit_failed : AwsError

pub data ProviderState : Type 0 where
  signed : ProviderState
  indeterminate : ProviderState

unfoldable pub state_text : ProviderState → Text
state_text signed = text "SIGNED"
state_text indeterminate = text "INDETERMINATE"

-- `ProviderState(s)`
unfoldable pub state_of : Text → Option ProviderState
state_of s =
    if text_eq s (text "SIGNED")
    then some signed
    else if text_eq s (text "INDETERMINATE")
    then some indeterminate
    else none

pub record ProviderResult : Type 0 where
  pub operation_id : Text
  pub state : ProviderState
  pub key_arn : Text
  pub algorithm : Text
  pub message_sha256 : Text
  pub context_sha256 : Text
  pub signature_b64url : Option Text
  pub aws_request_id : Option Text
  pub safe_to_retry : Bool

abbrev pub signing_algorithm : Text
signing_algorithm = text "ML_DSA_SHAKE_256"

-- A value that may be None.
abbrev pub nullable : Option Text → Json
nullable none = null
nullable (some t) = str t

-- A bool; its text is what `str` gives.
abbrev pub bool_json : Bool → Json
bool_json true = other (text "True")
bool_json false = other (text "False")

unfoldable pub to_dict : ProviderResult → Object
to_dict r =
    (text "operation_id", str r.operation_id)
    ∷ (text "state", str (state_text r.state))
    ∷ (text "key_arn", str r.key_arn)
    ∷ (text "algorithm", str r.algorithm)
    ∷ (text "message_sha256", str r.message_sha256)
    ∷ (text "context_sha256", str r.context_sha256)
    ∷ (text "signature_b64url", nullable r.signature_b64url)
    ∷ (text "aws_request_id", nullable r.aws_request_id)
    ∷ (text "safe_to_retry", bool_json r.safe_to_retry)
    ∷ []

-- `str(raw[k])`
unfoldable pub required : Text → Object → Result AwsError Text
required k raw = do v ← or_raise (get_item k raw) invalid_result; ok (str_of v)

-- `None if raw.get(k) is None else str(raw[k])`
unfoldable pub optional : Option Json → Option Text
optional none = none
optional (some null) = none
optional (some (num n)) = some (str_of (num n))
optional (some (str s)) = some s
optional (some (other s)) = some s

-- `bool(raw.get(k, False))`
unfoldable pub truth : Option Json → Bool
truth none = false
truth (some null) = false
truth (some (num n)) = not (n == 0)
truth (some (str s)) = not (is_empty s)
truth (some (other s)) =
    not (text_in s (text "False" ∷ text "0.0" ∷ text "-0.0" ∷ text "[]" ∷ text "{}" ∷ []))

unfoldable pub from_dict : Object → Result AwsError ProviderResult
from_dict raw = do
  operation_id ← required (text "operation_id") raw
  state_word ← required (text "state") raw
  state ← or_raise (state_of state_word) invalid_result
  key_arn ← required (text "key_arn") raw
  algorithm ← required (text "algorithm") raw
  message_sha256 ← required (text "message_sha256") raw
  context_sha256 ← required (text "context_sha256") raw
  ok (record {
    operation_id = operation_id;
    state = state;
    key_arn = key_arn;
    algorithm = algorithm;
    message_sha256 = message_sha256;
    context_sha256 = context_sha256;
    signature_b64url = optional (get_item (text "signature_b64url") raw);
    aws_request_id = optional (get_item (text "aws_request_id") raw);
    safe_to_retry = truth (get_item (text "safe_to_retry") raw);
  })

abbrev pub domain : Bytes
domain = text "WS-QCRYPTO-AWS-KMS-MLDSA65-V1" ++ 0 ∷ []

-- `_domain_message`
unfoldable pub domain_message : Bytes → Bytes → Result AwsError Bytes
domain_message message context = do
  raise_if (ltb 65535 (length context)) context_too_long
  let payload = domain ++ (big_pair (length context) ++ (context ++ message))
  raise_if (ltb 4096 (length payload)) payload_too_long
  ok payload

module _ (sha256 : Bytes → Bytes) where
  unfoldable pub provider_operation_id : Text → Bytes → Bytes → Result AwsError Text
  provider_operation_id key_arn message context = do
    raise_if (not (starts_with (text "arn:") key_arn)) arn_required
    let payload =
        text "WS-QCRYPTO-AWS-KMS-OP-V1"
        ++ (0 ∷ (utf8 key_arn ++ (0 ∷ (sha256 context ++ sha256 message))))
    ok (text "QCRYPTO-AWS-KMS-" ++ to_hex (sha256 payload))

  -- `_binding`
  unfoldable pub binding : Text → Bytes → Bytes → Dict Text
  binding key_arn message context =
      (text "key_arn", key_arn)
      ∷ (text "algorithm", signing_algorithm)
      ∷ (text "message_sha256", to_hex (sha256 message))
      ∷ (text "context_sha256", to_hex (sha256 context))
      ∷ []
