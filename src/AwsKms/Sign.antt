-- ===== src/AwsKms/Sign.antt =====
-- `begin_sign` in its two halves, before and after the request to KMS, and `reconcile`.
use sara_pro.Prelude.{
  [], ◌∷◌, Option, none, some, Bool, true, false, ◌||◌, not, if◌then◌else◌, Result, ok, err, ◌>>=◌,
  ◌>>◌, raise_if, map_err,
}
use sara_pro.Bytes.{Bytes, Text, text_eq, is_empty, to_hex, base64url, Dict, get_item}
use sara_pro.Ledger.{Object, is_str}
use sara_pro.OperationJournal.{JournalRecord, Journal, signed_state}
use sara_pro.OperationJournal.Operations.{get, claim_for_sign, mark_signed, mark_indeterminate}
use sara_pro.AwsKms.{
  AwsError, operation_mismatch, claim_rejected, durable_mismatch, journal_unreadable,
  second_sign_forbidden, sign_raised, response_mismatch, no_signature, journal_failed,
  commit_failed, ProviderState, signed, indeterminate, ProviderResult, signing_algorithm, to_dict,
  from_dict, domain_message, provider_operation_id, binding,
}
use sara_pro.AwsKms.Descriptor.{
  SignResponse, KmsClient, AwsKmsDescriptor, usable_bytes, assert_descriptor_unchanged,
}

-- What a call may change: the journal's files, and the results that the provider has in memory.
pub record World : Type 0 where
  pub journal : Option Journal
  pub completed : Dict ProviderResult

-- What a provider is built with.
pub record Provider : Type 0 where
  pub descriptor : AwsKmsDescriptor
  pub refresh_descriptor_before_sign : Bool

-- The arguments of begin_sign.
pub record Signing : Type 0 where
  pub operation_id : Text
  pub message : Bytes
  pub context : Bytes

-- Where the first half ends: with a result, or at the request to sign a payload.
pub data Prepared : Type 0 where
  answered : ProviderResult → World → Prepared
  request : Bytes → World → Prepared

-- `self._completed[operation_id] = result`
abbrev pub remember : World → Text → ProviderResult → World
remember w id r = record w { completed = (id, r) ∷ w.completed }

abbrev pub is_signed : ProviderState → Bool
is_signed signed = true
is_signed indeterminate = false

-- `not result.signature_b64url`
abbrev pub lacks_signature : Option Text → Bool
lacks_signature none = true
lacks_signature (some t) = is_empty t

module _ (sha256 : Bytes → Bytes) (repr : Object → Text) where
  unfoldable pub is_mismatched : Provider → Signing → ProviderResult → Bool
  is_mismatched p s r =
      not (text_eq r.operation_id s.operation_id)
      || not (text_eq r.key_arn p.descriptor.key_arn)
      || not (text_eq r.algorithm signing_algorithm)
      || not (text_eq r.message_sha256 (to_hex (sha256 s.message)))
      || not (text_eq r.context_sha256 (to_hex (sha256 s.context)))
      || not (is_signed r.state)
      || lacks_signature r.signature_b64url

  -- `if not created`: the recorded result, or no second request.
  unfoldable pub recover :
      Provider → Signing → World → JournalRecord → Option Object → Result AwsError Prepared
  recover p s w prior none = err (second_sign_forbidden prior.state)
  recover p s w prior (some raw) = do
    raise_if (not (text_eq prior.state signed_state)) (second_sign_forbidden prior.state)
    r ← from_dict raw
    raise_if (is_mismatched p s r) durable_mismatch
    ok (answered r (remember w s.operation_id r))

  unfoldable pub claimed :
      Provider → Signing → World → Bytes → JournalRecord × Bool × Journal → Result AwsError Prepared
  claimed p s w payload (prior, true, j) = ok (request payload (record w { journal = some j }))
  claimed p s w payload (prior, false, j) = recover p s w prior prior.result

  unfoldable pub claim_or_request :
      Text → Provider → Signing → World → Bytes → Option Journal → Result AwsError Prepared
  claim_or_request now p s w payload none = ok (request payload w)
  claim_or_request now p s w payload (some j) = do
    c ←
        map_err (λ e. claim_rejected)
          (claim_for_sign repr now j s.operation_id
            (binding sha256 p.descriptor.key_arn s.message s.context))
    claimed p s w payload c

  unfoldable pub unless_completed :
      Text
      → KmsClient
      → Provider
      → Signing
      → World
      → Option ProviderResult
      → Result AwsError Prepared
  unless_completed now client p s w (some r) = ok (answered r w)
  unless_completed now client p s w none = do
    payload ← domain_message s.message s.context
    if p.refresh_descriptor_before_sign
        then assert_descriptor_unchanged sha256 client p.descriptor
        else ok tt
    claim_or_request now p s w payload w.journal

  -- `begin_sign` up to the request
  unfoldable pub prepare : Text → KmsClient → Provider → Signing → World → Result AwsError Prepared
  prepare now client p s w = do
    expected ← provider_operation_id sha256 p.descriptor.key_arn s.message s.context
    raise_if (not (text_eq s.operation_id expected)) operation_mismatch
    unless_completed now client p s w (get_item s.operation_id w.completed)

  -- An outcome with what the call has changed, also where it raises.
  abbrev pub Outcome : Type 0
  Outcome = Result AwsError ProviderResult × World

  abbrev pub key_binding : Provider → Signing → Dict Text
  key_binding p s = binding sha256 p.descriptor.key_arn s.message s.context

  -- `mark_indeterminate` and the exception behind it
  unfoldable pub give_up : Text → Provider → Signing → World → AwsError → Option Journal → Outcome
  give_up now p s w e none = (err e, w)
  give_up now p s w e (some j) =
      elim (mark_indeterminate repr now j s.operation_id (key_binding p s)) [
        | err x ↦ (err (journal_failed x), w)
        | ok t ↦ (err e, record w { journal = some t.1 })
      ]

  abbrev pub result_of : Provider → Signing → Bytes → Option Text → ProviderResult
  result_of p s signature request_id = record {
    operation_id = s.operation_id;
    state = signed;
    key_arn = p.descriptor.key_arn;
    algorithm = signing_algorithm;
    message_sha256 = to_hex (sha256 s.message);
    context_sha256 = to_hex (sha256 s.context);
    signature_b64url = some (base64url signature);
    aws_request_id = request_id;
    safe_to_retry = false;
  }

  -- `mark_signed`, then the memory
  unfoldable pub finish :
      Text → Provider → Signing → World → ProviderResult → Option Journal → Outcome
  finish now p s w r none = (ok r, remember w s.operation_id r)
  finish now p s w r (some j) =
      elim (mark_signed repr now j s.operation_id (key_binding p s) (to_dict r)) [
        | err x ↦ (err commit_failed, w)
        | ok t ↦ (ok r, remember (record w { journal = some t.1 }) s.operation_id r)
      ]

  unfoldable pub accept : Provider → SignResponse → Result AwsError Bytes
  accept p response = do
    raise_if
        (not (is_str response.key_id p.descriptor.key_arn)
          || not (is_str response.algorithm signing_algorithm))
        response_mismatch
    usable_bytes response.signature no_signature

  -- `begin_sign` behind the request
  unfoldable pub conclude : Text → Provider → Signing → World → Option SignResponse → Outcome
  conclude now p s w none = give_up now p s w sign_raised w.journal
  conclude now p s w (some response) = elim (accept p response) [
    | err e ↦ give_up now p s w e w.journal
    | ok signature ↦ finish now p s w (result_of p s signature response.request_id) w.journal
  ]

  -- `begin_sign`, with the times of its two writes
  unfoldable pub begin_sign : Text → Text → KmsClient → Provider → Signing → World → Outcome
  begin_sign now later client p s w = elim (prepare now client p s w) [
    | err e ↦ (err e, w)
    | ok (answered r w') ↦ (ok r, w')
    | ok (request payload w') ↦ conclude later p s w' (client.sign p.descriptor.key_arn payload)
  ]

  abbrev pub unresolved : Provider → Text → ProviderResult
  unresolved p id = record {
    operation_id = id;
    state = indeterminate;
    key_arn = p.descriptor.key_arn;
    algorithm = signing_algorithm;
    message_sha256 = [];
    context_sha256 = [];
    signature_b64url = none;
    aws_request_id = none;
    safe_to_retry = false;
  }

  unfoldable pub recorded : Provider → Text → World → Option JournalRecord → Outcome
  recorded p id w none = (ok (unresolved p id), w)
  recorded p id w (some prior) = elim prior.result [
    | none ↦ (ok (unresolved p id), w)
    | some raw ↦
        if text_eq prior.state signed_state
        then elim (from_dict raw) as (λ _. Outcome) [
          | err e ↦ (err e, w)
          | ok r ↦ (ok r, remember w id r)
        ]
        else (ok (unresolved p id), w)
  ]

  unfoldable pub reconcile : Provider → Text → World → Outcome
  reconcile p id w = elim (get_item id w.completed) [
    | some r ↦ (ok r, w)
    | none ↦ elim w.journal [
      | none ↦ (ok (unresolved p id), w)
      | some j ↦ elim (get repr j id) [
        | err e ↦ (err journal_unreadable, w)
        | ok prior ↦ recorded p id w prior
      ]
    ]
  ]
