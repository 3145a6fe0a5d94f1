-- ===== src/Tests/Kms.antt =====
-- A signature that KMS makes, seen by several workers and again after a restart.
use sara_pro.Prelude.{
  ℕ, ◌≤◌, ◌≡◌, refl, List, [], ◌∷◌, ◌++◌, Option, none, some, Bool, true, false, ok,
}
use sara_pro.Bytes.{Bytes, Text, text, text_eq, Dict, get_item, to_hex, base64url}
use sara_pro.Ledger.{str}
use sara_pro.OperationJournal.{missing, Journal, signed_state, put}
use sara_pro.OperationJournal.Operations.{entry}
use sara_pro.OperationJournal.Serve.{lose, path, file_of, serve_all}
use sara_pro.AwsKms.{ProviderResult, signing_algorithm, to_dict, from_dict, binding}
use sara_pro.AwsKms.Descriptor.{SignResponse, KmsClient, AwsKmsDescriptor}
use sara_pro.AwsKms.Sign.{World, Provider, Signing, begin_sign, remember, result_of, key_binding}
use sara_pro.AwsKms.Sends.{Event, begin, other_call, over, sends, sends_once}
use sara_pro.AwsKms.Replays.{BoundTo}
use sara_pro.AwsKms.Bound.{Origin, begin_sign-BoundTo}
use sara_pro.AwsKms.Restart.{begin_sign_again}
use sara_pro.Tests.Journal.{braces, empty}

abbrev hash : Bytes → Bytes
hash b = []

abbrev arn : Text
arn = text "arn:aws:kms:k"

abbrev signer : Provider
signer = record {
  descriptor = record {
    key_id = text "k";
    key_arn = arn;
    aws_account_id = [];
    region = text "r";
    public_key_der_sha256 = [];
    public_key_der_b64url = [];
  };
  refresh_descriptor_before_sign = false;
}

abbrev signing : Signing
signing = record { operation_id = text "QCRYPTO-AWS-KMS-"; message = 1 ∷ []; context = [] }

abbrev answering : KmsClient
answering = record {
  describe_key = λ k. none;
  get_public_key = λ k. none;
  sign = λ k m. some (record {
    key_id = some (str arn);
    algorithm = some (str signing_algorithm);
    signature = some (7 ∷ []);
    request_id = none;
  });
}

abbrev failing : KmsClient
failing = record { describe_key = λ k. none; get_public_key = λ k. none; sign = λ k m. none }

abbrev events : List Event
events =
    begin (text "t0") failing signer signing []
    ∷ other_call (lose (text "t1") signing.operation_id (key_binding hash braces signer signing))
    ∷ begin (text "t2") answering signer signing []
    ∷ []

sends_once_example : sends hash braces signing.operation_id empty events ≤ 1
sends_once_example = sends_once hash braces signing.operation_id empty events

abbrev signature : ProviderResult
signature = result_of hash braces signer signing (7 ∷ []) none

abbrev inputs : Dict Text
inputs = key_binding hash braces signer signing

abbrev after_signing : Journal
after_signing = record empty {
  slots =
      put
        (put empty.slots (path signing.operation_id)
          (file_of (entry (text "t0") signing.operation_id (text "IN_FLIGHT") inputs none)))
        (path signing.operation_id)
        (file_of
          (entry (text "t1") signing.operation_id signed_state inputs (some (to_dict signature))));
}

signed_once :
    ◌≡◌ {A = sara_pro.Prelude.Result sara_pro.AwsKms.AwsError ProviderResult × World}
      (begin_sign hash braces (text "t0") (text "t1") answering signer signing (over empty []))
      (ok signature, remember (over after_signing []) signing.operation_id signature)
unfolding begin_sign sara_pro.AwsKms.Sign.prepare sara_pro.AwsKms.provider_operation_id
    sara_pro.Bytes.starts_with text_eq sara_pro.Bytes.utf8 sara_pro.Bytes.utf8_char to_hex get_item
    sara_pro.AwsKms.Sign.unless_completed sara_pro.AwsKms.domain_message sara_pro.Bytes.big_pair
    sara_pro.AwsKms.Sign.claim_or_request sara_pro.OperationJournal.Operations.claim_for_sign
    sara_pro.OperationJournal.Operations.read_unlocked sara_pro.OperationJournal.safe_name
    sara_pro.OperationJournal.unsafe_name sara_pro.Bytes.char_in put
    sara_pro.OperationJournal.Operations.read_slot sara_pro.OperationJournal.Operations.claim_after
    sara_pro.OperationJournal.Operations.commit sara_pro.OperationJournal.Operations.write_unlocked
    sara_pro.AwsKms.Sign.claimed sara_pro.AwsKms.Sign.conclude sara_pro.AwsKms.Sign.accept
    sara_pro.AwsKms.Descriptor.usable_bytes sara_pro.AwsKms.Sign.finish
    sara_pro.OperationJournal.Operations.mark_signed sara_pro.OperationJournal.Operations.sign_after
    sara_pro.OperationJournal.assert_binding sara_pro.Bytes.dict_eq sara_pro.Bytes.agree
    sara_pro.Bytes.option_eq sara_pro.OperationJournal.str_values
    sara_pro.OperationJournal.json_values sara_pro.OperationJournal.str_of
    sara_pro.OperationJournal.to_dict sara_pro.OperationJournal.Operations.binding_of
    sara_pro.OperationJournal.Operations.result_of sara_pro.OperationJournal.Operations.str_field
    sara_pro.OperationJournal.Operations.complete binding to_dict base64url
    sara_pro.Bytes.base64_char sara_pro.AwsKms.state_text
signed_once = refl

begin_sign-BoundTo_example :
    BoundTo hash signer signing signature
    × Origin hash braces (text "t0") answering signer signing (over empty []) signature
unfolding get_item
begin_sign-BoundTo_example =
    begin_sign-BoundTo hash braces (text "t0") (text "t1") answering signer signing (over empty [])
      nothing_in_memory (sara_pro.Prelude.ap (λ t. t.0) signed_once)
  where
    nothing_in_memory :
        (r : ProviderResult)
        → get_item signing.operation_id [] ≡ some r
        → BoundTo hash signer signing r
    nothing_in_memory r h = absurd (cc h)

begin_sign_again_example :
    (j : Journal) × ((remember (over after_signing []) signing.operation_id signature).journal
      ≡ some j)
    × (begin_sign hash braces
          (text "t8")
          (text "t9")
          failing
          signer
          signing
          (over (serve_all braces j (lose (text "t2") signing.operation_id inputs ∷ [])) [])
        ≡ (
          ok signature,
          remember
              (over (serve_all braces j (lose (text "t2") signing.operation_id inputs ∷ [])) [])
              signing.operation_id
              signature,
        ))
unfolding get_item
begin_sign_again_example =
    begin_sign_again hash braces (text "t0") (text "t1") (text "t8") (text "t9") answering failing
      signer signing empty [] [] (lose (text "t2") signing.operation_id inputs ∷ []) refl
      signed_once refl refl
