-- ===== src/AwsKms/Replays.antt =====
-- What begin_sign returns: a result of its own inputs, now and when it is asked again.
use sara_pro.Prelude.{
  ◌≡◌, refl, subst, [], ◌∷◌, Option, none, some, Bool, true, false, ◌||◌, not, either_false,
  negated, ok, >>-eq-ok, ok-injective,
}
use sara_pro.Bytes.{
  Bytes, Text, text_eq, text_eq_refl, text_eq→eq, text_in, is_empty, to_hex, base64url, get_item,
}
use sara_pro.Ledger.{Object, is_str}
use sara_pro.OperationJournal.{str_of}
use sara_pro.AwsKms.{
  AwsError, ProviderState, signed, indeterminate, state_text, state_of, ProviderResult,
  signing_algorithm, nullable, bool_json, to_dict, required, optional, truth, from_dict,
}
use sara_pro.AwsKms.Descriptor.{SignResponse, usable_bytes}
use sara_pro.AwsKms.Sign.{
  Provider, Signing, is_signed, lacks_signature, is_mismatched, result_of, accept,
}

state_of-state_text : (s : ProviderState) → state_of (state_text s) ≡ some s
unfolding state_of state_text text_eq
state_of-state_text signed = refl
state_of-state_text indeterminate = refl

optional-nullable : (o : Option Text) → optional (some (nullable o)) ≡ o
unfolding optional
optional-nullable none = refl
optional-nullable (some t) = refl

truth-bool_json : (b : Bool) → truth (some (bool_json b)) ≡ b
unfolding truth text_in text_eq
truth-bool_json true = refl
truth-bool_json false = refl

-- A result that is written to the journal is read back as it was.
pub from_dict-to_dict : (r : ProviderResult) → from_dict (to_dict r) ≡ ok r
unfolding from_dict to_dict required get_item text_eq str_of
from_dict-to_dict r =
    rw
      (
        state_of-state_text r.state,
        optional-nullable r.signature_b64url,
        optional-nullable r.aws_request_id,
        truth-bool_json r.safe_to_retry,
      )
      refl

is_empty-base64url : (b : Bytes) → is_empty b ≡ false → is_empty (base64url b) ≡ false
unfolding base64url
is_empty-base64url [] h = h
is_empty-base64url (a ∷ []) h = refl
is_empty-base64url (a ∷ b ∷ []) h = refl
is_empty-base64url (a ∷ b ∷ c ∷ s) h = refl

module _ (sha256 : Bytes → Bytes) where
  -- A result of the provider's key, of these inputs, with a signature.
  pub record BoundTo (p : Provider) (s : Signing) (r : ProviderResult) : Type 0 where
    pub operation : r.operation_id ≡ s.operation_id
    pub key : r.key_arn ≡ p.descriptor.key_arn
    pub algorithm : r.algorithm ≡ signing_algorithm
    pub message : r.message_sha256 ≡ to_hex (sha256 s.message)
    pub context : r.context_sha256 ≡ to_hex (sha256 s.context)
    pub completed : r.state ≡ signed
    pub signature : lacks_signature r.signature_b64url ≡ false

  module _ (repr : Object → Text) where
    pub is_mismatched-BoundTo :
        (p : Provider) (s : Signing) (r : ProviderResult)
        → is_mismatched sha256 repr p s r ≡ false
        → BoundTo p s r
    unfolding is_mismatched
    is_mismatched-BoundTo p s r h =
        let (h1, g) = either_false _ (lacks_signature r.signature_b64url) h in
        let (h2, f) = either_false _ (not (is_signed r.state)) h1 in
        let (h3, e) =
          either_false _ (not (text_eq r.context_sha256 (to_hex (sha256 s.context)))) h2 in
        let (h4, d) =
          either_false _ (not (text_eq r.message_sha256 (to_hex (sha256 s.message)))) h3 in
        let (h5, c) = either_false _ (not (text_eq r.algorithm signing_algorithm)) h4 in
        let (a, b) =
          either_false (not (text_eq r.operation_id s.operation_id))
            (not (text_eq r.key_arn p.descriptor.key_arn)) h5 in
        record {
          operation = equal a;
          key = equal b;
          algorithm = equal c;
          message = equal d;
          context = equal e;
          completed = by_state r.state f;
          signature = g;
        }
      where
        equal : {t u : Text} → not (text_eq t u) ≡ false → t ≡ u
        equal {t} {u} h = text_eq→eq t u (negated (text_eq t u) h)

        by_state : (x : ProviderState) → not (is_signed x) ≡ false → x ≡ signed
        by_state signed h = refl
        by_state indeterminate h = absurd (cc h)

    pub BoundTo-is_mismatched :
        (p : Provider) (s : Signing) (r : ProviderResult)
        → BoundTo p s r
        → is_mismatched sha256 repr p s r ≡ false
    unfolding is_mismatched
    BoundTo-is_mismatched p s r b =
        rw
          (
            b.operation,
            b.key,
            b.algorithm,
            b.message,
            b.context,
            b.completed,
            b.signature,
            text_eq_refl s.operation_id,
            text_eq_refl p.descriptor.key_arn,
            text_eq_refl signing_algorithm,
            text_eq_refl (to_hex (sha256 s.message)),
            text_eq_refl (to_hex (sha256 s.context)),
          )
          refl

    pub accept-BoundTo :
        (p : Provider) (s : Signing) (response : SignResponse) {signature : Bytes}
        → accept sha256 repr p response ≡ ok signature
        → BoundTo p s (result_of sha256 repr p s signature response.request_id)
    unfolding accept usable_bytes
    accept-BoundTo p s response h =
        let (_, h1) =
          >>-eq-ok
            (not (is_str response.key_id p.descriptor.key_arn)
              || not (is_str response.algorithm signing_algorithm))
            _ _ h in
        record {
          operation = refl;
          key = refl;
          algorithm = refl;
          message = refl;
          context = refl;
          completed = refl;
          signature = is_empty-base64url _ (nonempty response.signature h1);
        }
      where
        nonempty :
            (o : Option Bytes) {b : Bytes}
            → usable_bytes o AwsError.no_signature ≡ ok b
            → is_empty b ≡ false
        nonempty none h = absurd (cc h)
        nonempty (some c) h =
            let (e, h1) = >>-eq-ok (is_empty c) _ _ h in
            subst (λ (t : Bytes). is_empty t ≡ false) (ok-injective h1) e
