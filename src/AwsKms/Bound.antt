-- ===== src/AwsKms/Bound.antt =====
-- Every answer of begin_sign is a result of its own inputs, and where it comes from.
use sara_pro.Prelude.{
  ◌≡◌, refl, ap, subst, Option, none, some, Bool, true, false, ◌||◌, not, if◌then◌else◌, Result, ok,
  err, map_err, map_err-eq-ok, either_false, negated, >>=-eq-ok, >>-eq-ok, ok-injective,
}
use sara_pro.Bytes.{Bytes, Text, text_eq, text_eq→eq, is_empty, base64url, get_item}
use sara_pro.Ledger.{Json, null, num, str, other, Object, is_str}
use sara_pro.OperationJournal.{JournalRecord, Journal, signed_state}
use sara_pro.OperationJournal.Operations.{claim_for_sign}
use sara_pro.AwsKms.{
  AwsError, claim_rejected, ProviderResult, signing_algorithm, from_dict, domain_message,
  provider_operation_id,
}
use sara_pro.AwsKms.Descriptor.{SignResponse, KmsClient, usable_bytes, assert_descriptor_unchanged}
use sara_pro.AwsKms.Sign.{
  World, Provider, Signing, Prepared, answered, request, is_mismatched, recover, claimed,
  claim_or_request, unless_completed, prepare, key_binding, Outcome, result_of, accept, conclude,
  begin_sign,
}
use sara_pro.AwsKms.Replays.{BoundTo, is_mismatched-BoundTo, accept-BoundTo}
use sara_pro.AwsKms.Again.{conclude-accept}

module _ (sha256 : Bytes → Bytes) (repr : Object → Text) where
  -- An answer of KMS to the request to sign the inputs' payload, which names the pinned key and the
  -- signing algorithm, with the signature that the result holds.
  pub record AnswerOf (client : KmsClient) (p : Provider) (s : Signing) (r : ProviderResult)
      : Type 0 where
    pub payload : Bytes
    pub spelled : domain_message s.message s.context ≡ ok payload
    pub response : SignResponse
    pub asked : client.sign p.descriptor.key_arn payload ≡ some response
    pub key : response.key_id ≡ some (str p.descriptor.key_arn)
    pub algorithm : response.algorithm ≡ some (str signing_algorithm)
    pub signature : Bytes
    pub signed_by : response.signature ≡ some signature
    pub some_bytes : is_empty signature ≡ false
    pub kept : r.signature_b64url ≡ some (base64url signature)

  -- A result that the journal held as SIGNED under the inputs' binding.
  pub record Recorded (now : Text) (p : Provider) (s : Signing) (w : World) (r : ProviderResult)
      : Type 0 where
    pub j : Journal
    pub used : w.journal ≡ some j
    pub prior : JournalRecord
    pub j' : Journal
    pub claim :
        claim_for_sign repr now j s.operation_id (key_binding sha256 repr p s)
        ≡ ok (prior, false, j')
    pub state : prior.state ≡ signed_state
    pub raw : Object
    pub result : prior.result ≡ some raw
    pub reads : from_dict raw ≡ ok r

  -- Where a result comes from.
  pub data Origin (now : Text) (client : KmsClient) (p : Provider) (s : Signing) (w : World)
      (r : ProviderResult) : Type 0 where
    remembered : get_item s.operation_id w.completed ≡ some r → Origin now client p s w r
    recorded_before : Recorded now p s w r → Origin now client p s w r
    received : AnswerOf client p s r → Origin now client p s w r

  is_str-eq : (o : Option Json) (t : Text) → is_str o t ≡ true → o ≡ some (str t)
  is_str-eq (some (str u)) t h = ap (λ v. some (str v)) (text_eq→eq u t h)
  is_str-eq none t h = absurd (cc h)
  is_str-eq (some null) t h = absurd (cc h)
  is_str-eq (some (num n)) t h = absurd (cc h)
  is_str-eq (some (other u)) t h = absurd (cc h)

  usable :
      (o : Option Bytes) (e : AwsError) {b : Bytes}
      → usable_bytes o e ≡ ok b
      → (o ≡ some b) × (is_empty b ≡ false)
  unfolding usable_bytes
  usable none e h = absurd (cc h)
  usable (some b) e h =
      let (full, h1) = >>-eq-ok (is_empty b) _ _ h in
      let same = ok-injective h1 in
      (ap some same, subst (λ (c : Bytes). is_empty c ≡ false) same full)

  accept-AnswerOf :
      (client : KmsClient) (p : Provider) (s : Signing) (payload : Bytes) (response : SignResponse)
      {signature : Bytes}
      → domain_message s.message s.context ≡ ok payload
      → client.sign p.descriptor.key_arn payload ≡ some response
      → accept sha256 repr p response ≡ ok signature
      → AnswerOf client p s (result_of sha256 repr p s signature response.request_id)
  unfolding accept
  accept-AnswerOf client p s payload response {signature} spelled asked h =
      let (named, h1) =
        >>-eq-ok
          (not (is_str response.key_id p.descriptor.key_arn)
            || not (is_str response.algorithm signing_algorithm))
          _ _ h in
      let (k, a) = either_false (not (is_str response.key_id p.descriptor.key_arn)) _ named in
      let (given, full) = usable response.signature _ h1 in
      record {
        payload = payload;
        spelled = spelled;
        response = response;
        asked = asked;
        key = is_str-eq response.key_id p.descriptor.key_arn (negated _ k);
        algorithm = is_str-eq response.algorithm signing_algorithm (negated _ a);
        signature = signature;
        signed_by = given;
        some_bytes = full;
        kept = refl;
      }

  abbrev Answer : Text → KmsClient → Provider → Signing → World → ProviderResult → Type 0
  Answer now client p s w r = BoundTo sha256 p s r × Origin now client p s w r

  abbrev Fits : Text → KmsClient → Provider → Signing → World → Prepared → Type 0
  Fits now client p s w (answered r w1) = Answer now client p s w r
  Fits now client p s w (request payload w1) = domain_message s.message s.context ≡ ok payload

  recover-Fits :
      (now : Text) (client : KmsClient) (p : Provider) (s : Signing) (w w1 : World) (j j' : Journal)
      (prior : JournalRecord) (o : Option Object) {t : Prepared}
      → w.journal ≡ some j
      → claim_for_sign repr now j s.operation_id (key_binding sha256 repr p s)
        ≡ ok (prior, false, j')
      → prior.result ≡ o
      → recover sha256 repr p s w1 prior o ≡ ok t
      → Fits now client p s w t
  unfolding recover
  recover-Fits now client p s w w1 j j' prior none used claim e h = absurd (cc h)
  recover-Fits now client p s w w1 j j' prior (some raw) used claim e h =
      let (state, h1) = >>-eq-ok (not (text_eq prior.state signed_state)) _ _ h in
      let (r, reads, h2) = >>=-eq-ok (from_dict raw) _ h1 in
      let (fit, h3) = >>-eq-ok (is_mismatched sha256 repr p s r) _ _ h2 in
      subst (Fits now client p s w) (ok-injective h3) (
        is_mismatched-BoundTo sha256 repr p s r fit,
        recorded_before (record {
          j = j;
          used = used;
          prior = prior;
          j' = j';
          claim = claim;
          state = text_eq→eq _ _ (negated (text_eq prior.state signed_state) state);
          raw = raw;
          result = e;
          reads = reads;
        }),
      )

  claimed-Fits :
      (now : Text) (client : KmsClient) (p : Provider) (s : Signing) (w : World) (j : Journal)
      (payload : Bytes) (c : JournalRecord × Bool × Journal) {t : Prepared}
      → domain_message s.message s.context ≡ ok payload
      → w.journal ≡ some j
      → claim_for_sign repr now j s.operation_id (key_binding sha256 repr p s) ≡ ok c
      → claimed sha256 repr p s w payload c ≡ ok t
      → Fits now client p s w t
  unfolding claimed
  claimed-Fits now client p s w j payload (prior, true, j') spelled used claim h =
      subst (Fits now client p s w) (ok-injective h) spelled
  claimed-Fits now client p s w j payload (prior, false, j') spelled used claim h =
      recover-Fits now client p s w w j j' prior prior.result used claim refl h

  claim-Fits :
      (now : Text) (client : KmsClient) (p : Provider) (s : Signing) (w : World) (payload : Bytes)
      (o : Option Journal) {t : Prepared}
      → domain_message s.message s.context ≡ ok payload
      → w.journal ≡ o
      → claim_or_request sha256 repr now p s w payload o ≡ ok t
      → Fits now client p s w t
  unfolding claim_or_request
  claim-Fits now client p s w payload none spelled used h =
      subst (Fits now client p s w) (ok-injective h) spelled
  claim-Fits now client p s w payload (some j) spelled used h =
      let (c, e, h1) =
        >>=-eq-ok
          (map_err (λ e. claim_rejected)
            (claim_for_sign repr now j s.operation_id (key_binding sha256 repr p s)))
          _ h in
      claimed-Fits now client p s w j payload c spelled used (map_err-eq-ok _ _ e) h1

  prepare-Fits :
      (now : Text) (client : KmsClient) (p : Provider) (s : Signing) (w : World) {t : Prepared}
      → ((r : ProviderResult) → get_item s.operation_id w.completed ≡ some r → BoundTo sha256 p s r)
      → prepare sha256 repr now client p s w ≡ ok t
      → Fits now client p s w t
  unfolding prepare unless_completed
  prepare-Fits now client p s w {t} old h =
      let (expected, n, h1) =
        >>=-eq-ok (provider_operation_id sha256 p.descriptor.key_arn s.message s.context) _ h in
      let (_, h2) = >>-eq-ok (not (text_eq s.operation_id expected)) _ _ h1 in
      by_memory (get_item s.operation_id w.completed) (λ r e. (old r e, remembered e)) h2
    where
      by_memory :
          (o : Option ProviderResult)
          → ((r : ProviderResult) → o ≡ some r → Answer now client p s w r)
          → unless_completed sha256 repr now client p s w o ≡ ok t
          → Fits now client p s w t
      by_memory (some r) k g = subst (Fits now client p s w) (ok-injective g) (k r refl)
      by_memory none k g =
          let (payload, spelled, g1) = >>=-eq-ok (domain_message s.message s.context) _ g in
          let (_, _, g2) =
            >>=-eq-ok
              (if p.refresh_descriptor_before_sign
                then assert_descriptor_unchanged sha256 client p.descriptor
                else ok tt)
              _ g1 in
          claim-Fits now client p s w payload w.journal spelled refl g2

  -- A result that begin_sign returns carries the pinned key, the signing algorithm, the operation and
  -- the hashes of its own message and context, if the one in memory does. It is the one in memory, or
  -- one that the journal held as SIGNED under the same binding, or it holds the signature of an answer
  -- of KMS to the request to sign the payload of the inputs, which names the pinned key and the
  -- algorithm.
  pub begin_sign-BoundTo :
      (now later : Text) (client : KmsClient) (p : Provider) (s : Signing) (w : World)
      {r : ProviderResult}
      → ((r' : ProviderResult)
          → get_item s.operation_id w.completed ≡ some r'
          → BoundTo sha256 p s r')
      → (begin_sign sha256 repr now later client p s w).0 ≡ ok r
      → BoundTo sha256 p s r × Origin now client p s w r
  unfolding begin_sign
  begin_sign-BoundTo now later client p s w {r} old h =
      by_half (prepare sha256 repr now client p s w)
        (λ t e. prepare-Fits now client p s w {t = t} old e) h
    where
      by_half :
          (c : Result AwsError Prepared)
          → ((t : Prepared) → c ≡ ok t → Fits now client p s w t)
          → (elim c as (λ _. Outcome sha256 repr) [
            | err e ↦ (err e, w)
            | ok (answered r' w1) ↦ (ok r', w1)
            | ok (request payload w1) ↦
                conclude sha256 repr later p s w1 (client.sign p.descriptor.key_arn payload)
          ]).0
            ≡ ok r
          → Answer now client p s w r
      by_half (err e) k g = absurd (cc g)
      by_half (ok (answered r' w1)) k g =
          subst (Answer now client p s w) (ok-injective g) (k _ refl)
      by_half (ok (request payload w1)) k g =
          let (response, signature, a, same, asked, _) =
            conclude-accept sha256 repr later p s w1 (client.sign p.descriptor.key_arn payload) g in
          subst (Answer now client p s w) same (
            accept-BoundTo sha256 repr p s response a,
            received (accept-AnswerOf client p s payload response (k _ refl) asked a),
          )
