-- ===== src/AwsKms/Restart.antt =====
-- begin_sign before and after a restart of its process.
use sara_pro.Prelude.{
  ◌≡◌, refl, sym, ap, ◌∙◌, subst, List, Option, none, some, Bool, true, false, not, if◌then◌else◌,
  negated, Result, ok, err, >>=-eq-ok, >>-eq-ok, ok-injective,
}
use sara_pro.Bytes.{Bytes, Text, text_eq, text_eq_refl, Dict, get_item, dict_eq_refl}
use sara_pro.Ledger.{Object}
use sara_pro.OperationJournal.{JournalRecord, Journal, signed_state}
use sara_pro.OperationJournal.Operations.{entry, get, claim_for_sign, mark_signed}
use sara_pro.OperationJournal.Serve.{Request, serve_all}
use sara_pro.OperationJournal.Completion.{claim_for_sign-mark_signed}
use sara_pro.AwsKms.{AwsError, ProviderResult, to_dict, from_dict}
use sara_pro.AwsKms.Descriptor.{SignResponse, KmsClient, assert_descriptor_unchanged}
use sara_pro.AwsKms.Sign.{
  World, Provider, Signing, Prepared, answered, request, remember, is_mismatched, recover, claimed,
  prepare, key_binding, Outcome, finish, conclude, begin_sign,
}
use sara_pro.AwsKms.Sends.{over}
use sara_pro.AwsKms.Replays.{from_dict-to_dict, BoundTo, BoundTo-is_mismatched, accept-BoundTo}
use sara_pro.AwsKms.Again.{conclude-accept, Named, Durable-serve_all, Durable-prepare}
use sara_pro.AwsKms.Kept.{prepared, Kept, recovered}

module _ (sha256 : Bytes → Bytes) (repr : Object → Text) where
  finish_done :
      (later : Text) (p : Provider) (s : Signing) (j : Journal) (memory : Dict ProviderResult)
      (r : ProviderResult) {q : JournalRecord} {j' : Journal}
      → mark_signed repr later j s.operation_id (key_binding sha256 repr p s) (to_dict r)
        ≡ ok (q, j')
      → ◌≡◌ {A = Outcome sha256 repr}
          (finish sha256 repr later p s (over j memory) r (some j))
          (ok r, remember (over j' memory) s.operation_id r)
  unfolding finish
  finish_done later p s j memory r m = rw (m, finish) refl

  recover-request :
      (p : Provider) (s : Signing) (w : World) (prior : JournalRecord) (o : Option Object)
      {payload : Bytes} {w' : World}
      → ¬ (recover sha256 repr p s w prior o ≡ ok (request payload w'))
  unfolding recover
  recover-request p s w prior none h = cc h
  recover-request p s w prior (some raw) h =
      let (_, h1) = >>-eq-ok (not (text_eq prior.state signed_state)) _ _ h in
      let (r, _, h2) = >>=-eq-ok (from_dict raw) _ h1 in
      let (_, h3) = >>-eq-ok (is_mismatched sha256 repr p s r) _ _ h2 in cc (ok-injective h3)

  -- A request that is answered leaves its result in the journal.
  sent :
      (now later : Text) (p : Provider) (s : Signing) (j : Journal) (memory : Dict ProviderResult)
      (o : Option SignResponse) {prior : JournalRecord} {j1 : Journal} {r : ProviderResult}
      {w' : World}
      → claim_for_sign repr now j s.operation_id (key_binding sha256 repr p s)
        ≡ ok (prior, true, j1)
      → conclude sha256 repr later p s (over j1 memory) o ≡ (ok r, w')
      → Kept sha256 repr p s r w'
  unfolding Kept get
  sent now later p s j memory o {j1 = j1} {r = r} {w' = w'} c h =
      let b = key_binding sha256 repr p s in
      let (response, signature, a, same, _, all) =
        conclude-accept sha256 repr later p s (over j1 memory) o (ap (λ t. t.0) h) in
      let (j2, m, g) = claim_for_sign-mark_signed repr now later j s.operation_id b (to_dict r) c in
      let (l, found) = >>-eq-ok (not j2.locking) _ _ g in
      let bound = subst (BoundTo sha256 p s) same (accept-BoundTo sha256 repr p s response a) in
      let written : ◌≡◌ {A = Outcome sha256 repr}
          (finish sha256 repr later p s (over j1 memory) r (some j1))
          (ok r, remember (over j2 memory) s.operation_id r) =
        finish_done later p s j1 memory r m in
      let worlds = ap (λ t. t.1) (sym h ∙ all ∙ written) in
      (
        j2,
        ap (λ (t : World). t.journal) worlds,
        record {
          locked = negated j2.locking l;
          q = entry later s.operation_id signed_state b (some (to_dict r));
          found = found;
          is_done = refl;
          same_binding = dict_eq_refl text_eq text_eq_refl b;
          raw = to_dict r;
          holds = refl;
          reads = from_dict-to_dict r;
          fits = BoundTo-is_mismatched sha256 repr p s r bound;
        },
      )

  begin_sign-Kept :
      (now later : Text) (client : KmsClient) (p : Provider) (s : Signing) (j : Journal)
      (memory : Dict ProviderResult) {r : ProviderResult} {w' : World}
      → get_item s.operation_id memory ≡ none
      → begin_sign sha256 repr now later client p s (over j memory) ≡ (ok r, w')
      → Named sha256 repr p s × Kept sha256 repr p s r w'
  unfolding begin_sign claimed
  begin_sign-Kept now later client p s j memory {r} {w'} m h =
      by_half (prepare sha256 repr now client p s (over j memory)) refl h
    where
      request_world : {b1 b2 : Bytes} {w1 w2 : World} → request b1 w1 ≡ request b2 w2 → w1 ≡ w2
      request_world e = cc e

      by_claim :
          (payload : Bytes) (c : JournalRecord × Bool × Journal) (t : Prepared)
          → claim_for_sign repr now j s.operation_id (key_binding sha256 repr p s) ≡ ok c
          → claimed sha256 repr p s (over j memory) payload c ≡ ok t
          → (elim t as (λ _. Outcome sha256 repr) [
            | answered r' w1 ↦ (ok r', w1)
            | request pay w1 ↦
                conclude sha256 repr later p s w1 (client.sign p.descriptor.key_arn pay)
          ])
            ≡ (ok r, w')
          → Kept sha256 repr p s r w'
      by_claim payload (prior, true, j1) (answered r' w1) g k e = absurd (cc k)
      by_claim payload (prior, true, j1) (request pay w1) g k e =
          sent now later p s j memory (client.sign p.descriptor.key_arn pay) g (
            subst
              (λ (t : World).
                conclude sha256 repr later p s t (client.sign p.descriptor.key_arn pay)
                ≡ (ok r, w'))
              (sym (request_world (ok-injective k))) e)
      by_claim payload (prior, false, j1) (answered r' w1) g k e =
          let kept = recovered sha256 repr now p s j memory g prior.result refl k in
          let same_r : r' ≡ r = ok-injective (ap (λ t. t.0) e) in
          subst (λ (t : ProviderResult). Kept sha256 repr p s t w') same_r
            (subst (Kept sha256 repr p s r') (ap (λ t. t.1) e) kept)
      by_claim payload (prior, false, j1) (request pay w1) g k e =
          absurd (recover-request p s (over j memory) prior prior.result k)

      by_half :
          (c : Result AwsError Prepared)
          → prepare sha256 repr now client p s (over j memory) ≡ c
          → (elim c as (λ _. Outcome sha256 repr) [
            | err e ↦ (err e, over j memory)
            | ok (answered r' w1) ↦ (ok r', w1)
            | ok (request payload w1) ↦
                conclude sha256 repr later p s w1 (client.sign p.descriptor.key_arn payload)
          ])
            ≡ (ok r, w')
          → Named sha256 repr p s × Kept sha256 repr p s r w'
      by_half (err e) c g = absurd (cc (ap (λ t. t.0) g))
      by_half (ok (answered r' w1)) c g =
          let (n, payload, k, claim_is, t_is) = prepared sha256 repr now client p s j memory m c in
          (n, by_claim payload k (answered r' w1) claim_is t_is g)
      by_half (ok (request pay w1)) c g =
          let (n, payload, k, claim_is, t_is) = prepared sha256 repr now client p s j memory m c in
          (n, by_claim payload k (request pay w1) claim_is t_is g)

  -- If begin_sign returns a result that it did not have in memory, then after any further requests to
  -- the journal, a process that has not got it in memory gets the same result for the same inputs,
  -- whatever KMS would answer to a request, provided that its check of the key passes.
  pub begin_sign_again :
      (now later now' later' : Text) (client client' : KmsClient) (p : Provider) (s : Signing)
      (j : Journal) (memory memory' : Dict ProviderResult) (qs : List Request) {r : ProviderResult}
      {w' : World}
      → get_item s.operation_id memory ≡ none
      → begin_sign sha256 repr now later client p s (over j memory) ≡ (ok r, w')
      → get_item s.operation_id memory' ≡ none
      → (if p.refresh_descriptor_before_sign
          then assert_descriptor_unchanged sha256 client' p.descriptor
          else ok tt)
        ≡ ok tt
      → (j' : Journal) × (w'.journal ≡ some j')
        × (begin_sign sha256 repr now' later' client' p s (over (serve_all repr j' qs) memory')
            ≡ (ok r, remember (over (serve_all repr j' qs) memory') s.operation_id r))
  unfolding Kept begin_sign
  begin_sign_again now later now' later' client client' p s j memory memory' qs {r = r} m h m' f =
      let (n, kept) = begin_sign-Kept now later client p s j memory m h in
      let (j', e, d) = kept in
      let k = serve_all repr j' qs in
      (
        j',
        e,
        answers k (
            Durable-prepare sha256 repr now' client' p s r k memory' n
              (Durable-serve_all sha256 repr p s r j' qs d) m' f),
      )
    where
      answers :
          (k : Journal)
          → prepare sha256 repr now' client' p s (over k memory')
            ≡ ok (answered r (remember (over k memory') s.operation_id r))
          → begin_sign sha256 repr now' later' client' p s (over k memory')
            ≡ (ok r, remember (over k memory') s.operation_id r)
      answers k g = rw (g, begin_sign) refl
