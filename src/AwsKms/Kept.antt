-- ===== src/AwsKms/Kept.antt =====
-- What the journal holds behind an answer of begin_sign that comes from the journal.
use sara_pro.Prelude.{
  map_err-eq-ok, ◌≡◌, sym, ap, ◌∙◌, subst, Option, none, some, Bool, true, false, not,
  if◌then◌else◌, negated, ok, map_err, >>=-eq-ok, >>-eq-ok, ok-injective,
}
use sara_pro.Bytes.{Bytes, Text, text_eq, text_eq→eq, Dict, get_item, dict_eq}
use sara_pro.Ledger.{Object}
use sara_pro.OperationJournal.{
  JournalRecord, Journal, in_flight_state, signed_state, assert_binding,
}
use sara_pro.OperationJournal.Operations.{entry, read_unlocked, commit, claim_after, claim_for_sign}
use sara_pro.AwsKms.{
  claim_rejected, ProviderResult, from_dict, domain_message, provider_operation_id,
}
use sara_pro.AwsKms.Descriptor.{KmsClient, assert_descriptor_unchanged}
use sara_pro.AwsKms.Sign.{
  World, Provider, Signing, Prepared, answered, remember, is_mismatched, recover, claimed,
  claim_or_request, unless_completed, prepare, key_binding,
}
use sara_pro.AwsKms.Sends.{over}
use sara_pro.AwsKms.Again.{Named, Durable}

module _ (sha256 : Bytes → Bytes) (repr : Object → Text) where
  -- The way of the first half to the journal, for inputs that are not in memory.
  pub prepared :
      (now : Text) (client : KmsClient) (p : Provider) (s : Signing) (j : Journal)
      (memory : Dict ProviderResult) {t : Prepared}
      → get_item s.operation_id memory ≡ none
      → prepare sha256 repr now client p s (over j memory) ≡ ok t
      → Named sha256 repr p s
        × (payload : Bytes) × (c : JournalRecord × Bool × Journal) × (claim_for_sign repr now j
              s.operation_id
              (key_binding sha256 repr p s)
            ≡ ok c)
        × (claimed sha256 repr p s (over j memory) payload c ≡ ok t)
  unfolding prepare claim_or_request unless_completed
  prepared now client p s j memory {t} m h =
      let (expected, n, h1) =
        >>=-eq-ok (provider_operation_id sha256 p.descriptor.key_arn s.message s.context) _ h in
      let (f, h2) = >>-eq-ok (not (text_eq s.operation_id expected)) _ _ h1 in
      let (payload, sp, g1) = >>=-eq-ok (domain_message s.message s.context) _ (past_memory h2) in
      let (_, _, g2) =
        >>=-eq-ok
          (if p.refresh_descriptor_before_sign
            then assert_descriptor_unchanged sha256 client p.descriptor
            else ok tt)
          _ g1 in
      let (c, g3, g4) =
        >>=-eq-ok
          (map_err (λ e. claim_rejected)
            (claim_for_sign repr now j s.operation_id (key_binding sha256 repr p s)))
          _ g2 in
      (
        record { expected = expected; named = n; same_name = f; payload = payload; spelled = sp },
        payload,
        c,
        map_err-eq-ok _ _ g3,
        g4,
      )
    where
      past_memory :
          unless_completed sha256 repr now client p s
              (over j memory)
              (get_item s.operation_id memory)
            ≡ ok t
          → unless_completed sha256 repr now client p s (over j memory) none ≡ ok t
      past_memory g =
          subst (λ o. unless_completed sha256 repr now client p s (over j memory) o ≡ ok t) m g

  -- A claim that is not fresh has found its record.
  found_claim :
      (now : Text) (j : Journal) (id : Text) (b : Dict Text) {prior : JournalRecord} {j' : Journal}
      → claim_for_sign repr now j id b ≡ ok (prior, false, j')
      → (j.locking ≡ true)
        × (read_unlocked repr j id ≡ ok (some prior))
        × (dict_eq text_eq prior.binding b ≡ true)
  unfolding claim_for_sign claim_after assert_binding
  found_claim now j id b {prior} {j'} h =
      let (l, h1) = >>-eq-ok (not j.locking) _ _ h in
      let (o, e, h2) = >>=-eq-ok (read_unlocked repr j id) _ h1 in
      by_prior o (negated j.locking l) e h2
    where
      by_prior :
          (o : Option JournalRecord)
          → j.locking ≡ true
          → read_unlocked repr j id ≡ ok o
          → claim_after repr now j id b o ≡ ok (prior, false, j')
          → (j.locking ≡ true)
            × (read_unlocked repr j id ≡ ok (some prior))
            × (dict_eq text_eq prior.binding b ≡ true)
      by_prior none l e g =
          let (c, _, h4) = >>=-eq-ok (commit repr j (entry now id in_flight_state b none)) _ g in
          absurd (cc (ap (λ u. u.1) (ok-injective h4)))
      by_prior (some q) l e g =
          let (d, h3) = >>-eq-ok (not (dict_eq text_eq q.binding b)) _ _ g in
          let same = ap (λ u. u.0) (ok-injective h3) in
          (
            l,
            e ∙ ap (λ t. ok (some t)) same,
            subst (λ (t : JournalRecord). dict_eq text_eq t.binding b ≡ true) same
                (negated (dict_eq text_eq q.binding b) d),
          )

  -- The journal behind an answer that was not in memory.
  unfoldable pub Kept : Provider → Signing → ProviderResult → World → Type 0
  Kept p s r w = (j : Journal) × (w.journal ≡ some j) × Durable sha256 repr p s r j

  pub recovered :
      (now : Text) (p : Provider) (s : Signing) (j : Journal) (memory : Dict ProviderResult)
      {prior : JournalRecord} {j' : Journal} {r : ProviderResult} {w' : World}
      → claim_for_sign repr now j s.operation_id (key_binding sha256 repr p s)
        ≡ ok (prior, false, j')
      → (o : Option Object) → prior.result ≡ o
      → recover sha256 repr p s (over j memory) prior o ≡ ok (answered r w')
      → Kept p s r w'
  unfolding recover Kept
  recovered now p s j memory c none e h = absurd (cc h)
  recovered now p s j memory {prior} {r = r} {w' = w'} c (some raw) e h =
      let (l, found, same) = found_claim now j s.operation_id (key_binding sha256 repr p s) c in
      let (st, h1) = >>-eq-ok (not (text_eq prior.state signed_state)) _ _ h in
      let (r0, rd, h2) = >>=-eq-ok (from_dict raw) _ h1 in
      let (fit, h3) = >>-eq-ok (is_mismatched sha256 repr p s r0) _ _ h2 in
      let same_r : r0 ≡ r = answered_result (ok-injective h3) in
      let same_w : remember (over j memory) s.operation_id r0 ≡ w' =
        answered_world (ok-injective h3) in
      (
        j,
        sym (ap (λ (t : World). t.journal) same_w),
        record {
          locked = l;
          q = prior;
          found = found;
          is_done =
              text_eq→eq prior.state signed_state (negated (text_eq prior.state signed_state) st);
          same_binding = same;
          raw = raw;
          holds = e;
          reads = rd ∙ ap ok same_r;
          fits = subst (λ (t : ProviderResult). is_mismatched sha256 repr p s t ≡ false) same_r fit;
        },
      )
    where
      answered_result :
          {r1 r2 : ProviderResult} {w1 w2 : World} → answered r1 w1 ≡ answered r2 w2 → r1 ≡ r2
      answered_result e = cc e

      answered_world :
          {r1 r2 : ProviderResult} {w1 w2 : World} → answered r1 w1 ≡ answered r2 w2 → w1 ≡ w2
      answered_world e = cc e
