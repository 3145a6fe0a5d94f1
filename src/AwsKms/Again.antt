-- ===== src/AwsKms/Again.antt =====
-- Every answer of begin_sign, and the same answer to a later process.
use sara_pro.Prelude.{
  ◌≡◌, refl, ap, ◌∙◌, List, Option, none, some, true, false, not, if◌then◌else◌, Result, ok, err,
  ◌>>=◌, ◌>>◌, raise_if, ok-injective,
}
use sara_pro.Bytes.{Bytes, Text, text_eq, Dict, get_item, dict_eq}
use sara_pro.Ledger.{Object}
use sara_pro.OperationJournal.{
  JournalError, locking_required, JournalRecord, Journal, signed_state, assert_binding,
}
use sara_pro.OperationJournal.Operations.{
  read_unlocked, claim_after, claim_for_sign, mark_signed, mark_indeterminate,
}
use sara_pro.OperationJournal.Serve.{Request, serve_all}
use sara_pro.OperationJournal.Steps.{serve_all-locking}
use sara_pro.OperationJournal.Progress.{serve_all-signed}
use sara_pro.AwsKms.{
  AwsError, ProviderResult, to_dict, from_dict, domain_message, provider_operation_id,
}
use sara_pro.AwsKms.Descriptor.{SignResponse, KmsClient, assert_descriptor_unchanged}
use sara_pro.AwsKms.Sign.{
  World, Provider, Signing, answered, remember, is_mismatched, recover, claimed, claim_or_request,
  unless_completed, prepare, key_binding, Outcome, give_up, result_of, finish, accept, conclude,
}
use sara_pro.AwsKms.Sends.{over}

module _ (sha256 : Bytes → Bytes) (repr : Object → Text) where
  give_up-raises :
      (now : Text) (p : Provider) (s : Signing) (w : World) (e : AwsError) (o : Option Journal)
      {r : ProviderResult}
      → ¬ ((give_up sha256 repr now p s w e o).0 ≡ ok r)
  unfolding give_up
  give_up-raises now p s w e none h = cc h
  give_up-raises now p s w e (some j) {r} h =
      by_mark (mark_indeterminate repr now j s.operation_id (key_binding sha256 repr p s)) h
    where
      by_mark :
          (m : Result JournalError (JournalRecord × Journal))
          → ¬ (
              (elim m as (λ _. Outcome sha256 repr) [
                | err x ↦ (err (AwsError.journal_failed x), w)
                | ok t ↦ (err e, record w { journal = some t.1 })
              ]).0
              ≡ ok r)
      by_mark (err x) g = cc g
      by_mark (ok t) g = cc g

  pub finish-ok :
      (now : Text) (p : Provider) (s : Signing) (w : World) (r0 : ProviderResult)
      (o : Option Journal) {r : ProviderResult}
      → (finish sha256 repr now p s w r0 o).0 ≡ ok r
      → r0 ≡ r
  unfolding finish
  finish-ok now p s w r0 none h = ok-injective h
  finish-ok now p s w r0 (some j) {r} h =
      by_mark (mark_signed repr now j s.operation_id (key_binding sha256 repr p s) (to_dict r0)) h
    where
      by_mark :
          (m : Result JournalError (JournalRecord × Journal))
          → (elim m as (λ _. Outcome sha256 repr) [
            | err x ↦ (err AwsError.commit_failed, w)
            | ok t ↦ (ok r0, remember (record w { journal = some t.1 }) s.operation_id r0)
          ]).0
            ≡ ok r
          → r0 ≡ r
      by_mark (err x) g = absurd (cc g)
      by_mark (ok t) g = ok-injective g

  -- What a second half that returns has received.
  pub conclude-accept :
      (now : Text) (p : Provider) (s : Signing) (w : World) (o : Option SignResponse)
      {r : ProviderResult}
      → (conclude sha256 repr now p s w o).0 ≡ ok r
      → (response : SignResponse) × (signature : Bytes) × (accept sha256 repr p response
          ≡ ok signature)
        × (result_of sha256 repr p s signature response.request_id ≡ r)
        × (o ≡ some response)
        × (conclude sha256 repr now p s w o ≡ finish sha256 repr now p s w r w.journal)
  unfolding conclude
  conclude-accept now p s w none h =
      absurd (give_up-raises now p s w AwsError.sign_raised w.journal h)
  conclude-accept now p s w (some response) {r} h = by_answer (accept sha256 repr p response) refl h
    where
      by_answer :
          (a : Result AwsError Bytes)
          → accept sha256 repr p response ≡ a
          → (elim a as (λ _. Outcome sha256 repr) [
            | err e ↦ give_up sha256 repr now p s w e w.journal
            | ok b ↦
                finish sha256 repr now p s w
                  (result_of sha256 repr p s b response.request_id)
                  w.journal
          ]).0
            ≡ ok r
          → (response' : SignResponse) × (signature : Bytes) × (accept sha256 repr p response'
              ≡ ok signature)
            × (result_of sha256 repr p s signature response'.request_id ≡ r)
            × (◌≡◌ {A = Option SignResponse} (some response) (some response'))
            × ((elim a as (λ _. Outcome sha256 repr) [
              | err e ↦ give_up sha256 repr now p s w e w.journal
              | ok b ↦
                  finish sha256 repr now p s w
                    (result_of sha256 repr p s b response.request_id)
                    w.journal
            ])
                ≡ finish sha256 repr now p s w r w.journal)
      by_answer (err e) a g = absurd (give_up-raises now p s w e w.journal g)
      by_answer (ok b) a g =
          let same = finish-ok now p s w _ w.journal g in
          (response, b, a, same, refl, ap (λ t. finish sha256 repr now p s w t w.journal) same)

  -- The arguments pass the checks that precede the memory and the journal.
  pub record Named (p : Provider) (s : Signing) : Type 0 where
    pub expected : Text
    pub named : provider_operation_id sha256 p.descriptor.key_arn s.message s.context ≡ ok expected
    pub same_name : not (text_eq s.operation_id expected) ≡ false
    pub payload : Bytes
    pub spelled : domain_message s.message s.context ≡ ok payload

  -- The journal holds the result under the inputs' binding.
  pub record Durable (p : Provider) (s : Signing) (r : ProviderResult) (j : Journal) : Type 0 where
    pub locked : j.locking ≡ true
    pub q : JournalRecord
    pub found : read_unlocked repr j s.operation_id ≡ ok (some q)
    pub is_done : q.state ≡ signed_state
    pub same_binding : dict_eq text_eq q.binding (key_binding sha256 repr p s) ≡ true
    pub raw : Object
    pub holds : q.result ≡ some raw
    pub reads : from_dict raw ≡ ok r
    pub fits : is_mismatched sha256 repr p s r ≡ false

  pub Durable-serve_all :
      (p : Provider) (s : Signing) (r : ProviderResult) (j : Journal) (qs : List Request)
      → Durable p s r j
      → Durable p s r (serve_all repr j qs)
  Durable-serve_all p s r j qs d = record {
    locked = serve_all-locking repr j qs ∙ d.locked;
    q = d.q;
    found = serve_all-signed repr j qs s.operation_id d.found d.is_done;
    is_done = d.is_done;
    same_binding = d.same_binding;
    raw = d.raw;
    holds = d.holds;
    reads = d.reads;
    fits = d.fits;
  }

  Durable-claim :
      (now : Text) (p : Provider) (s : Signing) (r : ProviderResult) (j : Journal)
      (d : Durable p s r j)
      → claim_for_sign repr now j s.operation_id (key_binding sha256 repr p s) ≡ ok (d.q, false, j)
  unfolding claim_for_sign claim_after assert_binding
  Durable-claim now p s r j d =
      let b = key_binding sha256 repr p s in
      ap
        (λ t.
          raise_if (not t) locking_required
          >> (read_unlocked repr j s.operation_id >>= claim_after repr now j s.operation_id b))
        d.locked
      ∙ ap (λ c. c >>= claim_after repr now j s.operation_id b) d.found
      ∙ rw d.same_binding refl

  Durable-recover :
      (p : Provider) (s : Signing) (r : ProviderResult) (j : Journal) (w : World)
      (d : Durable p s r j)
      → recover sha256 repr p s w d.q d.q.result ≡ ok (answered r (remember w s.operation_id r))
  unfolding recover text_eq
  Durable-recover p s r j w d = rw (d.holds, d.is_done, d.reads, d.fits) refl

  pub Durable-prepare :
      (now : Text) (client : KmsClient) (p : Provider) (s : Signing) (r : ProviderResult)
      (j : Journal) (memory : Dict ProviderResult)
      → Named p s
      → Durable p s r j
      → get_item s.operation_id memory ≡ none
      → (if p.refresh_descriptor_before_sign
          then assert_descriptor_unchanged sha256 client p.descriptor
          else ok tt)
        ≡ ok tt
      → prepare sha256 repr now client p s (over j memory)
        ≡ ok (answered r (remember (over j memory) s.operation_id r))
  unfolding prepare unless_completed claim_or_request claimed
  Durable-prepare now client p s r j memory n d m f =
      rw
        (
          n.named,
          n.same_name,
          m,
          n.spelled,
          f,
          Durable-claim now p s r j d,
          Durable-recover p s r j (over j memory) d,
        )
        refl
