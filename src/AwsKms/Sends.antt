-- ===== src/AwsKms/Sends.antt =====
-- Requests to sign from several workers, each with its own memory, over one journal.
use sara_pro.Prelude.{
  map_err-eq-ok, ℕ, ◌+◌, ◌≤◌, ◌≡◌, refl, ap, subst, List, [], ◌∷◌, ◌++◌, Option, none, some, Bool,
  true, false, not, if◌then◌else◌, arith, Result, ok, err, map_err, >>=-eq-ok, >>-eq-ok,
  ok-injective,
}
use sara_pro.Bytes.{Bytes, Text, text_eq, Dict, get_item}
use sara_pro.Ledger.{Object}
use sara_pro.OperationJournal.{JournalRecord, Journal, signed_state}
use sara_pro.OperationJournal.Operations.{claim_for_sign}
use sara_pro.OperationJournal.Serve.{Request, claim, settle, serve, grants}
use sara_pro.OperationJournal.Progress.{grants_once}
use sara_pro.AwsKms.{
  AwsError, claim_rejected, ProviderResult, domain_message, provider_operation_id, from_dict,
}
use sara_pro.AwsKms.Descriptor.{KmsClient, assert_descriptor_unchanged}
use sara_pro.AwsKms.Sign.{
  World, Provider, Signing, Prepared, answered, request, is_mismatched, recover, claimed,
  claim_or_request, unless_completed, prepare, key_binding,
}

-- A worker comes as far as its request to KMS, with the memory that it has then; or there is any other
-- call of the journal, such as what a worker does behind its request.
pub data Event : Type 0 where
  begin : Text → KmsClient → Provider → Signing → Dict ProviderResult → Event
  other_call : Request → Event

abbrev pub over : Journal → Dict ProviderResult → World
over j memory = record { journal = some j; completed = memory }

abbrev pub journal_or : Journal → Option Journal → Journal
journal_or j none = j
journal_or j (some j') = j'

-- The journal behind the first half of begin_sign.
abbrev pub landing : Journal → Result AwsError Prepared → Journal
landing j (err e) = j
landing j (ok (answered r w)) = journal_or j w.journal
landing j (ok (request payload w)) = journal_or j w.journal

abbrev pub is_request : Result AwsError Prepared → Bool
is_request (ok (request payload w)) = true
is_request _ = false

module _ (sha256 : Bytes → Bytes) (repr : Object → Text) where
  unfoldable pub after : Journal → Event → Journal
  after j (begin now client p s memory) =
      landing j (prepare sha256 repr now client p s (over j memory))
  after j (other_call q) = settle j (serve repr j q)

  unfoldable pub requests : Text → Journal → Event → ℕ
  requests id j (begin now client p s memory) =
      if is_request (prepare sha256 repr now client p s (over j memory))
      then (if text_eq s.operation_id id then 1 else 0)
      else 0
  requests id j (other_call q) = 0

  -- The requests to sign that KMS gets for an operation.
  unfoldable pub sends : Text → Journal → List Event → ℕ
  sends id j [] = 0
  sends id j (e ∷ es) = requests id j e + sends id (after j e) es

  -- A request comes of a granted claim.
  pub record Sent (now : Text) (p : Provider) (s : Signing) (j : Journal) (w' : World)
      : Type 0 where
    pub r : JournalRecord
    pub j' : Journal
    pub granted :
        claim_for_sign repr now j s.operation_id (key_binding sha256 repr p s) ≡ ok (r, true, j')
    pub lands : w'.journal ≡ some j'

  -- What the first half does to the journal, by where it ends.
  abbrev pub Ends : Text → Provider → Signing → Journal → Prepared → Type 0
  Ends now p s j (answered r w') = w'.journal ≡ some j
  Ends now p s j (request payload w') = Sent now p s j w'

  recover-Ends :
      (now : Text) (p : Provider) (s : Signing) (w : World) (j : Journal) (prior : JournalRecord)
      (raw : Option Object) {c : Prepared}
      → w.journal ≡ some j
      → recover sha256 repr p s w prior raw ≡ ok c
      → Ends now p s j c
  unfolding recover
  recover-Ends now p s w j prior none e h = absurd (cc h)
  recover-Ends now p s w j prior (some raw) e h =
      let (_, h1) = >>-eq-ok (not (text_eq prior.state signed_state)) _ _ h in
      let (r, _, h2) = >>=-eq-ok (from_dict raw) _ h1 in
      let (_, h3) = >>-eq-ok (is_mismatched sha256 repr p s r) _ _ h2 in
      subst (Ends now p s j) (ok-injective h3) e

  claimed-Ends :
      (now : Text) (p : Provider) (s : Signing) (w : World) (j : Journal) (payload : Bytes)
      (c : JournalRecord × Bool × Journal) {t : Prepared}
      → w.journal ≡ some j
      → claim_for_sign repr now j s.operation_id (key_binding sha256 repr p s) ≡ ok c
      → claimed sha256 repr p s w payload c ≡ ok t
      → Ends now p s j t
  unfolding claimed
  claimed-Ends now p s w j payload (prior, true, j') e g h =
      subst (Ends now p s j) (ok-injective h)
        (record { r = prior; j' = j'; granted = g; lands = refl })
  claimed-Ends now p s w j payload (prior, false, j') e g h =
      recover-Ends now p s w j prior prior.result e h

  pub prepare-Ends :
      (now : Text) (client : KmsClient) (p : Provider) (s : Signing) (j : Journal)
      (memory : Dict ProviderResult) {c : Prepared}
      → prepare sha256 repr now client p s (over j memory) ≡ ok c
      → Ends now p s j c
  unfolding prepare unless_completed claim_or_request
  prepare-Ends now client p s j memory {c} h =
      let (expected, _, h1) =
        >>=-eq-ok (provider_operation_id sha256 p.descriptor.key_arn s.message s.context) _ h in
      let (_, h2) = >>-eq-ok (not (text_eq s.operation_id expected)) _ _ h1 in
      by_memory (get_item s.operation_id memory) h2
    where
      by_memory :
          (o : Option ProviderResult)
          → unless_completed sha256 repr now client p s (over j memory) o ≡ ok c
          → Ends now p s j c
      by_memory (some r) g = subst (Ends now p s j) (ok-injective g) refl
      by_memory none g =
          let (payload, _, g1) = >>=-eq-ok (domain_message s.message s.context) _ g in
          let (_, _, g2) =
            >>=-eq-ok
              (if p.refresh_descriptor_before_sign
                then assert_descriptor_unchanged sha256 client p.descriptor
                else ok tt)
              _ g1 in
          let (t, g3, g4) =
            >>=-eq-ok
              (map_err (λ e. claim_rejected)
                (claim_for_sign repr now j s.operation_id (key_binding sha256 repr p s)))
              _ g2 in
          claimed-Ends now p s (over j memory) j payload t refl (map_err-eq-ok _ _ g3) g4

  -- One event as calls of the journal: the same journal, and no more requests than grants.
  record Calls (id : Text) (j : Journal) (e : Event) : Type 0 where
    qs : List Request
    bounded :
        (rest : List Request)
        → requests id j e + grants repr id (after j e) rest ≤ grants repr id j (qs ++ rest)

  begin-Calls :
      (id : Text) (now : Text) (client : KmsClient) (p : Provider) (s : Signing) (j : Journal)
      (memory : Dict ProviderResult)
      → Calls id j (begin now client p s memory)
  unfolding requests after grants serve
  begin-Calls id now client p s j memory =
      let (qs, b) =
        by_end (prepare sha256 repr now client p s (over j memory))
          (λ t h. prepare-Ends now client p s j memory {c = t} h) in
      record { qs = qs; bounded = b }
    where
      least : (a : ℕ) → a ≤ a
      least a = omega arith

      none_more : (a b : ℕ) → a ≡ b → 0 + a ≤ b
      none_more a b e = omega arith

      sent :
          (w : World)
          → Sent now p s j w
          → (rest : List Request)
          → (if text_eq s.operation_id id then 1 else 0)
              + grants repr id (journal_or j w.journal) rest
            ≤ grants repr id j (claim now s.operation_id (key_binding sha256 repr p s) ∷ rest)
      sent w t rest = rw (t.lands, t.granted) (least _)

      by_end :
          (c : Result AwsError Prepared)
          → ((t : Prepared) → c ≡ ok t → Ends now p s j t)
          → (qs : List Request) × ((rest : List Request)
              → (if is_request c then (if text_eq s.operation_id id then 1 else 0) else 0)
                  + grants repr id (landing j c) rest
                ≤ grants repr id j (qs ++ rest))
      by_end (err e) ends = ([], λ rest. none_more _ _ refl)
      by_end (ok (answered r w)) ends =
          ([], λ rest. none_more _ _ (ap (λ o. grants repr id (journal_or j o) rest) (ends _ refl)))
      by_end (ok (request payload w)) ends =
          (claim now s.operation_id (key_binding sha256 repr p s) ∷ [], sent w (ends _ refl))

  other-Calls : (id : Text) (j : Journal) (q : Request) → Calls id j (other_call q)
  unfolding requests after grants
  other-Calls id j q = record {
    qs = q ∷ [];
    bounded = λ rest. more (grants repr id (settle j (serve repr j q)) rest) _;
  }
    where
      more : (a b : ℕ) → 0 + a ≤ b + a
      more a b = omega arith

  one_event : (id : Text) (j : Journal) (e : Event) → Calls id j e
  one_event id j (begin now client p s memory) = begin-Calls id now client p s j memory
  one_event id j (other_call q) = other-Calls id j q

  sends-grants :
      (id : Text) (j : Journal) (es : List Event)
      → (qs : List Request) × (sends id j es ≤ grants repr id j qs)
  unfolding sends
  sends-grants id j [] = ([], omega arith)
  sends-grants id j (e ∷ es) =
      let (rest, h) = sends-grants id (after j e) es in
      let c = one_event id j e in let b = c.bounded rest in (c.qs ++ rest, omega (arith, h, b))

  -- However the workers' calls interleave and end, with any memories and any answers of KMS, at most
  -- one request to sign is sent for an operation.
  pub sends_once : (id : Text) (j : Journal) (es : List Event) → sends id j es ≤ 1
  sends_once id j es =
      let (qs, h) = sends-grants id j es in let g = grants_once repr id j qs in omega (arith, h, g)
