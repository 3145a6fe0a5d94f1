-- ===== src/OperationJournal/Completion.antt =====
-- What `mark_signed` answers: when it refuses, and that it completes a claim.
use sara_pro.Prelude.{
  ◌≡◌, ◌⊎◌, refl, sym, ap, ◌∙◌, subst, Option, none, some, true, false, ◌||◌, not, Bool-cases, inl,
  inr, negated, ok, err, ◌>>=◌, ◌>>◌, raise_if, >>=-eq-ok, >>-eq-ok, ok-injective, err-injective,
}
use sara_pro.Bytes.{Text, text_eq, text_eq_refl, text_eq→eq, is_empty, Dict, dict_eq, dict_eq_refl}
use sara_pro.Ledger.{Object}
use sara_pro.OperationJournal.{
  JournalError, locking_required, different_inputs, unclaimed_completion, result_conflicts,
  cannot_mark, JournalRecord, Journal, in_flight_state, signed_state, unsafe_name, safe_name,
  assert_binding, result_is, put,
}
use sara_pro.OperationJournal.Operations.{
  entry, write_unlocked, read_unlocked, get, commit, claim_after, claim_for_sign, complete, replay,
  sign_after, mark_signed,
}
use sara_pro.OperationJournal.Serve.{path, file_of, read_slot-to_dict}
use sara_pro.OperationJournal.Steps.{commit-put}

module _ (repr : Object → Text) where
  -- The reasons to refuse the result of an operation, each with its exception.
  pub data Refused (b : Dict Text) (o : Object) (prior : Option JournalRecord) (e : JournalError)
      : Type 0 where
    no_claim : prior ≡ none → e ≡ unclaimed_completion → Refused b o prior e
    other_inputs :
        (p : JournalRecord)
        → prior ≡ some p
        → dict_eq text_eq p.binding b ≡ false
        → e ≡ different_inputs
        → Refused b o prior e
    other_result :
        (p : JournalRecord)
        → prior ≡ some p
        → dict_eq text_eq p.binding b ≡ true
        → p.state ≡ signed_state
        → result_is p.result o ≡ false
        → e ≡ result_conflicts
        → Refused b o prior e
    not_open :
        (p : JournalRecord)
        → prior ≡ some p
        → dict_eq text_eq p.binding b ≡ true
        → text_eq p.state signed_state ≡ false
        → text_eq p.state in_flight_state ≡ false
        → e ≡ cannot_mark p.state
        → Refused b o prior e

  -- The name of a file that has been read.
  abbrev Readable : Text → Type 0
  Readable id = (is_empty id || unsafe_name id) ≡ false

  read-Readable :
      (j : Journal) (id : Text) {prior : Option JournalRecord}
      → read_unlocked repr j id ≡ ok prior
      → Readable id
  unfolding read_unlocked safe_name
  read-Readable j id h =
      let (name, h1, _) = >>=-eq-ok (safe_name id) _ h in
      let (f, _) = >>-eq-ok (is_empty id || unsafe_name id) _ _ h1 in f

  abbrev with_file : Journal → JournalRecord → Journal
  with_file j r = record j { slots = put j.slots (path r.operation_id) (file_of r) }

  commit_total :
      (j : Journal) (r : JournalRecord)
      → Readable r.operation_id
      → commit repr j r ≡ ok (r, with_file j r)
  unfolding commit write_unlocked safe_name
  commit_total j r h = rw h refl

  -- On a file that is read, the answer is the record in the file or the new one, or a refusal.
  sign_after_cases :
      (now : Text) (j : Journal) (id : Text) (b : Dict Text) (o : Object)
      (prior : Option JournalRecord)
      → Readable id
      → ((e : JournalError) × ((sign_after repr now j id b o prior ≡ err e) × Refused b o prior e))
        ⊎ ((r : JournalRecord) × (j' : Journal) × (sign_after repr now j id b o prior ≡ ok (r, j')))
  unfolding sign_after assert_binding replay complete
  sign_after_cases now j id b o none h = inl (unclaimed_completion, (refl, no_claim refl refl))
  sign_after_cases now j id b o (some p) h = elim (Bool-cases (dict_eq text_eq p.binding b)) [
    | inr other_b ↦ inl (different_inputs, (rw other_b refl, other_inputs p refl other_b refl))
    | inl same_b ↦ elim (Bool-cases (text_eq p.state signed_state)) [
      | inl s ↦ elim (Bool-cases (result_is p.result o)) [
        | inl r ↦ inr (p, j, rw (same_b, s, r) refl)
        | inr r ↦ inl (
          result_conflicts,
          (
            rw (same_b, s, r) refl,
            other_result p refl same_b (text_eq→eq p.state signed_state s) r refl,
          ),
        )
      ]
      | inr s ↦ elim (Bool-cases (text_eq p.state in_flight_state)) [
        | inl f ↦ inr (
          entry now id signed_state b (some o),
          with_file j (entry now id signed_state b (some o)),
          rw (same_b, s, f) (commit_total j (entry now id signed_state b (some o)) h),
        )
        | inr f ↦
            inl (cannot_mark p.state, (rw (same_b, s, f) refl, not_open p refl same_b s f refl))
      ]
    ]
  ]

  mark_signed_read :
      (now : Text) (j : Journal) (id : Text) (b : Dict Text) (o : Object)
      {prior : Option JournalRecord}
      → j.locking ≡ true
      → read_unlocked repr j id ≡ ok prior
      → mark_signed repr now j id b o ≡ sign_after repr now j id b o prior
  unfolding mark_signed
  mark_signed_read now j id b o l h =
      ap
        (λ t.
          raise_if (not t) locking_required
          >> (read_unlocked repr j id >>= sign_after repr now j id b o))
        l
      ∙ ap (λ c. c >>= sign_after repr now j id b o) h

  -- Under the lock and on a file that is read, mark_signed either answers a record or raises, and it
  -- raises exactly one of the four exceptions, each for its reason: there is no claim, the inputs
  -- differ, the recorded result differs, or the operation is neither IN_FLIGHT nor SIGNED.
  pub mark_signed-Refused :
      (now : Text) (j : Journal) (id : Text) (b : Dict Text) (o : Object)
      {prior : Option JournalRecord} {e : JournalError}
      → j.locking ≡ true
      → read_unlocked repr j id ≡ ok prior
      → mark_signed repr now j id b o ≡ err e
      → Refused b o prior e
  mark_signed-Refused now j id b o {prior} {e} l h m =
      elim (sign_after_cases now j id b o prior (read-Readable j id h)) [
        | inl (e', (same, why)) ↦
            subst (λ (x : JournalError). Refused b o prior x)
              (err-injective (sym same ∙ sym (mark_signed_read now j id b o l h) ∙ m)) why
        | inr (r, j', same) ↦ absurd (cc (sym same ∙ sym (mark_signed_read now j id b o l h) ∙ m))
      ]

  read_written :
      (j : Journal) (r : JournalRecord)
      → Readable r.operation_id
      → read_unlocked repr (with_file j r) r.operation_id ≡ ok (some r)
  unfolding read_unlocked safe_name put
  read_written j r h = rw (h, text_eq_refl (path r.operation_id)) (read_slot-to_dict repr r)

  -- What a fresh claim has established.
  fresh_claim :
      (now : Text) (j : Journal) (id : Text) (b : Dict Text) {r : JournalRecord} {j' : Journal}
      → claim_for_sign repr now j id b ≡ ok (r, true, j')
      → (j.locking ≡ true) × Readable id × (j' ≡ with_file j (entry now id in_flight_state b none))
  unfolding claim_for_sign claim_after assert_binding
  fresh_claim now j id b {r} {j'} h =
      let (l, h1) = >>-eq-ok (not j.locking) _ _ h in
      let (prior, e, h2) = >>=-eq-ok (read_unlocked repr j id) _ h1 in
      (negated j.locking l, read-Readable j id e, by_prior prior h2)
    where
      by_prior :
          (prior : Option JournalRecord)
          → claim_after repr now j id b prior ≡ ok (r, true, j')
          → j' ≡ with_file j (entry now id in_flight_state b none)
      by_prior none g =
          let (t, h3, h4) = >>=-eq-ok (commit repr j (entry now id in_flight_state b none)) _ g in
          let (_, written) = commit-put repr j (entry now id in_flight_state b none) h3 in
          sym (ap (λ u. u.2) (ok-injective h4)) ∙ written
      by_prior (some p) g =
          let (_, h3) = >>-eq-ok (not (dict_eq text_eq p.binding b)) _ _ g in
          absurd (cc (ap (λ u. u.1) (ok-injective h3)))

  completed :
      (now later : Text) (j : Journal) (id : Text) (b : Dict Text) (o : Object)
      → Readable id
      → sign_after repr later j id b o (some (entry now id in_flight_state b none))
        ≡ ok (
          entry later id signed_state b (some o),
          with_file j (entry later id signed_state b (some o)),
        )
  unfolding sign_after assert_binding complete text_eq
  completed now later j id b o h =
      rw (dict_eq_refl text_eq text_eq_refl b)
        (commit_total j (entry later id signed_state b (some o)) h)

  -- A fresh claim can be completed: with the binding that was claimed, mark_signed of any result
  -- writes it as SIGNED, and get returns that record.
  pub claim_for_sign-mark_signed :
      (now later : Text) (j : Journal) (id : Text) (b : Dict Text) (o : Object) {r : JournalRecord}
      {j' : Journal}
      → claim_for_sign repr now j id b ≡ ok (r, true, j')
      → (j'' : Journal) × (mark_signed repr later j' id b o
          ≡ ok (entry later id signed_state b (some o), j''))
        × (get repr j'' id ≡ ok (some (entry later id signed_state b (some o))))
  unfolding get
  claim_for_sign-mark_signed now later j id b o {j' = j'} h =
      let (l, readable, e) = fresh_claim now j id b h in
      let claimed = entry now id in_flight_state b none in
      let signed = entry later id signed_state b (some o) in
      let at_claim = with_file j claimed in
      let moved =
        mark_signed_read later at_claim id b o l (read_written j claimed readable)
        ∙ completed now later at_claim id b o readable in
      (
        with_file at_claim signed,
        ap (λ (k : Journal). mark_signed repr later k id b o) e ∙ moved,
        ap
              (λ t.
                raise_if (not t) locking_required
                >> read_unlocked repr (with_file at_claim signed) id)
              l
            ∙ read_written at_claim signed readable,
      )
