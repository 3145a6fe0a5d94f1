-- ===== src/OperationJournal/Steps.antt =====
-- One request to the journal seen at one file: the cases of each operation.
use sara_pro.Prelude.{
  ◌≡◌, refl, List, [], ◌∷◌, sym, ap, ◌∙◌, subst, Option, none, some, Bool, true, false, ◌||◌, not,
  if◌then◌else◌, Bool-cases, inl, inr, Result, ok, err, ◌>>=◌, ◌>>◌, raise_if, >>=-eq-ok, >>-eq-ok,
  ok-injective,
}
use sara_pro.Bytes.{Text, text_eq, text_eq→eq, is_empty, Dict, dict_eq}
use sara_pro.Ledger.{Object}
use sara_pro.OperationJournal.{
  JournalError, locking_required, different_inputs, result_conflicts, cannot_mark, JournalRecord,
  Journal, in_flight_state, signed_state, indeterminate_state, unsafe_name, safe_name,
  assert_binding, result_is, put,
}
use sara_pro.OperationJournal.Operations.{
  entry, read_slot, write_unlocked, read_unlocked, commit, claim_after, claim_for_sign, complete,
  replay, sign_after, mark_signed, lose_after, mark_indeterminate,
}
use sara_pro.OperationJournal.Serve.{
  Request, claim, sign, lose, path, file_of, Answer, settle, not_fresh, serve, serve_all, SlotStep,
  same, claimed, signed, lost,
}

module _ (repr : Object → Text) where
  -- The file that a call works on was readable, and what it does to it.
  pub at_path :
      (j : Journal) (id : Text) {prior : Option JournalRecord}
      → read_unlocked repr j id ≡ ok prior
      → read_slot repr (j.slots (path id)) ≡ ok prior
  unfolding read_unlocked safe_name
  at_path j id {prior} h =
      let (name, h1, h2) = >>=-eq-ok (safe_name id) _ h in
      let (_, h3) = >>-eq-ok (is_empty id || unsafe_name id) _ _ h1 in
      subst (λ (t : Text). read_slot repr (j.slots t) ≡ ok prior) (sym (ok-injective h3)) h2

  -- A commit writes one file.
  pub commit-put :
      (j : Journal) (r : JournalRecord) {r' : JournalRecord} {j' : Journal}
      → commit repr j r ≡ ok (r', j')
      → (r' ≡ r) × (j' ≡ record j { slots = put j.slots (path r.operation_id) (file_of r) })
  unfolding commit write_unlocked safe_name
  commit-put j r h =
      let (k, h1, h2) = >>=-eq-ok (write_unlocked j r) _ h in
      let (name, h3, h4) = >>=-eq-ok (safe_name r.operation_id) _ h1 in
      let (_, h5) = >>-eq-ok (is_empty r.operation_id || unsafe_name r.operation_id) _ _ h3 in
      let e = ok-injective h2 in
      (
        sym (ap (λ t. t.0) e),
        sym (ap (λ t. t.1) e)
            ∙ sym (ok-injective h4)
            ∙ ap (λ (t : Text). record j { slots = put j.slots t (file_of r) })
                (sym (ok-injective h5)),
      )

  committed :
      (j : Journal) (r : JournalRecord) (n : Text) {r' : JournalRecord} {j' : Journal}
      → SlotStep repr (j.slots (path r.operation_id)) (file_of r)
      → commit repr j r ≡ ok (r', j')
      → SlotStep repr (j.slots n) (j'.slots n) × (j'.locking ≡ j.locking)
  unfolding put
  committed j r n step h =
      let (_, e) = commit-put j r h in
      (
        subst (λ (k : Journal). SlotStep repr (j.slots n) (k.slots n)) (sym e)
            (elim (Bool-cases (text_eq n (path r.operation_id))) [
              | inl here ↦ rw here (
                  subst (λ (t : Text). SlotStep repr (j.slots t) (file_of r))
                    (sym (text_eq→eq n (path r.operation_id) here)) step)
              | inr elsewhere ↦ rw elsewhere (same refl)
            ]),
        ap (λ (k : Journal). k.locking) e,
      )

  abbrev OnFile : Journal → Text → Answer → Type 0
  OnFile j n answer =
      SlotStep repr (j.slots n) ((settle j answer).slots n)
      × ((settle j answer).locking ≡ j.locking)

  claimed_file :
      (now : Text) (j : Journal) (id : Text) (b : Dict Text) (n : Text)
      (prior : Option JournalRecord)
      → read_slot repr (j.slots (path id)) ≡ ok prior
      → OnFile j n (claim_after repr now j id b prior)
  unfolding claim_after assert_binding
  claimed_file now j id b n (some p) e = by_binding (not (dict_eq text_eq p.binding b))
    where
      by_binding : (t : Bool) → OnFile j n (raise_if t different_inputs >> ok (p, false, j))
      by_binding true = (same refl, refl)
      by_binding false = (same refl, refl)
  claimed_file now j id b n none e =
      by_commit (commit repr j (entry now id in_flight_state b none)) refl
    where
      by_commit :
          (c : Result JournalError (JournalRecord × Journal))
          → commit repr j (entry now id in_flight_state b none) ≡ c
          → OnFile j n (c >>= λ t. ok (t.0, true, t.1))
      by_commit (err x) h = (same refl, refl)
      by_commit (ok (r, j')) h =
          committed j (entry now id in_flight_state b none) n (claimed _ e refl refl refl) h

  signed_file :
      (now : Text) (j : Journal) (id : Text) (b : Dict Text) (o : Object) (n : Text)
      (prior : Option JournalRecord)
      → read_slot repr (j.slots (path id)) ≡ ok prior
      → OnFile j n (not_fresh (sign_after repr now j id b o prior))
  unfolding sign_after assert_binding replay complete
  signed_file now j id b o n none e = (same refl, refl)
  signed_file now j id b o n (some p) e = by_binding (dict_eq text_eq p.binding b) refl
    where
      replayed : (t : Bool) → OnFile j n (not_fresh (raise_if t result_conflicts >> ok (p, j)))
      replayed true = (same refl, refl)
      replayed false = (same refl, refl)

      by_commit :
          (c : Result JournalError (JournalRecord × Journal))
          → commit repr j (entry now id signed_state b (some o)) ≡ c
          → text_eq p.state in_flight_state ≡ true
          → dict_eq text_eq p.binding b ≡ true
          → OnFile j n (not_fresh c)
      by_commit (err x) h f same_binding = (same refl, refl)
      by_commit (ok (r, j')) h f same_binding =
          committed j (entry now id signed_state b (some o)) n
            (signed p _ o e (text_eq→eq p.state in_flight_state f) refl refl same_binding refl) h

      completed :
          (t : Bool)
          → text_eq p.state in_flight_state ≡ t
          → dict_eq text_eq p.binding b ≡ true
          → OnFile j n (
              not_fresh (
                raise_if (not t) (cannot_mark p.state)
                >> commit repr j (entry now id signed_state b (some o))))
      completed false h same_binding = (same refl, refl)
      completed true h same_binding = by_commit _ refl h same_binding

      by_binding :
          (t : Bool)
          → dict_eq text_eq p.binding b ≡ t
          → OnFile j n (
              not_fresh (
                raise_if (not t) different_inputs
                >> (if text_eq p.state signed_state
                    then replay repr j o p
                    else complete repr now j id b o p)))
      by_binding false h = (same refl, refl)
      by_binding true h = elim (Bool-cases (text_eq p.state signed_state)) [
        | inl done ↦ rw done (replayed (not (result_is p.result o)))
        | inr open_still ↦ rw open_still (completed (text_eq p.state in_flight_state) refl h)
      ]

  lost_file :
      (now : Text) (j : Journal) (id : Text) (b : Dict Text) (n : Text)
      (prior : Option JournalRecord)
      → read_slot repr (j.slots (path id)) ≡ ok prior
      → OnFile j n (not_fresh (lose_after repr now j id b prior))
  unfolding lose_after assert_binding
  lost_file now j id b n none e = (same refl, refl)
  lost_file now j id b n (some p) e = by_binding (dict_eq text_eq p.binding b) refl
    where
      by_commit :
          (c : Result JournalError (JournalRecord × Journal))
          → commit repr j (entry now id indeterminate_state b none) ≡ c
          → text_eq p.state signed_state ≡ false
          → dict_eq text_eq p.binding b ≡ true
          → OnFile j n (not_fresh c)
      by_commit (err x) h f same_binding = (same refl, refl)
      by_commit (ok (r, j')) h f same_binding =
          committed j (entry now id indeterminate_state b none) n
            (lost p _ e f refl refl same_binding refl) h

      by_binding :
          (t : Bool)
          → dict_eq text_eq p.binding b ≡ t
          → OnFile j n (
              not_fresh (
                raise_if (not t) different_inputs
                >> (if text_eq p.state signed_state
                    then ok (p, j)
                    else commit repr j (entry now id indeterminate_state b none))))
      by_binding false h = (same refl, refl)
      by_binding true h = elim (Bool-cases (text_eq p.state signed_state)) [
        | inl done ↦ rw done (same refl, refl)
        | inr open_still ↦ rw open_still (by_commit _ refl open_still h)
      ]

  -- What precedes the case distinction of a call.
  opened :
      (j : Journal) (id : Text) (n : Text) {A : Type 0} (finish : Result JournalError A → Answer)
      (k : Option JournalRecord → Result JournalError A)
      → ((x : JournalError) → settle j (finish (err x)) ≡ j)
      → ((prior : Option JournalRecord)
          → read_slot repr (j.slots (path id)) ≡ ok prior
          → OnFile j n (finish (k prior)))
      → OnFile j n
          (finish (raise_if (not j.locking) locking_required >> (read_unlocked repr j id >>= k)))
  opened j id n finish k failed step = by_lock j.locking
    where
      by_read :
          (c : Result JournalError (Option JournalRecord))
          → read_unlocked repr j id ≡ c
          → OnFile j n (finish (c >>= k))
      by_read (err x) h = (same (ap (λ t. t.slots n) (failed x)), ap (λ t. t.locking) (failed x))
      by_read (ok prior) h = step prior (at_path j id h)

      by_lock :
          (t : Bool)
          → OnFile j n
              (finish (raise_if (not t) locking_required >> (read_unlocked repr j id >>= k)))
      by_lock false = (
        same (ap (λ t. t.slots n) (failed locking_required)),
        ap (λ t. t.locking) (failed locking_required),
      )
      by_lock true = by_read _ refl

  -- Every request takes every file a permitted step.
  serve-OnFile : (j : Journal) (q : Request) (n : Text) → OnFile j n (serve repr j q)
  unfolding serve claim_for_sign mark_signed mark_indeterminate
  serve-OnFile j (claim now id b) n =
      opened j id n (λ c. c) (claim_after repr now j id b) (λ x. refl) (claimed_file now j id b n)
  serve-OnFile j (sign now id b o) n =
      opened j id n not_fresh (sign_after repr now j id b o) (λ x. refl)
        (signed_file now j id b o n)
  serve-OnFile j (lose now id b) n =
      opened j id n not_fresh (lose_after repr now j id b) (λ x. refl) (lost_file now j id b n)

  pub serve-SlotStep :
      (j : Journal) (q : Request) (n : Text)
      → SlotStep repr (j.slots n) ((settle j (serve repr j q)).slots n)
  serve-SlotStep j q n = (serve-OnFile j q n).0

  pub serve_all-locking :
      (j : Journal) (qs : List Request) → (serve_all repr j qs).locking ≡ j.locking
  unfolding serve_all
  serve_all-locking j [] = refl
  serve_all-locking j (q ∷ qs) =
      serve_all-locking (settle j (serve repr j q)) qs ∙ (serve-OnFile j q []).1
