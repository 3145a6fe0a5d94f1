-- ===== src/OperationJournal/Progress.antt =====
-- Which requests are granted a signature over time, and that a recorded result is kept.
use sara_pro.Prelude.{
  ◌≤◌, ◌≡◌, refl, sym, ap, ◌∙◌, subst, List, [], ◌∷◌, Option, none, some, Bool, true, false, ◌||◌,
  not, Bool-cases, inl, inr, arith, Result, ok, err, ◌>>=◌, ◌>>◌, raise_if, >>=-eq-ok, >>-eq-ok,
  ok-injective, ok_some-injective,
}
use sara_pro.Bytes.{Text, text_eq, text_eq_refl, text_eq→eq, is_empty, Dict, dict_eq}
use sara_pro.Ledger.{Object}
use sara_pro.OperationJournal.{
  JournalError, JournalRecord, Slot, Journal, in_flight_state, signed_state, unsafe_name, safe_name,
  assert_binding, put,
}
use sara_pro.OperationJournal.Operations.{
  entry, read_slot, read_unlocked, commit, claim_after, claim_for_sign, mark_signed,
  mark_indeterminate,
}
use sara_pro.OperationJournal.Serve.{
  Request, claim, sign, lose, id_of, path, file_of, Answer, settle, is_fresh, not_fresh, serve,
  serve_all, grants, SlotStep, same, claimed, signed, lost, read_slot-to_dict,
}
use sara_pro.OperationJournal.Steps.{at_path, commit-put, serve-SlotStep}

module _ (repr : Object → Text) where
  abbrev Taken : Slot → Type 0
  Taken s = ¬ (read_slot repr s ≡ ok none)

  Taken-file : (s : Slot) (r : JournalRecord) → s ≡ file_of r → Taken s
  Taken-file s r e h =
      let found = subst (λ (t : Slot). read_slot repr t ≡ ok none) e h in
      cc (read_slot-to_dict repr r, found)

  SlotStep-Taken : {s s' : Slot} → SlotStep repr s s' → Taken s → Taken s'
  SlotStep-Taken {s} {s'} (same e) t = subst Taken (sym e) t
  SlotStep-Taken {s} {s'} (claimed r a b c e) t = Taken-file s' r e
  SlotStep-Taken {s} {s'} (signed p r o a b c d f e) t = Taken-file s' r e
  SlotStep-Taken {s} {s'} (lost p r a b c d f e) t = Taken-file s' r e

  -- A granted claim found no file and left one.
  record Granted (j : Journal) (id : Text) (answer : Answer) : Type 0 where
    free : read_slot repr (j.slots (path id)) ≡ ok none
    taken : Taken ((settle j answer).slots (path id))

  claim-Granted :
      (now : Text) (j : Journal) (id : Text) (b : Dict Text) {r : JournalRecord} {j' : Journal}
      → claim_for_sign repr now j id b ≡ ok (r, true, j')
      → Granted j id (ok (r, true, j'))
  unfolding claim_for_sign claim_after assert_binding put
  claim-Granted now j id b {r} {j'} h =
      let (_, h1) = >>-eq-ok (not j.locking) _ _ h in
      let (prior, e, h2) = >>=-eq-ok (read_unlocked repr j id) _ h1 in
      by_prior prior (at_path repr j id e) h2
    where
      at_file : (n : Text) (s : Slot) → put j.slots n s n ≡ s
      at_file n s = rw (text_eq_refl n) refl

      by_prior :
          (prior : Option JournalRecord)
          → read_slot repr (j.slots (path id)) ≡ ok prior
          → claim_after repr now j id b prior ≡ ok (r, true, j')
          → Granted j id (ok (r, true, j'))
      by_prior none e g =
          let (t, h3, h4) = >>=-eq-ok (commit repr j (entry now id in_flight_state b none)) _ g in
          let (_, written) = commit-put repr j (entry now id in_flight_state b none) h3 in
          let k : j' ≡ t.1 = sym (ap (λ u. u.2) (ok-injective h4)) in
          record {
            free = e;
            taken = Taken-file (j'.slots (path id)) (entry now id in_flight_state b none) (
                ap (λ (u : Journal). u.slots (path id)) (k ∙ written)
                ∙ at_file (path id) (file_of (entry now id in_flight_state b none)));
          }
      by_prior (some p) e g =
          let (_, h3) = >>-eq-ok (not (dict_eq text_eq p.binding b)) _ _ g in
          absurd (cc (ap (λ u. u.1) (ok-injective h3)))

  serve-Granted :
      (j : Journal) (q : Request)
      → is_fresh (serve repr j q) ≡ true
      → Granted j (id_of q) (serve repr j q)
  unfolding serve
  serve-Granted j (claim now id b) h = by_answer (claim_for_sign repr now j id b) refl h
    where
      by_answer :
          (a : Answer) → claim_for_sign repr now j id b ≡ a → is_fresh a ≡ true → Granted j id a
      by_answer (err x) e f = absurd (cc f)
      by_answer (ok (r, false, j')) e f = absurd (cc f)
      by_answer (ok (r, true, j')) e f = claim-Granted now j id b e
  serve-Granted j (sign now id b o) h = absurd (never (mark_signed repr now j id b o) h)
    where
      never :
          (a : Result JournalError (JournalRecord × Journal)) → ¬ (is_fresh (not_fresh a) ≡ true)
      never (ok t) f = cc f
      never (err x) f = cc f
  serve-Granted j (lose now id b) h = absurd (never (mark_indeterminate repr now j id b) h)
    where
      never :
          (a : Result JournalError (JournalRecord × Journal)) → ¬ (is_fresh (not_fresh a) ≡ true)
      never (ok t) f = cc f
      never (err x) f = cc f

  -- No more grants for an operation whose file is there.
  Taken-grants :
      (id : Text) (j : Journal) (qs : List Request)
      → Taken (j.slots (path id))
      → grants repr id j qs ≡ 0
  unfolding grants
  Taken-grants id j [] t = refl
  Taken-grants id j (q ∷ qs) t =
      let rest =
        Taken-grants id (settle j (serve repr j q)) qs
          (SlotStep-Taken (serve-SlotStep repr j q (path id)) t) in
      elim (Bool-cases (is_fresh (serve repr j q))) [
        | inr old ↦ rw (old, rest) refl
        | inl new ↦ elim (Bool-cases (text_eq (id_of q) id)) [
          | inr elsewhere ↦ rw (new, elsewhere, rest) refl
          | inl here ↦
              let free = (serve-Granted j q new).free in
              absurd (
                t (
                  subst (λ (u : Text). read_slot repr (j.slots (path u)) ≡ ok none)
                    (text_eq→eq (id_of q) id here) free))
        ]
      ]

  -- Over any sequence of requests, at most one claim of an operation is told to send its Sign
  -- request, whatever the workers call and however their calls end.
  pub grants_once : (id : Text) (j : Journal) (qs : List Request) → grants repr id j qs ≤ 1
  unfolding grants
  grants_once id j [] = omega arith
  grants_once id j (q ∷ qs) =
      let rest = grants_once id (settle j (serve repr j q)) qs in
      elim (Bool-cases (is_fresh (serve repr j q))) [
        | inr old ↦ rw old (omega (arith, rest))
        | inl new ↦ elim (Bool-cases (text_eq (id_of q) id)) [
          | inr elsewhere ↦ rw (new, elsewhere) (omega (arith, rest))
          | inl here ↦
              let none_left = Taken-grants id (settle j (serve repr j q)) qs (
                subst (λ (u : Text). Taken ((settle j (serve repr j q)).slots (path u)))
                  (text_eq→eq (id_of q) id here) (serve-Granted j q new).taken) in
              rw (new, here) (omega (arith, none_left))
        ]
      ]

  SlotStep-signed :
      {s s' : Slot} {r : JournalRecord}
      → SlotStep repr s s'
      → read_slot repr s ≡ ok (some r)
      → r.state ≡ signed_state
      → s' ≡ s
  unfolding text_eq
  SlotStep-signed (same e) h f = e
  SlotStep-signed (claimed r a b c e) h f = absurd (cc (a, h))
  SlotStep-signed {r = r} (signed p r' o a b c d g e) h f =
      let found : p ≡ r = ok_some-injective (sym a ∙ h) in
      let states = sym b ∙ ap (λ (t : JournalRecord). t.state) found ∙ f in
      absurd (cc (ap (text_eq signed_state) states))
  SlotStep-signed {r = r} (lost p r' a b c d g e) h f =
      let found : p ≡ r = ok_some-injective (sym a ∙ h) in
      let states = ap (λ (t : JournalRecord). t.state) found ∙ f in
      absurd (cc (sym b ∙ ap (λ t. text_eq t signed_state) states, text_eq_refl signed_state))

  from_path :
      (j j' : Journal) (id : Text)
      → j'.slots (path id) ≡ j.slots (path id)
      → read_unlocked repr j' id ≡ read_unlocked repr j id
  unfolding read_unlocked safe_name
  from_path j j' id e = by_name (is_empty id || unsafe_name id)
    where
      by_name :
          (t : Bool)
          → ((raise_if t JournalError.unsupported_characters >> ok (path id)) >>= λ name.
              read_slot repr (j'.slots name))
            ≡ ((raise_if t JournalError.unsupported_characters >> ok (path id)) >>= λ name.
                read_slot repr (j.slots name))
      by_name true = refl
      by_name false = ap (read_slot repr) e

  -- Once a record is SIGNED, every later read of it returns the same record, whatever is requested
  -- in between.
  pub serve_all-signed :
      (j : Journal) (qs : List Request) (id : Text) {r : JournalRecord}
      → read_unlocked repr j id ≡ ok (some r)
      → r.state ≡ signed_state
      → read_unlocked repr (serve_all repr j qs) id ≡ ok (some r)
  unfolding serve_all
  serve_all-signed j [] id h f = h
  serve_all-signed j (q ∷ qs) id h f =
      let kept = SlotStep-signed (serve-SlotStep repr j q (path id)) (at_path repr j id h) f in
      serve_all-signed (settle j (serve repr j q)) qs id
        (from_path j (settle j (serve repr j q)) id kept ∙ h) f
