-- ===== src/OperationJournal/Phases.antt =====
-- What the journal promises of one operation, without files, times or the order of a dict's entries.
use mathlib.Core.Path.{fun_ext}
use mathlib.Core.Option.{some-injective}
use sara_pro.Prelude.{
  ◌≡◌, refl, sym, ap, ◌∙◌, subst, List, [], ◌∷◌, Option, none, some, true, false, if◌then◌else◌,
  Bool-cases, inl, inr, Result, ok, err,
}
use sara_pro.Bytes.{Text, text_eq, text_eq→eq, Dict, get_item, dict_eq, dict_eq→get}
use sara_pro.Ledger.{Json, Object}
use sara_pro.OperationJournal.{
  JournalError, JournalRecord, Slot, Journal, in_flight_state, signed_state, indeterminate_state,
}
use sara_pro.OperationJournal.Operations.{read_slot}
use sara_pro.OperationJournal.Serve.{
  Request, file_of, settle, serve, serve_all, SlotStep, same, claimed, signed, lost,
  read_slot-to_dict,
}
use sara_pro.OperationJournal.Steps.{serve-SlotStep}

-- A dict as the function that it is.
abbrev pub View : Type 0 → Type 0
View A = Text → Option A

abbrev pub view : {A : Type 0} → Dict A → View A
view d k = get_item k d

pub data Phase : Type 0 where
  unclaimed : Phase
  in_flight : View Text → Phase
  done : View Text → View Json → Phase
  indeterminate : View Text → Phase

-- The moves of an operation.
pub data Move : Phase → Phase → Type 0 where
  stay : (p : Phase) → Move p p
  claim : (b : View Text) → Move unclaimed (in_flight b)
  finish : (b : View Text) (r : View Json) → Move (in_flight b) (done b r)
  give_up : (b : View Text) → Move (in_flight b) (indeterminate b)

pub data Moves : Phase → Phase → Type 0 where
  here : (p : Phase) → Moves p p
  then_move : {p q r : Phase} → Move p q → Moves q r → Moves p r

unfoldable pub signed_phase : View Text → Option Object → Option Phase
signed_phase b none = none
signed_phase b (some o) = some (done b (view o))

unfoldable pub phase_of : JournalRecord → Option Phase
phase_of r =
    let b = view r.binding in
    if text_eq r.state in_flight_state
    then some (in_flight b)
    else (if text_eq r.state signed_state
        then signed_phase b r.result
        else (if text_eq r.state indeterminate_state then some (indeterminate b) else none))

-- A file that cannot be read, or that names another state, has no phase.
unfoldable pub phase : Result JournalError (Option JournalRecord) → Option Phase
phase (err e) = none
phase (ok none) = some unclaimed
phase (ok (some r)) = phase_of r

pub indeterminate-Moves :
    {b : View Text} {p : Phase} → Moves (indeterminate b) p → p ≡ indeterminate b
indeterminate-Moves (here _) = refl
indeterminate-Moves (then_move (stay _) m) = indeterminate-Moves m

phase_of-in_flight :
    (r : JournalRecord) → r.state ≡ in_flight_state → phase_of r ≡ some (in_flight (view r.binding))
unfolding phase_of text_eq
phase_of-in_flight r e = rw e refl

phase_of-signed :
    (r : JournalRecord) (o : Object)
    → r.state ≡ signed_state
    → r.result ≡ some o
    → phase_of r ≡ some (done (view r.binding) (view o))
unfolding phase_of signed_phase text_eq
phase_of-signed r o e f = rw (e, f) refl

phase_of-indeterminate :
    (r : JournalRecord)
    → r.state ≡ indeterminate_state
    → phase_of r ≡ some (indeterminate (view r.binding))
unfolding phase_of text_eq
phase_of-indeterminate r e = rw e refl

same_view : (d e : Dict Text) → dict_eq text_eq d e ≡ true → ◌≡◌ {A = View Text} (view d) (view e)
same_view d e h = fun_ext (dict_eq→get text_eq text_eq→eq d e h)

module _ (repr : Object → Text) where
  abbrev PhaseOf : Slot → Phase → Type 0
  PhaseOf s p = phase (read_slot repr s) ≡ some p

  file-phase :
      (s : Slot) (r : JournalRecord) {p : Phase} → s ≡ file_of r → phase_of r ≡ some p → PhaseOf s p
  unfolding phase
  file-phase s r {p} e h =
      subst (λ (t : Slot). PhaseOf t p) (sym e) (ap phase (read_slot-to_dict repr r) ∙ h)

  phase_at :
      (s : Slot) (o : Option JournalRecord) {p : Phase}
      → read_slot repr s ≡ ok o
      → PhaseOf s p
      → phase (ok o) ≡ some p
  phase_at s o e h = sym (ap phase e) ∙ h

  -- A record that is not SIGNED and has a phase can be given up.
  lost-Move :
      (p : JournalRecord) (b : View Text) {q : Phase}
      → text_eq p.state signed_state ≡ false
      → ◌≡◌ {A = View Text} (view p.binding) b
      → phase_of p ≡ some q
      → Move q (indeterminate b)
  unfolding phase_of
  lost-Move p b {q} f e h = elim (Bool-cases (text_eq p.state in_flight_state)) [
    | inl flying ↦
        subst (λ (t : Phase). Move t (indeterminate b)) (some-injective _ _ (rw flying at h))
          (subst (λ (c : View Text). Move (in_flight c) (indeterminate b)) (sym e) (give_up b))
    | inr landed ↦ elim (Bool-cases (text_eq p.state indeterminate_state)) [
      | inl unknown ↦
          subst (λ (t : Phase). Move t (indeterminate b))
            (some-injective _ _ (rw (landed, f, unknown) at h))
            (subst (λ (c : View Text). Move (indeterminate c) (indeterminate b)) (sym e)
              (stay (indeterminate b)))
      | inr foreign ↦ absurd (cc (rw (landed, f, foreign) at h))
    ]
  ]

  SlotStep-Move :
      {s s' : Slot} {p : Phase}
      → SlotStep repr s s'
      → PhaseOf s p
      → (p' : Phase) × PhaseOf s' p' × Move p p'
  unfolding phase
  SlotStep-Move {p = p} (same e) h = (p, subst (λ t. PhaseOf t p) (sym e) h, stay p)
  SlotStep-Move {s} {s'} {p} (claimed r a b c e) h = (
    in_flight (view r.binding),
    file-phase s' r e (phase_of-in_flight r b),
    subst (λ (t : Phase). Move t (in_flight (view r.binding)))
        (some-injective _ _ (phase_at s none a h)) (claim (view r.binding)),
  )
  SlotStep-Move {s} {s'} {p} (signed p0 r o a b c d g e) h =
      let before = sym (phase_of-in_flight p0 b) ∙ phase_at s (some p0) a h in
      (
        done (view r.binding) (view o),
        file-phase s' r e (phase_of-signed r o c d),
        subst (λ (t : Phase). Move t (done (view r.binding) (view o))) (some-injective _ _ before)
            (subst (λ (v : View Text). Move (in_flight v) (done (view r.binding) (view o)))
              (sym (same_view p0.binding r.binding g)) (finish (view r.binding) (view o))),
      )
  SlotStep-Move {s} {s'} {p} (lost p0 r a b c d g e) h = (
    indeterminate (view r.binding),
    file-phase s' r e (phase_of-indeterminate r c),
    lost-Move p0 (view r.binding) b (same_view p0.binding r.binding g) (phase_at s (some p0) a h),
  )

  -- The journal refines the promised machine: from any file that shows a phase, any sequence of
  -- requests leads to a file that shows a phase which the machine's moves reach, whichever
  -- operation the file belongs to.
  pub serve_all-Moves :
      (j : Journal) (qs : List Request) (n : Text) {p : Phase}
      → phase (read_slot repr (j.slots n)) ≡ some p
      → (p' : Phase) × (phase (read_slot repr ((serve_all repr j qs).slots n)) ≡ some p')
        × Moves p p'
  unfolding serve_all
  serve_all-Moves j [] n {p} h = (p, h, here p)
  serve_all-Moves j (q ∷ qs) n h =
      let (p1, h1, m) = SlotStep-Move (serve-SlotStep repr j q n) h in
      let (p2, h2, ms) = serve_all-Moves (settle j (serve repr j q)) qs n h1 in
      (p2, h2, then_move m ms)

  -- An operation whose outcome is unknown stays so: no sequence of requests makes it SIGNED, and its
  -- binding is kept.
  pub serve_all-indeterminate :
      (j : Journal) (qs : List Request) (n : Text) {b : View Text}
      → phase (read_slot repr (j.slots n)) ≡ some (indeterminate b)
      → phase (read_slot repr ((serve_all repr j qs).slots n)) ≡ some (indeterminate b)
  serve_all-indeterminate j qs n h =
      let (p, h1, m) = serve_all-Moves j qs n h in h1 ∙ ap some (indeterminate-Moves m)
