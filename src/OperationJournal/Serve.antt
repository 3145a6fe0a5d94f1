-- ===== src/OperationJournal/Serve.antt =====
-- Any sequence of requests to the journal, and what one of them does to one file.
use sara_pro.Prelude.{
  ℕ, ◌+◌, ◌≡◌, refl, ap, List, [], ◌∷◌, ◌++◌, Option, none, some, Bool, true, false, if◌then◌else◌,
  Result, ok, err,
}
use sara_pro.Bytes.{Text, text, text_eq, Dict, get_item, dict_eq}
use sara_pro.Ledger.{null, Object}
use sara_pro.OperationJournal.{
  JournalError, JournalRecord, value, dict, Slot, stored, Journal, in_flight_state, signed_state,
  indeterminate_state, str_of, str_values, json_values, to_dict,
}
use sara_pro.OperationJournal.Operations.{
  binding_of, result_of, str_field, read_slot, claim_for_sign, mark_signed, mark_indeterminate,
}

-- A call of a worker with the time of its call.
pub data Request : Type 0 where
  claim : Text → Text → Dict Text → Request
  sign : Text → Text → Dict Text → Object → Request
  lose : Text → Text → Dict Text → Request

abbrev pub id_of : Request → Text
id_of (claim now id b) = id
id_of (sign now id b o) = id
id_of (lose now id b) = id

abbrev pub path : Text → Text
path id = id ++ text ".json"

-- The file that holds a record.
abbrev pub file_of : JournalRecord → Slot
file_of r = stored (to_dict r)

abbrev pub Answer : Type 0
Answer = Result JournalError (JournalRecord × Bool × Journal)

-- An exception leaves the files as they were.
abbrev pub settle : Journal → Answer → Journal
settle j (ok (r, fresh, j')) = j'
settle j (err e) = j

abbrev pub is_fresh : Answer → Bool
is_fresh (ok (r, fresh, j')) = fresh
is_fresh (err e) = false

abbrev pub not_fresh : Result JournalError (JournalRecord × Journal) → Answer
not_fresh (ok (r, j')) = ok (r, false, j')
not_fresh (err e) = err e

module _ (repr : Object → Text) where
  unfoldable pub serve : Journal → Request → Answer
  serve j (claim now id b) = claim_for_sign repr now j id b
  serve j (sign now id b o) = not_fresh (mark_signed repr now j id b o)
  serve j (lose now id b) = not_fresh (mark_indeterminate repr now j id b)

  unfoldable pub serve_all : Journal → List Request → Journal
  serve_all j [] = j
  serve_all j (q ∷ qs) = serve_all (settle j (serve j q)) qs

  -- The calls that were told to send a Sign request for the operation.
  unfoldable pub grants : Text → Journal → List Request → ℕ
  grants id j [] = 0
  grants id j (q ∷ qs) =
      (if is_fresh (serve j q) then if text_eq (id_of q) id then 1 else 0 else 0)
      + grants id (settle j (serve j q)) qs

  pub str_values-json_values : (d : Dict Text) → str_values (json_values d) ≡ d
  unfolding str_values json_values str_of
  str_values-json_values [] = refl
  str_values-json_values ((k, v) ∷ d) = ap (λ t. (k, v) ∷ t) (str_values-json_values d)

  pub read_slot-to_dict : (r : JournalRecord) → read_slot repr (file_of r) ≡ ok (some r)
  unfolding result_of read_slot to_dict get_item text_eq binding_of str_field str_of
  read_slot-to_dict r = rw (str_values-json_values r.binding, written r.result) refl
    where
      written :
          (o : Option Object)
          → result_of (some (elim o [ none ↦ value null | some p ↦ dict p ])) ≡ ok o
      written none = refl
      written (some p) = refl

  -- What a request may do to one file.
  pub data SlotStep (s s' : Slot) : Type 0 where
    same : s' ≡ s → SlotStep s s'
    claimed :
        (r : JournalRecord)
        → read_slot repr s ≡ ok none
        → r.state ≡ in_flight_state
        → r.result ≡ none
        → s' ≡ file_of r
        → SlotStep s s'
    signed :
        (p r : JournalRecord) (o : Object)
        → read_slot repr s ≡ ok (some p)
        → p.state ≡ in_flight_state
        → r.state ≡ signed_state
        → r.result ≡ some o
        → dict_eq text_eq p.binding r.binding ≡ true
        → s' ≡ file_of r
        → SlotStep s s'
    lost :
        (p r : JournalRecord)
        → read_slot repr s ≡ ok (some p)
        → text_eq p.state signed_state ≡ false
        → r.state ≡ indeterminate_state
        → r.result ≡ none
        → dict_eq text_eq p.binding r.binding ≡ true
        → s' ≡ file_of r
        → SlotStep s s'
