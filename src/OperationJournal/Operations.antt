-- ===== src/OperationJournal/Operations.antt =====
-- Reading, writing and the four operations of FileOperationJournal. `repr` is Python's text of a dict.
use sara_pro.Prelude.{
  [], Option, none, some, Bool, true, false, not, if◌then◌else◌, Result, ok, err, ◌>>=◌, ◌>>◌,
  raise_if,
}
use sara_pro.Bytes.{Text, text, text_eq, Dict, get_item}
use sara_pro.Ledger.{null, num, str, other, Object}
use sara_pro.OperationJournal.{
  JournalError, locking_required, record_is_link, record_unreadable, record_not_object,
  invalid_binding, invalid_result, unclaimed_completion, unclaimed_marking, result_conflicts,
  cannot_mark, JournalRecord, Field, value, dict, Slot, missing, link, unreadable, not_object,
  stored, Journal, in_flight_state, signed_state, indeterminate_state, safe_name, str_of,
  str_values, to_dict, assert_binding, result_is, put,
}

unfoldable pub binding_of : Option Field → Result JournalError (Dict Text)
binding_of (some (dict o)) = ok (str_values o)
binding_of _ = err invalid_binding

unfoldable pub result_of : Option Field → Result JournalError (Option Object)
result_of none = ok none
result_of (some (value null)) = ok none
result_of (some (dict o)) = ok (some o)
result_of (some (value (num n))) = err invalid_result
result_of (some (value (str s))) = err invalid_result
result_of (some (value (other s))) = err invalid_result

-- `JournalRecord(...)` of a call at `now`
abbrev pub entry : Text → Text → Text → Dict Text → Option Object → JournalRecord
entry now id state binding result = record {
  operation_id = id;
  state = state;
  binding = binding;
  result = result;
  updated_at = now;
}

unfoldable pub write_unlocked : Journal → JournalRecord → Result JournalError Journal
write_unlocked j r = do
  name ← safe_name r.operation_id
  ok (record j { slots = put j.slots name (stored (to_dict r)) })

module _ (repr : Object → Text) where
  -- `str(raw.get(k, ""))`
  unfoldable pub str_field : Option Field → Text
  str_field none = []
  str_field (some (value v)) = str_of v
  str_field (some (dict o)) = repr o

  unfoldable pub read_slot : Slot → Result JournalError (Option JournalRecord)
  read_slot missing = ok none
  read_slot link = err record_is_link
  read_slot unreadable = err record_unreadable
  read_slot not_object = err record_not_object
  read_slot (stored raw) = do
    binding ← binding_of (get_item (text "binding") raw)
    result ← result_of (get_item (text "result") raw)
    ok (
        some (record {
          operation_id = str_field (get_item (text "operation_id") raw);
          state = str_field (get_item (text "state") raw);
          binding = binding;
          result = result;
          updated_at = str_field (get_item (text "updated_at") raw);
        }))

  unfoldable pub read_unlocked : Journal → Text → Result JournalError (Option JournalRecord)
  read_unlocked j id = do name ← safe_name id; read_slot (j.slots name)

  unfoldable pub get : Journal → Text → Result JournalError (Option JournalRecord)
  get j id = do raise_if (not j.locking) locking_required; read_unlocked j id

  -- A new record with its journal.
  unfoldable pub commit : Journal → JournalRecord → Result JournalError (JournalRecord × Journal)
  commit j r = do j' ← write_unlocked j r; ok (r, j')

  unfoldable pub claim_after :
      Text
      → Journal
      → Text
      → Dict Text
      → Option JournalRecord
      → Result JournalError (JournalRecord × Bool × Journal)
  claim_after now j id binding (some prior) = do assert_binding prior binding; ok (prior, false, j)
  claim_after now j id binding none = do
    (r, j') ← commit j (entry now id in_flight_state binding none)
    ok (r, true, j')

  unfoldable pub claim_for_sign :
      Text → Journal → Text → Dict Text → Result JournalError (JournalRecord × Bool × Journal)
  claim_for_sign now j id binding = do
    raise_if (not j.locking) locking_required
    prior ← read_unlocked j id
    claim_after now j id binding prior

  -- `mark_signed` of a record that is not SIGNED
  unfoldable pub complete :
      Text
      → Journal
      → Text
      → Dict Text
      → Object
      → JournalRecord
      → Result JournalError (JournalRecord × Journal)
  complete now j id binding result prior = do
    raise_if (not (text_eq prior.state in_flight_state)) (cannot_mark prior.state)
    commit j (entry now id signed_state binding (some result))

  -- `mark_signed` of a record that is SIGNED
  unfoldable pub replay :
      Journal → Object → JournalRecord → Result JournalError (JournalRecord × Journal)
  replay j result prior = do
    raise_if (not (result_is prior.result result)) result_conflicts
    ok (prior, j)

  unfoldable pub sign_after :
      Text
      → Journal
      → Text
      → Dict Text
      → Object
      → Option JournalRecord
      → Result JournalError (JournalRecord × Journal)
  sign_after now j id binding result none = err unclaimed_completion
  sign_after now j id binding result (some prior) = do
    assert_binding prior binding
    if text_eq prior.state signed_state
        then replay j result prior
        else complete now j id binding result prior

  unfoldable pub mark_signed :
      Text → Journal → Text → Dict Text → Object → Result JournalError (JournalRecord × Journal)
  mark_signed now j id binding result = do
    raise_if (not j.locking) locking_required
    prior ← read_unlocked j id
    sign_after now j id binding result prior

  unfoldable pub lose_after :
      Text
      → Journal
      → Text
      → Dict Text
      → Option JournalRecord
      → Result JournalError (JournalRecord × Journal)
  lose_after now j id binding none = err unclaimed_marking
  lose_after now j id binding (some prior) = do
    assert_binding prior binding
    if text_eq prior.state signed_state
        then ok (prior, j)
        else commit j (entry now id indeterminate_state binding none)

  unfoldable pub mark_indeterminate :
      Text → Journal → Text → Dict Text → Result JournalError (JournalRecord × Journal)
  mark_indeterminate now j id binding = do
    raise_if (not j.locking) locking_required
    prior ← read_unlocked j id
    lose_after now j id binding prior
