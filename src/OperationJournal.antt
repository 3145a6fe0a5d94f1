-- ===== src/OperationJournal.antt =====
-- The journal of signing operations, research/qcrypto_tsv/v3_6/worldshepherd_qcrypto_kms/
-- operation_journal.py: one JSON file for each operation under a directory, each operation under
-- the lock. A directory is what there is at each file name; os.replace writes a whole file or nothing.
pub mod Operations
pub mod Serve
pub mod Steps
pub mod Phases
pub mod Progress
pub mod Completion
use sara_pro.Prelude.{
  ◌≡◌, List, [], ◌∷◌, ◌++◌, map, Option, none, some, Bool, true, false, ◌&&◌, ◌||◌, not,
  if◌then◌else◌, Result, ok, err, ◌>>=◌, ◌>>◌, raise_if,
}
use sara_pro.Bytes.{Text, text, text_eq, char_in, is_empty, decimal, Dict, get_item, dict_eq}
use sara_pro.Ledger.{Json, null, num, str, other, Object}
use sara_pro.Ledger.Tamper.{json_eq}

-- Each `raise`, by its message; the last ones are of the class OperationJournalConflict.
pub data JournalError : Type 0 where
  locking_required : JournalError
  unsupported_characters : JournalError
  record_is_link : JournalError
  record_unreadable : JournalError
  record_not_object : JournalError
  invalid_binding : JournalError
  invalid_result : JournalError
  different_inputs : JournalError
  unclaimed_completion : JournalError
  unclaimed_marking : JournalError
  result_conflicts : JournalError
  cannot_mark : Text → JournalError

pub record JournalRecord : Type 0 where
  pub operation_id : Text
  pub state : Text
  pub binding : Dict Text
  pub result : Option Object
  pub updated_at : Text

-- A member of a JSON object: a value whose `str` is in `Json`, or an object.
pub data Field : Type 0 where
  value : Json → Field
  dict : Object → Field

-- What there is at a path: nothing, a symbolic link, text that json.loads refuses, JSON that is no
-- object, or an object.
pub data Slot : Type 0 where
  missing : Slot
  link : Slot
  unreadable : Slot
  not_object : Slot
  stored : Dict Field → Slot

-- The directory, and whether `fcntl` could be imported.
pub record Journal : Type 0 where
  pub locking : Bool
  pub slots : Text → Slot

abbrev pub in_flight_state : Text
in_flight_state = text "IN_FLIGHT"

abbrev pub signed_state : Text
signed_state = text "SIGNED"

abbrev pub indeterminate_state : Text
indeterminate_state = text "INDETERMINATE"

abbrev pub safe_characters : Text
safe_characters = text "ABCDEFGHIJKLMNOPQRSTUVWXYZabcdefghijklmnopqrstuvwxyz0123456789-_"

unfoldable pub unsafe_name : Text → Bool
unsafe_name [] = false
unsafe_name (c ∷ s) = not (char_in c safe_characters) || unsafe_name s

unfoldable pub safe_name : Text → Result JournalError Text
safe_name id = do
  raise_if (is_empty id || unsafe_name id) unsupported_characters
  ok (id ++ text ".json")

-- `str(v)`; the text of `other` is what `str` gives of the value.
unfoldable pub str_of : Json → Text
str_of null = text "None"
str_of (num n) = decimal n
str_of (str s) = s
str_of (other s) = s

unfoldable pub str_values : Object → Dict Text
str_values [] = []
str_values ((k, v) ∷ o) = (k, str_of v) ∷ str_values o

unfoldable pub json_values : Dict Text → Object
json_values [] = []
json_values ((k, v) ∷ d) = (k, str v) ∷ json_values d

unfoldable pub to_dict : JournalRecord → Dict Field
to_dict r =
    (text "operation_id", value (str r.operation_id))
    ∷ (text "state", value (str r.state))
    ∷ (text "binding", dict (json_values r.binding))
    ∷ (text "result", elim r.result [ none ↦ value null | some o ↦ dict o ])
    ∷ (text "updated_at", value (str r.updated_at))
    ∷ []

-- `if record.binding != binding: raise`
unfoldable pub assert_binding : JournalRecord → Dict Text → Result JournalError (Unit {0})
assert_binding record_of binding =
    raise_if (not (dict_eq text_eq record_of.binding binding)) different_inputs

-- `prior.result == result`
unfoldable pub result_is : Option Object → Object → Bool
result_is none o = false
result_is (some p) o = dict_eq json_eq p o

-- The slots, with another one at a name.
unfoldable pub put : (Text → Slot) → Text → Slot → Text → Slot
put slots name slot n = if text_eq n name then slot else slots n
