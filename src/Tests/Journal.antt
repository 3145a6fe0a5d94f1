-- ===== src/Tests/Journal.antt =====
-- A signing operation that is claimed by two workers and completed.
use sara_pro.Prelude.{◌≤◌, ◌≡◌, refl, List, [], ◌∷◌, none, some, true, ok, err}
use sara_pro.Bytes.{Text, text, text_eq, char_in, Dict, get_item, dict_eq}
use sara_pro.Ledger.{str, Object}
use sara_pro.OperationJournal.{
  result_conflicts, JournalRecord, missing, Journal, in_flight_state, signed_state, safe_name, put,
  assert_binding, result_is,
}
use sara_pro.OperationJournal.Operations.{
  entry, read_slot, write_unlocked, read_unlocked, get, commit, claim_after, claim_for_sign,
  mark_signed, sign_after, replay,
}
use sara_pro.OperationJournal.Serve.{
  Request, claim, sign, lose, path, file_of, serve_all, grants, read_slot-to_dict,
}
use sara_pro.OperationJournal.Phases.{
  Phase, unclaimed, in_flight, done, view, Moves, phase, serve_all-Moves,
}
use sara_pro.OperationJournal.Progress.{grants_once, serve_all-signed}
use sara_pro.OperationJournal.Completion.{Refused, mark_signed-Refused, claim_for_sign-mark_signed}

abbrev pub braces : Object → Text
braces o = text "{}"

abbrev pub empty : Journal
empty = record { locking = true; slots = λ n. missing }

abbrev op : Text
op = text "op-1"

abbrev inputs : Dict Text
inputs = (text "key_arn", text "k") ∷ (text "message_sha256", text "m") ∷ []

abbrev swapped : Dict Text
swapped = (text "message_sha256", text "m") ∷ (text "key_arn", text "k") ∷ []

abbrev answer : Object
answer = (text "signature", str (text "s")) ∷ []

abbrev forged : Object
forged = (text "signature", str (text "t")) ∷ []

abbrev requests : List Request
requests =
    claim (text "t0") op inputs
    ∷ claim (text "t1") op swapped
    ∷ sign (text "t2") op inputs answer
    ∷ lose (text "t3") op inputs
    ∷ []

grants_once_example : grants braces op empty requests ≤ 1
grants_once_example = grants_once braces op empty requests

abbrev claimed_record : JournalRecord
claimed_record = entry (text "t0") op in_flight_state inputs none

abbrev claimed_journal : Journal
claimed_journal = record empty { slots = put empty.slots (path op) (file_of claimed_record) }

abbrev signed_record : JournalRecord
signed_record = entry (text "t2") op signed_state inputs (some answer)

abbrev signed_journal : Journal
signed_journal = record empty {
  slots = put claimed_journal.slots (path op) (file_of signed_record);
}

claimed_first :
    claim_for_sign braces (text "t0") empty op inputs ≡ ok (claimed_record, true, claimed_journal)
unfolding claim_for_sign read_unlocked safe_name char_in read_slot claim_after commit write_unlocked
    sara_pro.OperationJournal.unsafe_name
claimed_first = refl

signed_read : read_unlocked braces signed_journal op ≡ ok (some signed_record)
unfolding read_unlocked safe_name char_in put text_eq sara_pro.OperationJournal.unsafe_name
    read_slot
signed_read = read_slot-to_dict braces signed_record

signed_phase :
    phase (read_slot braces (claimed_journal.slots (path op))) ≡ some (in_flight (view inputs))
unfolding put text_eq phase read_slot sara_pro.OperationJournal.Operations.binding_of get_item
    sara_pro.OperationJournal.to_dict sara_pro.OperationJournal.Operations.result_of
    sara_pro.OperationJournal.Phases.phase_of sara_pro.OperationJournal.Operations.str_field
    sara_pro.OperationJournal.str_of sara_pro.OperationJournal.str_values
    sara_pro.OperationJournal.json_values
signed_phase = refl

serve_all-signed_example :
    read_unlocked braces (serve_all braces signed_journal requests) op ≡ ok (some signed_record)
serve_all-signed_example = serve_all-signed braces signed_journal requests op signed_read refl

serve_all-Moves_example :
    (p : Phase) × (phase
        (read_slot braces ((serve_all braces claimed_journal requests).slots (path op)))
      ≡ some p)
    × Moves (in_flight (view inputs)) p
serve_all-Moves_example = serve_all-Moves braces claimed_journal requests (path op) signed_phase

conflict : mark_signed braces (text "t4") signed_journal op swapped forged ≡ err result_conflicts
unfolding mark_signed read_unlocked safe_name sara_pro.OperationJournal.unsafe_name char_in
    read_slot put text_eq sara_pro.OperationJournal.Operations.binding_of get_item
    sara_pro.OperationJournal.to_dict sara_pro.OperationJournal.Operations.result_of sign_after
    assert_binding dict_eq sara_pro.Bytes.agree sara_pro.OperationJournal.str_values
    sara_pro.OperationJournal.json_values sara_pro.Bytes.option_eq sara_pro.OperationJournal.str_of
    sara_pro.OperationJournal.Operations.str_field replay result_is sara_pro.Ledger.Tamper.json_eq
conflict = refl

mark_signed-Refused_example : Refused braces swapped forged (some signed_record) result_conflicts
mark_signed-Refused_example =
    mark_signed-Refused braces (text "t4") signed_journal op swapped forged refl signed_read
      conflict

claim_for_sign-mark_signed_example :
    (j : Journal) × (mark_signed braces (text "t2") claimed_journal op inputs answer
      ≡ ok (signed_record, j))
    × (get braces j op ≡ ok (some signed_record))
claim_for_sign-mark_signed_example =
    claim_for_sign-mark_signed braces (text "t0") (text "t2") empty op inputs answer claimed_first
