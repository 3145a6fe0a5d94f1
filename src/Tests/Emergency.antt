-- ===== src/Tests/Emergency.antt =====
-- An emergency ledger that is frozen and then reopened with a recovery authorization.
use sara_pro.Prelude.{◌+◌, ◌≡◌, ◌<◌, refl, [], ◌∷◌, ◌++◌, none, some, ok, arith, fold_result}
use sara_pro.Bytes.{Text, text, text_eq, lower}
use sara_pro.Ledger.{
  str, Object, object, get, remove, last, genesis, LedgerFile, absent, lines, append_line,
}
use sara_pro.Ledger.Chain.{link}
use sara_pro.EmergencyState.{
  normal, freeze, severity, mode_text, mode_of_text, mode_of_json, all_lower_hex, hex32, load_lines,
  mode_of_last, tip_of, TransitionArgs, check_recovery, body_of, Anchor, check_rows, read_lines,
  read, transition, assert_current,
}
use sara_pro.EmergencyState.Recovery.{transition-assert_mode, transition_recovery}
use sara_pro.Tests.{ascii, repeat}

abbrev fixed : Object → Text
fixed o = text "digest"

abbrev freezing : TransitionArgs
freezing = record {
  mode = freeze;
  reason = text "q-day";
  expected_sequence = 0;
  recovery_authorization_sha256 = none;
}

abbrev reopening : TransitionArgs
reopening = record {
  mode = normal;
  reason = text "cleared";
  expected_sequence = 1;
  recovery_authorization_sha256 = some (repeat 64 65);
}

abbrev frozen_row : Object
frozen_row =
    body_of freezing 1 (str genesis) normal none ++ (text "record_sha256", str (text "digest")) ∷ []

abbrev frozen : LedgerFile
frozen = lines (object frozen_row ∷ [])

frozen_written : transition fixed ascii freezing absent ≡ ok (frozen_row, frozen)
unfolding transition read last mode_of_last check_recovery severity tip_of append_line
frozen_written = refl

transition-assert_mode_example :
    (hash : Text) × (assert_current fixed freeze frozen
      ≡ ok (record { mode = freeze; sequence = 0 + 1; tip_sha256 = str hash }))
transition-assert_mode_example =
    transition-assert_mode fixed ascii freezing absent tt frozen_written

abbrev anchor : Anchor
anchor = record { mode = freeze; sequence = 1; tip_sha256 = str (text "digest") }

frozen_now : assert_current fixed freeze frozen ≡ ok anchor
unfolding assert_current read read_lines load_lines check_rows fold_result link get remove text_eq
    last mode_of_last mode_of_json mode_of_text mode_text tip_of
frozen_now = refl

abbrev open_row : Object
open_row =
    body_of reopening 2 (str (text "digest")) freeze (some (repeat 64 97))
    ++ (text "record_sha256", str (text "digest")) ∷ []

reopened : transition fixed ascii reopening frozen ≡ ok (open_row, append_line frozen open_row)
unfolding transition read read_lines load_lines check_rows fold_result link get remove text_eq last
    mode_of_last mode_of_json mode_of_text mode_text check_recovery severity hex32 lower
    all_lower_hex tip_of append_line
reopened = refl

less : severity normal < severity freeze
unfolding severity
less = omega arith

transition_recovery_example :
    (d : Text) × (t : Text) × (reopening.recovery_authorization_sha256 ≡ some d)
    × (hex32 ascii d ≡ ok t)
    × (get (text "recovery_authorization_sha256") open_row ≡ some (str t))
transition_recovery_example =
    transition_recovery fixed ascii reopening frozen freeze frozen_now less reopened
