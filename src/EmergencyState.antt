-- ===== src/EmergencyState.antt =====
-- emergency_state.py: the durable ledger of the emergency mode. `digest` is the SHA-256 of a row's canonical
-- JSON. White space that JSON skips is not among the lines; a `blank` line has other white space.
pub mod Transition
pub mod Recovery
use sara_pro.Prelude.{
  ℕ, ◌+◌, ◌≡◌, refl, List, [], ◌∷◌, ◌++◌, Option, none, some, Bool, true, false, ◌&&◌, ◌||◌, not,
  length, ltb, leb, ◌==◌, if◌then◌else◌, Result, ok, err, ◌>>=◌, ◌>>◌, raise_if, or_raise,
  fold_result,
}
use sara_pro.Bytes.{Text, text, text_eq, lower, CaseTables, is_empty}
use sara_pro.Ledger.{
  Json, null, num, str, other, Object, Line, malformed, blank, object, genesis, get, last,
  LedgerFile, absent, unsafe, lines, unended, append_line,
}
use sara_pro.Ledger.Chain.{Chain, no_rows, Linking, link}

-- `EmergencyMode` of governance_plane.py
pub data EmergencyMode : Type 0 where
  normal freeze migration_only : EmergencyMode

-- `_SEVERITY`
unfoldable pub severity : EmergencyMode → ℕ
severity normal = 0
severity migration_only = 1
severity freeze = 2

unfoldable pub mode_text : EmergencyMode → Text
mode_text normal = text "NORMAL"
mode_text freeze = text "FREEZE"
mode_text migration_only = text "MIGRATION_ONLY"

-- `EmergencyMode(t)`; `none` is a ValueError
unfoldable pub mode_of_text : Text → Option EmergencyMode
mode_of_text t =
    if text_eq t (text "NORMAL")
    then some normal
    else if text_eq t (text "FREEZE")
    then some freeze
    else if text_eq t (text "MIGRATION_ONLY")
    then some migration_only
    else none

-- `EmergencyMode(row["mode"])`; `none` is a KeyError or a ValueError
unfoldable pub mode_of_json : Option Json → Option EmergencyMode
mode_of_json (some (str t)) = mode_of_text t
mode_of_json (some null) = none
mode_of_json (some (num n)) = none
mode_of_json (some (other t)) = none
mode_of_json none = none

-- An EmergencyStateError by its message; `bad_json` is what `json.loads` raises, `value_error` a KeyError
-- or ValueError.
pub data EmergencyError : Type 0 where
  not_hex32 unsafe_file bad_json chain_invalid hash_invalid value_error : EmergencyError
  reason_required stale_writer recovery_required mode_mismatch : EmergencyError

-- `c in "0123456789abcdef"`
unfoldable pub all_lower_hex : Text → Bool
all_lower_hex [] = true
all_lower_hex (c ∷ t) = ((leb 48 c && leb c 57) || (leb 97 c && leb c 102)) && all_lower_hex t

-- `_hex32`
unfoldable pub hex32 : CaseTables → Text → Result EmergencyError Text
hex32 tables value = do
  let t = lower tables value
  raise_if (not (length t == 64) || not (all_lower_hex t)) not_hex32
  ok t

unfoldable pub load_lines : List Line → Result EmergencyError (List Object)
load_lines [] = ok []
load_lines (malformed ∷ l) = err bad_json
load_lines (blank ∷ l) = load_lines l
load_lines (object row ∷ l) = do rows ← load_lines l; ok (row ∷ rows)

-- The mode of the last row, `NORMAL` without one.
unfoldable pub mode_of_last : Option Object → Result EmergencyError EmergencyMode
mode_of_last none = ok normal
mode_of_last (some row) = or_raise (mode_of_json (get (text "mode") row)) value_error

-- `rows[-1]["record_sha256"] if rows else "0"*64`
unfoldable pub tip_of : Option Object → Option Json
tip_of none = some (str genesis)
tip_of (some row) = get (text "record_sha256") row

pub record TransitionArgs : Type 0 where
  pub mode : EmergencyMode
  pub reason : Text
  pub expected_sequence : ℕ
  pub recovery_authorization_sha256 : Option Text

-- The recovery digest as it is recorded: checked where it is given, and demanded where `mode` is less
-- severe than `prior`.
unfoldable pub check_recovery :
    CaseTables → EmergencyMode → EmergencyMode → Option Text → Result EmergencyError (Option Text)
check_recovery tables mode prior none = do
  raise_if (ltb (severity mode) (severity prior)) recovery_required
  ok none
check_recovery tables mode prior (some digest) = do checked ← hex32 tables digest; ok (some checked)

abbrev pub optional : Option Text → Json
optional none = null
optional (some t) = str t

abbrev pub body_of : TransitionArgs → ℕ → Json → EmergencyMode → Option Text → Object
body_of args sequence previous prior recovery =
    (text "schema", str (text "WS-QCRYPTO-EMERGENCY-STATE-V1"))
    ∷ (text "sequence", num sequence)
    ∷ (text "previous_sha256", previous)
    ∷ (text "mode", str (mode_text args.mode))
    ∷ (text "previous_mode", str (mode_text prior))
    ∷ (text "reason", str args.reason)
    ∷ (text "recovery_authorization_sha256", optional recovery)
    ∷ []

pub record Anchor : Type 0 where
  pub mode : EmergencyMode
  pub sequence : ℕ
  pub tip_sha256 : Json

module _ (digest : Object → Text) where
  abbrev pub linking : Linking EmergencyError
  linking = record {
    hash_key = text "record_sha256";
    previous_key = text "previous_sha256";
    digest = digest;
    broken = chain_invalid;
    mismatch = hash_invalid;
  }

  -- The loop of `_read` over the rows.
  unfoldable pub check_rows : List Object → Result EmergencyError Chain
  check_rows rows = fold_result (link linking) no_rows rows

  unfoldable pub read_lines : List Line → Result EmergencyError Chain
  read_lines l = do rows ← load_lines l; check_rows rows

  -- `_read`: its rows, and the hash that its loop ends with
  unfoldable pub read : LedgerFile → Result EmergencyError Chain
  read absent = ok no_rows
  read unsafe = err unsafe_file
  read (lines l) = read_lines l
  read (unended l x) = read_lines (l ++ x ∷ [])

  -- `transition`: the row, and the file with its line behind the others
  unfoldable pub transition :
      CaseTables → TransitionArgs → LedgerFile → Result EmergencyError (Object × LedgerFile)
  transition tables args file = do
    raise_if (is_empty args.reason || ltb 512 (length args.reason)) reason_required
    s ← read file
    raise_if (not (length s.rows == args.expected_sequence)) stale_writer
    prior ← mode_of_last (last s.rows)
    recovery ← check_recovery tables args.mode prior args.recovery_authorization_sha256
    previous ← or_raise (tip_of (last s.rows)) value_error
    let body = body_of args (length s.rows + 1) previous prior recovery
    let row = body ++ (text "record_sha256", str (digest body)) ∷ []
    ok (row, append_line file row)

  -- `assert_current`
  unfoldable pub assert_current : EmergencyMode → LedgerFile → Result EmergencyError Anchor
  assert_current mode file = do
    s ← read file
    current ← mode_of_last (last s.rows)
    raise_if (not (text_eq (mode_text current) (mode_text mode))) mode_mismatch
    tip ← or_raise (tip_of (last s.rows)) value_error
    ok (record { mode = current; sequence = length s.rows; tip_sha256 = tip })
