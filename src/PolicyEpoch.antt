-- ===== src/PolicyEpoch.antt =====
-- policy_epoch.py: the durable anti-rollback ledger of quantum-policy states. The ledger is its file;
-- SHA-256 of the canonical JSON (`digest`), SHA-256 of a text and the reading of ISO-8601 times are
-- parameters.
pub mod Order
pub mod States
pub mod Tips
pub mod Transition
pub mod Rollback
use sara_pro.Prelude.{
  ℕ, ◌+◌, ◌≡◌, List, [], ◌∷◌, ◌++◌, Option, none, some, Bool, true, false, ◌&&◌, ◌||◌, not, length,
  ltb, ◌==◌, if◌then◌else◌, Result, ok, err, ◌>>=◌, ◌>>◌, raise_if, or_raise, fold_result,
}
use sara_pro.Bytes.{Text, text, text_eq, strip, is_empty}
use sara_pro.Ledger.{
  Json, num, str, Object, Line, malformed, blank, object, genesis, get, remove, is_num, is_str,
  last, LedgerFile, absent, unsafe, lines, unended, append_line,
}
use sara_pro.QuantumPolicy.Types.{CryptoPolicyState}
use sara_pro.PolicyEpoch.Order.{order}
use sara_pro.PolicyEpoch.States.{state_text, state_of_json}

-- A PolicyEpochError by its message; `key_error` is Python's KeyError.
pub data EpochError : Type 0 where
  not_private_regular_file invalid_json chain_break hash_mismatch invalid_state : EpochError
  contains_downgrade bad_epoch bad_reason stale_writer downgrade_forbidden epoch_names_two_states :
      EpochError
  bad_time no_anchored_state does_not_match_anchor key_error : EpochError

-- The variables of the loop in `_read`: `rows`, `prev`, and the policy state of `rows[-1]`.
pub record ReadState : Type 0 where
  pub rows : List Object
  pub prev : Text
  pub state : Option CryptoPolicyState

abbrev pub start : ReadState
start = record { rows = []; prev = genesis; state = none }

-- `_ORDER[state] < _ORDER[prev_state]`, if there is a previous row
abbrev pub is_downgrade : CryptoPolicyState → Option CryptoPolicyState → Bool
is_downgrade state none = false
is_downgrade state (some prior) = ltb (order state) (order prior)

-- The test of the sequence number and of the previous hash.
abbrev pub breaks_chain : ReadState → Object → Bool
breaks_chain s body =
    not (is_num (get (text "sequence") body) (length s.rows + 1))
    || not (is_str (get (text "previous_hash") body) s.prev)

module _ (digest : Object → Text) where
  -- The body of the loop in `_read`; `line_no` is one more than the number of rows.
  unfoldable pub read_object : ReadState → Object → Result EpochError ReadState
  read_object s row = do
    let claimed = get (text "record_hash") row
    let body = remove (text "record_hash") row
    raise_if (breaks_chain s body) chain_break
    raise_if (not (is_str claimed (digest body))) hash_mismatch
    state ← or_raise (state_of_json (get (text "policy_state") body)) invalid_state
    raise_if (is_downgrade state s.state) contains_downgrade
    ok (record {
      rows = s.rows ++ (body ++ (text "record_hash", str (digest body)) ∷ []) ∷ [];
      prev = digest body;
      state = some state;
    })

  unfoldable pub read_line : ReadState → Line → Result EpochError ReadState
  read_line s malformed = err invalid_json
  read_line s blank = err invalid_json
  read_line s (object row) = read_object s row

  unfoldable pub read_file : LedgerFile → Result EpochError ReadState
  read_file absent = ok start
  read_file unsafe = err not_private_regular_file
  read_file (lines l) = fold_result read_line start l
  read_file (unended l x) = fold_result read_line start (l ++ x ∷ [])

  -- `_read`
  unfoldable pub read : LedgerFile → Result EpochError (List Object)
  read file = do s ← read_file file; ok s.rows

-- `CryptoPolicyState(row["policy_state"])` and `row[k]` of a row
abbrev pub str_of : Option Json → Result EpochError Text
str_of (some (str t)) = ok t
str_of _ = err key_error

abbrev pub str_field : Text → Object → Result EpochError Text
str_field k row = str_of (get k row)

pub record TransitionArgs : Type 0 where
  pub policy_state : CryptoPolicyState
  pub policy_epoch : Text
  pub effective_at : Text
  pub reason : Text
  pub expected_sequence : ℕ

-- `row["policy_epoch"] == t`; what is no string differs from it
abbrev pub names_epoch : Option Json → Text → Result EpochError Bool
names_epoch none t = err key_error
names_epoch (some (str e)) t = ok (text_eq e t)
names_epoch (some _) t = ok false

-- The tests against the last row, which raise on a downgrade and on an epoch with two states.
unfoldable pub check_last : TransitionArgs → Option Object → Result EpochError (Unit {0})
check_last args none = ok tt
check_last args (some row) = do
  current ← or_raise (state_of_json (get (text "policy_state") row)) invalid_state
  raise_if (ltb (order args.policy_state) (order current)) downgrade_forbidden
  same_epoch ← names_epoch (get (text "policy_epoch") row) args.policy_epoch
  raise_if (same_epoch && not (order current == order args.policy_state)) epoch_names_two_states

unfoldable pub previous_hash : Option Object → Result EpochError Text
previous_hash none = ok genesis
previous_hash (some row) = str_field (text "record_hash") row

-- `base` of a transition
abbrev pub base_record : TransitionArgs → ℕ → Text → Text → Text → Object
base_record args sequence previous effective reason_hash =
    (text "schema", str (text "WS-QCRYPTO-POLICY-EPOCH-RECORD-V1"))
    ∷ (text "sequence", num sequence)
    ∷ (text "previous_hash", str previous)
    ∷ (text "policy_state", str (state_text args.policy_state))
    ∷ (text "policy_epoch", str (strip args.policy_epoch))
    ∷ (text "effective_at", str effective)
    ∷ (text "reason_sha256", str reason_hash)
    ∷ []

module _ (digest : Object → Text) (sha256_text : Text → Text)
    (parse_time : Text → Option Text) where
  -- `transition`, on the file: the record, and the file with its line behind the others.
  unfoldable pub transition : TransitionArgs → LedgerFile → Result EpochError (Object × LedgerFile)
  transition args file = do
    raise_if (is_empty (strip args.policy_epoch) || ltb 128 (length args.policy_epoch)) bad_epoch
    raise_if (is_empty (strip args.reason) || ltb 2048 (length args.reason)) bad_reason
    rows ← read digest file
    raise_if (not (length rows == args.expected_sequence)) stale_writer
    check_last args (last rows)
    previous ← previous_hash (last rows)
    effective ← or_raise (parse_time args.effective_at) bad_time
    let base = base_record args (length rows + 1) previous effective (sha256_text args.reason)
    let record_row = base ++ (text "record_hash", str (digest base)) ∷ []
    ok (record_row, append_line file record_row)

module _ (digest : Object → Text) where
  -- `current`
  unfoldable pub current : LedgerFile → Result EpochError (Option Object)
  current file = do rows ← read digest file; ok (last rows)

  -- `assert_current`; the answer is the anchored row, whose fields it repeats.
  unfoldable pub assert_current : CryptoPolicyState → Text → LedgerFile → Result EpochError Object
  assert_current policy_state policy_epoch file = do
    row ← (current file >>= λ found. or_raise found no_anchored_state)
    state ← str_field (text "policy_state") row
    raise_if (not (text_eq state (state_text policy_state))) does_not_match_anchor
    epoch ← str_field (text "policy_epoch") row
    raise_if (not (text_eq epoch policy_epoch)) does_not_match_anchor
    ok row
