-- ===== src/AuthorizationLedger.antt =====
-- authorization_ledger.py: append-only, hash-chained authorization receipts. `digest` is `_hash_record`
-- and `payload_digest` the SHA-256 of a payload's canonical JSON. A line that no newline
-- ends is refused.
pub mod Tamper
use sara_pro.Prelude.{ℕ, ◌+◌, ◌≡◌, List, [], ◌∷◌, ◌++◌, length, Result, ok, err, ◌>>=◌, fold_result}
use sara_pro.Bytes.{Text, text}
use sara_pro.Ledger.{
  Json, num, str, Object, Line, malformed, blank, object, genesis, LedgerFile, absent, unsafe,
  lines, unended, append_line,
}
use sara_pro.Ledger.Chain.{Chain, no_rows, Linking, link}

-- An AuthorizationLedgerError by its message.
pub data AuthorizationError : Type 0 where
  unsafe_file not_newline_terminated invalid_line chain_break hash_mismatch : AuthorizationError

pub record LedgerState : Type 0 where
  pub records : ℕ
  pub tip_hash : Text

module _ (digest : Object → Text) where
  abbrev pub receipts : Linking AuthorizationError
  receipts = record {
    hash_key = text "record_hash";
    previous_key = text "previous_hash";
    digest = digest;
    broken = chain_break;
    mismatch = hash_mismatch;
  }

  -- The body of the loop of `_verify_unlocked`.
  unfoldable pub verify_line : Chain → Line → Result AuthorizationError Chain
  verify_line s malformed = err invalid_line
  verify_line s blank = err invalid_line
  verify_line s (object rec) = link receipts s rec

  unfoldable pub verify_lines : LedgerFile → Result AuthorizationError Chain
  verify_lines absent = ok no_rows
  verify_lines unsafe = err unsafe_file
  verify_lines (lines l) = fold_result verify_line no_rows l
  verify_lines (unended l x) = do s ← fold_result verify_line no_rows l; err not_newline_terminated

  -- `_verify_unlocked`, which `verify_authorization_ledger` calls under the shared lock
  unfoldable pub verify_unlocked : LedgerFile → Result AuthorizationError LedgerState
  verify_unlocked file = do
    s ← verify_lines file
    ok (record { records = length s.rows; tip_hash = s.prev })

  abbrev pub receipt_base : LedgerState → Text → Json → Object
  receipt_base state payload_hash payload =
      (text "schema", str (text "WS-BITCOIN-AUTHORIZATION-LEDGER-RECORD-V1"))
      ∷ (text "sequence", num (state.records + 1))
      ∷ (text "previous_hash", str state.tip_hash)
      ∷ (text "payload_sha256", str payload_hash)
      ∷ (text "payload", payload)
      ∷ []

  -- `append_authorization_receipt`, under the exclusive lock: the record and the file with its line.
  unfoldable pub append_authorization_receipt :
      (Json → Text) → Json → LedgerFile → Result AuthorizationError (Object × LedgerFile)
  append_authorization_receipt payload_digest payload file = do
    state ← verify_unlocked file
    let base = receipt_base state (payload_digest payload) payload
    let rec = base ++ (text "record_hash", str (digest base)) ∷ []
    ok (rec, append_line file rec)
