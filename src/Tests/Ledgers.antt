-- ===== src/Tests/Ledgers.antt =====
-- The three ledgers on short files. The digest of a row is a fixed text, and every time parses.
use sara_pro.Prelude.{ℕ, ◌+◌, ◌≡◌, ◌⊎◌, refl, [], ◌∷◌, ◌++◌, Option, some, ok, fold_result}
use sara_pro.Bytes.{Text, text, text_eq, strip, strip_left, is_space}
use sara_pro.Ledger.{
  Json, num, str, Object, object, get, remove, last, genesis, absent, lines, append_line,
}
use sara_pro.Ledger.Chain.{Chain, link}
use sara_pro.Ledger.Tamper.{Collision}
use sara_pro.QuantumPolicy.Types.{hybrid_required}
use sara_pro.PolicyEpoch.States.{state_text, state_of_text, state_of_json}
use sara_pro.PolicyEpoch.{
  read_object, read_line, read_file, read, TransitionArgs, check_last, previous_hash, base_record,
  transition, current, assert_current,
}
use sara_pro.PolicyEpoch.Rollback.{
  RisingTo, read-RisingTo, transition-assert_current, transition_stale,
}
use sara_pro.AuthorizationLedger.{
  LedgerState, verify_line, verify_lines, verify_unlocked, append_authorization_receipt,
}
use sara_pro.AuthorizationLedger.Tamper.{
  receipt, hash_of, bodies, append_authorization_receipt-verify, verify_lines-same,
}

abbrev fixed : Object → Text
fixed o = text "digest"

abbrev fixed_text : Text → Text
fixed_text t = text "text digest"

abbrev any_time : Text → Option Text
any_time t = some t

abbrev args : TransitionArgs
args = record {
  policy_state = hybrid_required;
  policy_epoch = text " epoch-1 ";
  effective_at = text "2026-01-01T00:00:00Z";
  reason = text "start";
  expected_sequence = 0;
}

abbrev row : Object
row =
    base_record args 1 genesis (text "2026-01-01T00:00:00Z") (text "text digest")
    ++ (text "record_hash", str (text "digest")) ∷ []

written : transition fixed fixed_text any_time args absent ≡ ok (row, lines (object row ∷ []))
unfolding transition read read_file last check_last previous_hash append_line strip strip_left
    is_space state_text
written = refl

transition-assert_current_example :
    (lines (object row ∷ []) ≡ append_line absent row)
    × (current fixed (lines (object row ∷ [])) ≡ ok (some row))
    × (assert_current fixed hybrid_required (strip (text " epoch-1 ")) (lines (object row ∷ []))
        ≡ ok row)
transition-assert_current_example =
    transition-assert_current fixed fixed_text any_time args absent tt written

transition_stale_example : ¬ (
    transition fixed fixed_text any_time args (lines (object row ∷ []))
    ≡ ok (row, lines (object row ∷ [])))
transition_stale_example = transition_stale fixed fixed_text any_time args args absent refl written

read_back : read fixed (lines (object row ∷ [])) ≡ ok (row ∷ [])
unfolding read read_file read_line read_object fold_result get remove text_eq state_of_json
    state_of_text state_text strip strip_left is_space
read_back = refl

read-RisingTo_example : (m : ℕ) × RisingTo 0 (row ∷ []) m
read-RisingTo_example = read-RisingTo fixed (lines (object row ∷ [])) read_back

abbrev nothing : LedgerState
nothing = record { records = 0; tip_hash = genesis }

abbrev payload_digest : Json → Text
payload_digest j = text "payload digest"

verified : verify_unlocked fixed absent ≡ ok nothing
unfolding verify_unlocked verify_lines
verified = refl

abbrev first : Object
first = receipt fixed payload_digest (num 7) nothing

append_authorization_receipt-verify_example :
    (append_authorization_receipt fixed payload_digest (num 7) absent
      ≡ ok (first, append_line absent first))
    × (verify_unlocked fixed (append_line absent first)
        ≡ ok (record { records = 0 + 1; tip_hash = hash_of fixed payload_digest (num 7) nothing }))
append_authorization_receipt-verify_example =
    append_authorization_receipt-verify fixed payload_digest (num 7) absent nothing verified

abbrev chain : Object → Chain
chain o = record { rows = o ∷ []; prev = text "digest" }

first_read : verify_lines fixed (lines (object first ∷ [])) ≡ ok (chain first)
unfolding verify_lines verify_line link fold_result get remove text_eq
first_read = refl

abbrev forged : Object
forged = receipt fixed payload_digest (num 8) nothing

forged_read : verify_lines fixed (lines (object forged ∷ [])) ≡ ok (chain forged)
unfolding verify_lines verify_line link fold_result get remove text_eq
forged_read = refl

-- The fixed digest has collisions, so that a forged receipt is found out as one.
verify_lines-same_example :
    (bodies fixed (chain first) ≡ bodies fixed (chain forged)) ⊎ Collision fixed
verify_lines-same_example =
    verify_lines-same fixed (lines (object first ∷ [])) (lines (object forged ∷ [])) first_read
      forged_read refl refl
