-- ===== src/Tests/Evaluation.antt =====
-- The output policy on the bytes of a transaction, with the identity in place of SHA-256.
use sara_pro.Prelude.{◌≡◌, ◌↔◌, refl, [], length, reverse, true, false, ok}
use sara_pro.Bytes.{
  Bytes, Text, text, to_hex, le_bytes, to_bytes, to_unsigned, from_hex, hex_digit, is_ascii_space,
  strip, strip_left, is_space, upper, remove_char, text_eq, text_in,
}
use sara_pro.BitcoinTx.Types.{BitcoinTransaction}
use sara_pro.BitcoinTx.CompactSize.{encode_compact_size}
use sara_pro.BitcoinTx.Serialize.{
  serialize, serialize_counted, serialize_input, serialize_output, serialize_witnesses, emit_all,
  signed_bytes, with_length,
}
use sara_pro.BitcoinTx.Parse.{raw_bytes, parse_raw}
use sara_pro.BitcoinTx.Script.{classify_script_pubkey}
use sara_pro.BitcoinTx.Evaluate.{
  EvaluationArgs, TransactionPolicyReport, any_outside, any_input, all_allowed, sha256d, tx_hash,
  decide_by_policy, decide_serialized, decide_outputs, report_of, evaluate_serialized_transaction,
}
use sara_pro.BitcoinTx.Evaluate.Release.{
  Released, evaluate_serialized_transaction_iff, evaluate_serialized_transaction-mainnet,
}
use sara_pro.BitcoinTx.Evaluate.Total.{Reports, evaluate_serialized_transaction_total}
use sara_pro.QuantumPolicy.Types.{
  ecdsa_allowed, normalized_network, normalized_script_type, is_always_exposed, is_hash_hidden,
  is_p2mr,
}
use sara_pro.QuantumPolicy.Outputs.{
  is_mainnet, is_test_network, evaluate_new_output, decide_output, output_allowed, state_allows,
  is_unknown_script,
}
use sara_pro.Tests.{ascii}
use sara_pro.Tests.Transactions.{raw, raw-IsBytes, tx, parses}

abbrev same : Bytes → Bytes
same bs = bs

abbrev on : Text → EvaluationArgs
on network = record {
  network = network;
  policy_state = ecdsa_allowed;
  pq_recovery_output_indexes = [];
  allow_zero_value_op_return = false;
}

inside :
    (network : Text)
    → any_outside (length tx.outputs) (on network).pq_recovery_output_indexes ≡ false
unfolding any_outside
inside network = refl

evaluate_serialized_transaction_total_example :
    (bs : Bytes) × (r : TransactionPolicyReport) × (serialize false tx ≡ ok bs)
    × (evaluate_serialized_transaction ascii same (raw_bytes raw) (on (text "signet")) ≡ ok r)
    × Reports ascii same (on (text "signet")) tx raw bs r
evaluate_serialized_transaction_total_example =
    evaluate_serialized_transaction_total ascii same (on (text "signet")) raw tx raw-IsBytes parses
      (inside (text "signet"))

abbrev reported : Text → TransactionPolicyReport
reported network =
    report_of ascii same (on network) tx (to_hex (reverse (sha256d same raw)))
      (to_hex (reverse (sha256d same raw)))

evaluated :
    (network : Text)
    → evaluate_serialized_transaction ascii same (raw_bytes raw) (on network)
      ≡ ok (reported network)
unfolding evaluate_serialized_transaction parse_raw any_outside tx_hash serialize serialize_counted
    serialize_input serialize_output serialize_witnesses emit_all signed_bytes with_length
    encode_compact_size to_bytes le_bytes to_unsigned from_hex hex_digit is_ascii_space
evaluated network = rw parses

allowed : (reported (text "signet")).allowed ≡ true
unfolding report_of all_allowed decide_outputs decide_serialized decide_by_policy any_input
    normalized_network text_eq text_in strip strip_left is_space upper classify_script_pubkey
    evaluate_new_output is_mainnet is_test_network decide_output output_allowed state_allows
    is_unknown_script is_always_exposed is_hash_hidden is_p2mr normalized_script_type remove_char
allowed = refl

evaluate_serialized_transaction_iff_example :
    (t : BitcoinTransaction) × (parse_raw (raw_bytes raw) ≡ ok t)
    × (((reported (text "signet")).allowed ≡ true) ↔ Released ascii same (on (text "signet")) t)
evaluate_serialized_transaction_iff_example =
    evaluate_serialized_transaction_iff ascii same (on (text "signet")) (raw_bytes raw)
      (reported (text "signet")) (evaluated (text "signet"))

mainnet : is_mainnet (normalized_network ascii (text " bitcoin_mainnet")) ≡ true
unfolding is_mainnet normalized_network text_in text_eq strip strip_left is_space upper
mainnet = refl

evaluate_serialized_transaction-mainnet_example :
    (reported (text " bitcoin_mainnet")).allowed ≡ false
evaluate_serialized_transaction-mainnet_example =
    evaluate_serialized_transaction-mainnet ascii same (on (text " bitcoin_mainnet")) raw
      (reported (text " bitcoin_mainnet")) raw-IsBytes mainnet (evaluated (text " bitcoin_mainnet"))
