-- ===== src/Tests/Addresses.antt =====
-- SegWit addresses of BIP 173 and BIP 350, and an intent with a payment, a change output and a note.
use sara_pro.Prelude.{
  length, inr, ◌++◌, ◌≡◌, refl, List, [], ◌∷◌, none, some, true, false, ok, for_each,
}
use sara_pro.Prelude.Int.{pos}
use sara_pro.Bytes.{
  IsBytes, Bytes, Text, text, text_in, text_eq, upper, lower, strip, char_in, cut_at, from_hex,
}
use sara_pro.BitcoinTx.Types.{TxOutput}
use sara_pro.QuantumPolicy.Types.{normalized_network}
use sara_pro.QuantumPolicy.Outputs.{is_mainnet}
use sara_pro.AddressCodec.{
  address_to_scriptpubkey, network_params, decode_address, bech32_decode, split_bech32, cut_last,
  indexes_of, index_of, polymod_onto, add_generators, xor_bits, segwit_script, witness_script,
  bits_to_bytes,
}
use sara_pro.AddressCodec.Networks.{address_to_scriptpubkey-mainnet}
use sara_pro.AddressCodec.Kinds.{Kind, address_to_scriptpubkey-Kind}
use sara_pro.OutputIntent.{
  OutputIntentPolicy, OutputIntentReport, evaluate_output_intent, resolve_script, destination,
  allowed_change_scripts, script_of_hex, indexed, match_payments, choose, change_of,
  unauthorized_of, insert_index, sorted_indexes, report_of,
}
use sara_pro.OutputIntent.Intended.{Intended, evaluate_output_intent-Intended}
use sara_pro.AddressCodec.Encode.{
  symbol, bytes_to_bits, bech32_encode, witness_address, program_address, scriptpubkey_to_address,
}
use sara_pro.AddressCodec.Restores.{address_to_scriptpubkey-scriptpubkey_to_address}
use sara_pro.BitcoinTx.Script.{is_p2sh}
use sara_pro.Tests.{ascii, repeat, all_bytes, all_bytes→IsBytes}

abbrev no_hash : Bytes → Bytes
no_hash b = []

abbrev segwit_address : Text
segwit_address = text "bc1qw508d6qejxtdg4y5r3zarvary0c5xw7kv8f3t4"

abbrev program_script : Bytes
program_script =
    0x00 ∷ 0x14 ∷ 0x75 ∷ 0x1e ∷ 0x76 ∷ 0xe8 ∷ 0x19 ∷ 0x91 ∷ 0x96 ∷ 0xd4 ∷ 0x54 ∷ 0x94 ∷ 0x1c ∷ 0x45
    ∷ 0xd1 ∷ 0xb3 ∷ 0xa3 ∷ 0x23 ∷ 0xf1 ∷ 0x43 ∷ 0x3b ∷ 0xd6 ∷ []

decoded : address_to_scriptpubkey no_hash ascii segwit_address (text "mainnet") ≡ ok program_script
unfolding address_to_scriptpubkey network_params is_mainnet text_in text_eq normalized_network upper
    strip decode_address char_in cut_at lower bech32_decode split_bech32 cut_last indexes_of
    index_of polymod_onto add_generators xor_bits segwit_script witness_script bits_to_bytes
decoded = refl

main_name : is_mainnet (normalized_network ascii (text "mainnet")) ≡ true
unfolding is_mainnet sara_pro.Bytes.text_in sara_pro.Bytes.text_eq normalized_network
    sara_pro.Bytes.upper sara_pro.Bytes.strip
main_name = refl

test_name : is_mainnet (normalized_network ascii (text "testnet")) ≡ false
unfolding is_mainnet sara_pro.Bytes.text_in sara_pro.Bytes.text_eq normalized_network
    sara_pro.Bytes.upper sara_pro.Bytes.strip
test_name = refl

address_to_scriptpubkey-mainnet_example :
    ¬ (address_to_scriptpubkey no_hash ascii segwit_address (text "testnet") ≡ ok program_script)
address_to_scriptpubkey-mainnet_example =
    address_to_scriptpubkey-mainnet no_hash ascii segwit_address (text "mainnet") (text "testnet")
      main_name test_name decoded

address_to_scriptpubkey-Kind_example : Kind program_script
address_to_scriptpubkey-Kind_example =
    address_to_scriptpubkey-Kind no_hash ascii segwit_address (text "mainnet") decoded

abbrev outputs : List TxOutput
outputs =
    record { value_sat = 700; script_pubkey = 0x52 ∷ [] }
    ∷ record { value_sat = 0; script_pubkey = 0x6a ∷ 0x00 ∷ [] }
    ∷ record { value_sat = 5; script_pubkey = program_script }
    ∷ []

abbrev policy : OutputIntentPolicy
policy = record {
  expected_payments =
      record { amount_sat = pos 5; address = some segwit_address; script_pubkey_hex = none } ∷ [];
  allowed_change_addresses = [];
  allowed_change_script_pubkeys_hex = text "52" ∷ [];
  max_change_outputs = pos 1;
  allow_unlisted_zero_value_op_return = true;
}

abbrev satisfied_report : OutputIntentReport
satisfied_report = record {
  satisfied = true;
  matched_payment_indexes = 2 ∷ [];
  change_output_indexes = 0 ∷ [];
  unauthorized_output_indexes = [];
}

evaluated :
    evaluate_output_intent no_hash ascii outputs (text "mainnet") policy ≡ ok satisfied_report
unfolding evaluate_output_intent for_each resolve_script destination allowed_change_scripts
    script_of_hex from_hex indexed match_payments choose change_of unauthorized_of insert_index
    sorted_indexes report_of address_to_scriptpubkey network_params is_mainnet text_in text_eq
    normalized_network upper strip decode_address char_in cut_at lower bech32_decode split_bech32
    cut_last indexes_of index_of polymod_onto add_generators xor_bits segwit_script witness_script
    bits_to_bytes sara_pro.Bytes.is_ascii_space sara_pro.Bytes.hex_digit
evaluated = refl

evaluate_output_intent-Intended_example : Intended no_hash ascii outputs (text "mainnet") policy
evaluate_output_intent-Intended_example =
    evaluate_output_intent-Intended no_hash ascii outputs (text "mainnet") policy evaluated refl

encoded : scriptpubkey_to_address no_hash ascii program_script (text "mainnet") ≡ ok segwit_address
unfolding scriptpubkey_to_address network_params is_mainnet text_in text_eq normalized_network upper
    strip program_address witness_address bech32_encode symbol bytes_to_bits xor_bits polymod_onto
    add_generators
encoded = refl

-- a digest of 32 bytes
abbrev zeros : Bytes → Bytes
zeros b = repeat 32 0

zeros-IsBytes : (b : Bytes) → IsBytes (zeros b) × (length (zeros b) ≡ 32)
unfolding all_bytes
zeros-IsBytes b = (all_bytes→IsBytes (zeros b) refl, refl)

abbrev script_hash_script : Bytes
script_hash_script = 0xa9 ∷ 0x14 ∷ (repeat 20 7 ++ 0x87 ∷ [])

is_script_hash : is_p2sh script_hash_script ≡ true
unfolding text_eq
is_script_hash = refl

address_to_scriptpubkey-scriptpubkey_to_address_example :
    (address : Text) × (scriptpubkey_to_address zeros ascii script_hash_script (text "mainnet")
      ≡ ok address)
    × (address_to_scriptpubkey zeros ascii address (text "mainnet") ≡ ok script_hash_script)
unfolding all_bytes
address_to_scriptpubkey-scriptpubkey_to_address_example =
    address_to_scriptpubkey-scriptpubkey_to_address zeros ascii script_hash_script (text "mainnet")
      zeros-IsBytes (all_bytes→IsBytes script_hash_script refl) (inr is_script_hash) main_name
