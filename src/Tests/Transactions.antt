-- ===== src/Tests/Transactions.antt =====
-- An unsigned transaction of one input and one P2WPKH output, parsed, serialized and evaluated.
use sara_pro.Prelude.{◌≡◌, refl, [], ◌∷◌, ◌++◌, true, false, ok}
use sara_pro.Prelude.Int.{pos}
use sara_pro.Bytes.{Bytes, IsBytes, le_value, signed_value, to_hex, hex_char}
use sara_pro.BitcoinTx.Types.{BitcoinTransaction}
use sara_pro.BitcoinTx.CompactSize.{read_payload, read_compact_size, read_slice}
use sara_pro.BitcoinTx.Serialize.{serialize}
use sara_pro.BitcoinTx.Parse.{
  read_bounded, read_many, parse_input, parse_output, parse_outputs, parse_segwit_part,
  strip_marker, parse_vin, parse_vout, parse_body, parse_transaction,
}
use sara_pro.BitcoinTx.RoundTrip.Canonical.{serialize-parse_transaction}
use sara_pro.BitcoinTx.RoundTrip.Restores.{parse_transaction-serialize}
use sara_pro.BitcoinTx.RoundTrip.Vectors.{IsWellFormed}
use sara_pro.Tests.{repeat, all_bytes, all_bytes→IsBytes}

abbrev pub script : Bytes
script = 0 ∷ 20 ∷ repeat 20 7

abbrev pub raw : Bytes
raw =
    2 ∷ 0 ∷ 0 ∷ 0 ∷ 1 ∷ []
    ++ (repeat 32 0
        ++ (0 ∷ 0 ∷ 0 ∷ 0 ∷ 0 ∷ 255 ∷ 255 ∷ 255 ∷ 255 ∷ 1 ∷ 232 ∷ 3 ∷ 0 ∷ 0 ∷ 0 ∷ 0 ∷ 0 ∷ 0 ∷ 22
              ∷ []
            ++ (script ++ 0 ∷ 0 ∷ 0 ∷ 0 ∷ [])))

abbrev pub tx : BitcoinTransaction
tx = record {
  version = pos 2;
  inputs =
      record {
        prev_txid = repeat 64 48;
        vout = 0;
        script_sig = [];
        sequence = 4294967295;
        witness = [];
      }
      ∷ [];
  outputs = record { value_sat = 1000; script_pubkey = script } ∷ [];
  locktime = 0;
  segwit = false;
}

pub raw-IsBytes : IsBytes raw
unfolding all_bytes
raw-IsBytes = all_bytes→IsBytes raw refl

pub parses : parse_transaction raw ≡ ok tx
unfolding parse_transaction parse_body parse_vin parse_vout parse_input parse_output parse_outputs
    parse_segwit_part strip_marker read_many read_bounded read_slice read_compact_size read_payload
    le_value signed_value to_hex hex_char
parses = refl

pub prints : serialize true tx ≡ ok raw
prints = (serialize-parse_transaction raw tx raw-IsBytes parses).0

pub tx-IsWellFormed : IsWellFormed tx
tx-IsWellFormed = (serialize-parse_transaction raw tx raw-IsBytes parses).1

serialize-parse_transaction_example : (serialize true tx ≡ ok raw) × IsWellFormed tx
serialize-parse_transaction_example = serialize-parse_transaction raw tx raw-IsBytes parses

parse_transaction-serialize_example : parse_transaction raw ≡ ok tx
parse_transaction-serialize_example = parse_transaction-serialize tx raw tx-IsWellFormed prints
