-- ===== src/BitcoinTx/Types.antt =====
-- The errors, the bounds and the dataclasses of bitcoin_tx.py. Text is a list of code points.
use sara_pro.Prelude.{ℕ, ◌*◌, List, Bool}
use sara_pro.Prelude.Int.{ℤ}
use sara_pro.Bytes.{Bytes, Text}

-- A BitcoinTxError, by its message; the last two are Python's own OverflowError and ValueError.
pub data TxError : Type 0 where
  truncated_compact_size truncated_payload non_minimal_compact_size compact_size_too_large : TxError
  truncated_slice : TxError
  invalid_prev_txid_hex prev_txid_not_32_bytes output_value_out_of_range : TxError
  invalid_hex too_short unsupported_witness_flag : TxError
  input_count_exceeds_bound zero_inputs script_sig_exceeds_bound : TxError
  output_count_exceeds_bound zero_outputs output_value_exceeds_max_money : TxError
  total_exceeds_max_money script_pubkey_exceeds_bound : TxError
  witness_count_exceeds_bound witness_element_exceeds_bound trailing_bytes : TxError
  pq_index_out_of_range : TxError
  integer_overflow : TxError

abbrev pub max_money : ℕ
max_money = 21_000_000 * 100_000_000

abbrev pub max_vector_items : ℕ
max_vector_items = 100_000

abbrev pub max_script_bytes : ℕ
max_script_bytes = 1_000_000

pub record TxInput : Type 0 where
  pub prev_txid : Text
  pub vout : ℕ
  pub script_sig : Bytes
  pub sequence : ℕ
  pub witness : List Bytes

pub record TxOutput : Type 0 where
  pub value_sat : ℕ
  pub script_pubkey : Bytes

pub record BitcoinTransaction : Type 0 where
  pub version : ℤ
  pub inputs : List TxInput
  pub outputs : List TxOutput
  pub locktime : ℕ
  pub segwit : Bool
