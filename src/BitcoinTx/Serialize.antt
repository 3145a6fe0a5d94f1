-- ===== src/BitcoinTx/Serialize.antt =====
-- `BitcoinTransaction.serialize`, loop by loop.
use sara_pro.Prelude.{
  ℕ, List, [], ◌∷◌, ◌++◌, reverse, Bool, ◌&&◌, not, length, ltb, ◌==◌, if◌then◌else◌, Result, ok,
  ◌>>=◌, ◌>>◌, raise_if, or_raise,
}
use sara_pro.Prelude.Int.{ℤ}
use sara_pro.Bytes.{Bytes, to_bytes, to_unsigned, le_bytes, from_hex}
use sara_pro.BitcoinTx.Types.{
  TxError, TxInput, TxOutput, BitcoinTransaction, max_money, invalid_prev_txid_hex,
  prev_txid_not_32_bytes, output_value_out_of_range, integer_overflow,
}
use sara_pro.BitcoinTx.CompactSize.{encode_compact_size}

-- `int(v).to_bytes(w, "little")`
abbrev pub int_bytes : ℕ → ℕ → Result TxError Bytes
int_bytes w v = or_raise (to_bytes w v) integer_overflow

-- `int(v).to_bytes(w, "little", signed=True)`
unfoldable pub signed_bytes : ℕ → ℤ → Result TxError Bytes
signed_bytes w v = do u ← or_raise (to_unsigned w v) integer_overflow; ok (le_bytes w u)

-- `encode_compact_size(len(item)) + item`
unfoldable pub with_length : Bytes → Result TxError Bytes
with_length item = do ok ((← encode_compact_size (length item)) ++ item)

-- What a loop over `xs` appends to `out`.
module _ {A : Type 0} (emit : A → Result TxError Bytes) where
  unfoldable pub emit_all : List A → Result TxError Bytes
  emit_all [] = ok []
  emit_all (x ∷ xs) = do b ← emit x; bs ← emit_all xs; ok (b ++ bs)

  -- `out += encode_compact_size(len(xs))` and the loop behind it.
  unfoldable pub serialize_counted : List A → Result TxError Bytes
  serialize_counted xs = do
    count ← encode_compact_size (length xs)
    items ← emit_all xs
    ok (count ++ items)

-- The body of the loop over `self.inputs`.
unfoldable pub serialize_input : TxInput → Result TxError Bytes
serialize_input txin = do
  prev ← or_raise (from_hex txin.prev_txid) invalid_prev_txid_hex
  raise_if (not (length prev == 32)) prev_txid_not_32_bytes
  vout ← int_bytes 4 txin.vout
  script ← with_length txin.script_sig
  sequence ← int_bytes 4 txin.sequence
  ok (reverse prev ++ (vout ++ (script ++ sequence)))

unfoldable pub serialize_output : TxOutput → Result TxError Bytes
serialize_output txout = do
  raise_if (ltb max_money txout.value_sat) output_value_out_of_range
  value ← int_bytes 8 txout.value_sat
  script ← with_length txout.script_pubkey
  ok (value ++ script)

-- The body of the loop over the witness stacks.
abbrev pub serialize_witness : TxInput → Result TxError Bytes
serialize_witness txin = serialize_counted with_length txin.witness

abbrev pub use_witness : Bool → BitcoinTransaction → Bool
use_witness include_witness tx = include_witness && tx.segwit

abbrev pub marker : Bool → Bytes
marker b = if b then 0 ∷ 1 ∷ [] else []

unfoldable pub serialize_witnesses : Bool → List TxInput → Result TxError Bytes
serialize_witnesses b inputs = if b then emit_all serialize_witness inputs else ok []

unfoldable pub serialize : Bool → BitcoinTransaction → Result TxError Bytes
serialize include_witness tx = do
  version ← signed_bytes 4 tx.version
  inputs ← serialize_counted serialize_input tx.inputs
  outputs ← serialize_counted serialize_output tx.outputs
  witnesses ← serialize_witnesses (use_witness include_witness tx) tx.inputs
  locktime ← int_bytes 4 tx.locktime
  ok (
      version
      ++ (marker (use_witness include_witness tx)
          ++ (inputs ++ (outputs ++ (witnesses ++ locktime)))))
