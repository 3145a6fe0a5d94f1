-- ===== src/BitcoinTx/RoundTrip/Vectors.antt =====
-- The well-formedness of a transaction, and the counted loops of the parser.
use sara_pro.Prelude.{
  ℕ, ◌≤◌, ◌≡◌, List, [], ◌∷◌, ◌++◌, append_assoc, arith, Bool, false, length, map, All, ltb, ◌==◌,
  ltb_false→le, le→ltb_false, ok, >>=-eq-ok, >>-eq-ok, ok-injective,
}
use sara_pro.Bytes.{Bytes, IsBytes}
use sara_pro.BitcoinTx.Types.{TxInput, TxOutput, BitcoinTransaction, max_money, max_vector_items}
use sara_pro.BitcoinTx.CompactSize.{read_compact_size, encode_compact_size}
use sara_pro.BitcoinTx.CompactSize.Laws.{read_compact_size_sound, read_compact_size-append}
use sara_pro.BitcoinTx.Serialize.{
  emit_all, serialize_counted, serialize_input, serialize_output, marker,
}
use sara_pro.BitcoinTx.Parse.{parse_vin, parse_vout, strip_marker}
use sara_pro.BitcoinTx.RoundTrip.Codec.{
  Spelled, counted-Spelled, IsShort, rest-IsBytes, read_many_sound, read_many-append,
}
use sara_pro.BitcoinTx.RoundTrip.Inputs.{IsTxid, IsBareInput, parse_input-IsCodec}
use sara_pro.BitcoinTx.RoundTrip.Outputs.{
  total_value, IsShortOutput, AllFit, parse_outputs_sound, parse_outputs-append,
}
use sara_pro.BitcoinTx.RoundTrip.Witnesses.{bare, IsStack}

-- What `parse_transaction` promises of an input, whether or not the format is segwit.
pub record IsInput (t : TxInput) : Type 0 where
  pub txid : IsTxid t.prev_txid
  pub script : IsShort t.script_sig
  pub stack : IsStack t.witness

-- 1 to 100,000 elements.
pub record IsVector {A : Type 0} (l : List A) : Type 0 where
  pub some_items : 1 ≤ length l
  pub few : length l ≤ max_vector_items

pub record IsWellFormed (tx : BitcoinTransaction) : Type 0 where
  pub inputs : All IsInput tx.inputs
  pub input_count : IsVector tx.inputs
  pub outputs : All IsShortOutput tx.outputs
  pub output_count : IsVector tx.outputs
  pub total : total_value tx.outputs ≤ max_money
  pub legacy : tx.segwit ≡ false → map bare tx.inputs ≡ tx.inputs

pub record IsVin (l : List TxInput) : Type 0 where
  pub inputs : All IsBareInput l
  pub count : IsVector l

pub record IsVout (l : List TxOutput) : Type 0 where
  pub outputs : All IsShortOutput l
  pub count : IsVector l
  pub total : total_value l ≤ max_money

vector :
    {A : Type 0} {l : List A} {n : ℕ}
    → length l ≡ n
    → ltb max_vector_items n ≡ false
    → (n == 0) ≡ false
    → IsVector l
vector len few some_items = record {
  some_items = ground arith;
  few = rw len (ltb_false→le _ _ few);
}

pub parse_vin_sound :
    (xs : Bytes) (p : List TxInput × Bytes)
    → IsBytes xs
    → parse_vin xs ≡ ok p
    → Spelled (serialize_counted serialize_input) IsVin xs p.0 p.1
unfolding parse_vin
parse_vin_sound xs p bytes h =
    let (q, e1, h1) = >>=-eq-ok (read_compact_size xs) _ h in
    let (few, h2) = >>-eq-ok (ltb max_vector_items q.0) _ _ h1 in
    let (some_items, h3) = >>-eq-ok (q.0 == 0) _ _ h2 in
    let (b, printed, split) = read_compact_size_sound xs bytes e1 in
    counted-Spelled serialize_input (λ l. All IsBareInput l × (length l ≡ q.0)) IsVin p.0 p.1 q.0
      printed split
      (read_many_sound parse_input-IsCodec q.0 q.1 p (rest-IsBytes b q.1 split bytes) h3)
      (λ (inputs, len). (len, record { inputs = inputs; count = vector len few some_items }))

pub parse_vout_sound :
    (xs : Bytes) (p : List TxOutput × Bytes)
    → IsBytes xs
    → parse_vout xs ≡ ok p
    → Spelled (serialize_counted serialize_output) IsVout xs p.0 p.1
unfolding parse_vout
parse_vout_sound xs p bytes h =
    let (q, e1, h1) = >>=-eq-ok (read_compact_size xs) _ h in
    let (few, h2) = >>-eq-ok (ltb max_vector_items q.0) _ _ h1 in
    let (some_items, h3) = >>-eq-ok (q.0 == 0) _ _ h2 in
    let (b, printed, split) = read_compact_size_sound xs bytes e1 in
    counted-Spelled serialize_output (AllFit 0 q.0) IsVout p.0 p.1 q.0 printed split
      (parse_outputs_sound 0 q.0 q.1 p (rest-IsBytes b q.1 split bytes) h3)
      (λ good. (
        good.count,
        record {
          outputs = good.scripts;
          count = vector good.count few some_items;
          total = omega (arith, good.sum (omega arith));
        },
      ))

pub strip_marker_sound :
    (xs : Bytes) (p : Bool × Bytes) → strip_marker xs ≡ ok p → xs ≡ marker p.0 ++ p.1
unfolding strip_marker
strip_marker_sound (m ∷ flag ∷ xs) p h = ground arith
strip_marker_sound (m ∷ []) p h = ground arith
strip_marker_sound [] p h = ground arith

-- The other direction.
pub parse_vin-append :
    (l : List TxInput) {bs : Bytes} (ys : Bytes)
    → IsVin l
    → serialize_counted serialize_input l ≡ ok bs
    → parse_vin (bs ++ ys) ≡ ok (l, ys)
unfolding parse_vin serialize_counted
parse_vin-append l ys good h =
    let (b, e1, h1) = >>=-eq-ok (encode_compact_size (length l)) _ h in
    let (rest, e2, h2) = >>=-eq-ok (emit_all serialize_input l) _ h1 in
    let not_zero : (length l == 0) ≡ false = ground (arith, good.count.some_items) in
    rw
      (
        ← ok-injective h2,
        append_assoc b rest ys,
        read_compact_size-append (length l) (rest ++ ys) e1,
        le→ltb_false _ _ good.count.few,
        not_zero,
      )
      (read_many-append parse_input-IsCodec l rest ys good.inputs e2)

pub parse_vout-append :
    (l : List TxOutput) {bs : Bytes} (ys : Bytes)
    → IsVout l
    → serialize_counted serialize_output l ≡ ok bs
    → parse_vout (bs ++ ys) ≡ ok (l, ys)
unfolding parse_vout serialize_counted
parse_vout-append l ys good h =
    let (b, e1, h1) = >>=-eq-ok (encode_compact_size (length l)) _ h in
    let (rest, e2, h2) = >>=-eq-ok (emit_all serialize_output l) _ h1 in
    let not_zero : (length l == 0) ≡ false = ground (arith, good.count.some_items) in
    rw
      (
        ← ok-injective h2,
        append_assoc b rest ys,
        read_compact_size-append (length l) (rest ++ ys) e1,
        le→ltb_false _ _ good.count.few,
        not_zero,
      )
      (parse_outputs-append 0 l rest ys good.outputs (omega (arith, good.total)) e2)
