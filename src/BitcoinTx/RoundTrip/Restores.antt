-- ===== src/BitcoinTx/RoundTrip/Restores.antt =====
-- From a transaction to bytes and back: `serialize`, then `parse_transaction`.
use sara_pro.Prelude.{
  ℕ, ◌≤◌, ◌≡◌, refl, sym, ◌∙◌, subst, List, [], ◌∷◌, ◌++◌, append_assoc, append-nil, arith, Bool,
  true, false, length, map, All, ◌==◌, le→ltb_false, length-append, inl, inr, Bool-cases, Result,
  ok, or_raise, >>=-eq-ok, ok-injective, ok_pair-injective, or_raise-eq-ok,
}
use sara_pro.Prelude.Int.{ℤ}
use sara_pro.Bytes.{
  Bytes, le_value, le_bytes, length-le_bytes, le_value-le_bytes, signed_value, to_unsigned,
  signed_value-to_unsigned, to_bytes-eq-some,
}
use sara_pro.BitcoinTx.Types.{TxError, TxInput, BitcoinTransaction, integer_overflow}
use sara_pro.BitcoinTx.CompactSize.{read_compact_size, encode_compact_size, read_slice}
use sara_pro.BitcoinTx.CompactSize.Laws.{read_compact_size-append, read_slice-append}
use sara_pro.BitcoinTx.Serialize.{
  emit_all, serialize_counted, serialize_input, serialize_output, serialize_witnesses, serialize,
  signed_bytes, marker, int_bytes,
}
use sara_pro.BitcoinTx.Parse.{parse_segwit_part, strip_marker, parse_body, parse_transaction}
use sara_pro.BitcoinTx.RoundTrip.Codec.{slice_int-append}
use sara_pro.BitcoinTx.RoundTrip.Inputs.{IsBareInput}
use sara_pro.BitcoinTx.RoundTrip.Witnesses.{
  bare, HasStack, parse_witnesses-append, serialize_counted-bare, length-bare,
}
use sara_pro.BitcoinTx.RoundTrip.Vectors.{
  IsInput, IsVector, IsWellFormed, IsVin, IsVout, parse_vin-append, parse_vout-append,
}

bare-All : (l : List TxInput) → All IsInput l → All IsBareInput (map bare l) × All HasStack l
bare-All [] h = (tt, tt)
bare-All (t ∷ l) (good, goods) =
    let (bares, stacks) = bare-All l goods in
    ((record { txid = good.txid; script = good.script; bare = refl }, bares), (good.stack, stacks))

IsVin-of : (tx : BitcoinTransaction) → IsWellFormed tx → IsVin (map bare tx.inputs)
IsVin-of tx good = record {
  inputs = (bare-All tx.inputs good.inputs).0;
  count = record {
    some_items = rw (length-bare tx.inputs) good.input_count.some_items;
    few = rw (length-bare tx.inputs) good.input_count.few;
  };
}

IsVout-of : (tx : BitcoinTransaction) → IsWellFormed tx → IsVout tx.outputs
IsVout-of tx good = record { outputs = good.outputs; count = good.output_count; total = good.total }

-- The encoding of a count that is not 0 begins with a byte that is not 0.
first_byte :
    (n : ℕ) (bs : Bytes)
    → 1 ≤ n
    → encode_compact_size n ≡ ok bs
    → (b : ℕ) × (t : Bytes) × (bs ≡ b ∷ t) × ((b == 0) ≡ false)
unfolding read_compact_size
first_byte n [] pos h = absurd (cc (read_compact_size-append n [] h))
first_byte n (b ∷ t) pos h = elim (Bool-cases (b == 0)) [
  | inl z ↦
      let zero_read : read_compact_size (b ∷ (t ++ [])) ≡ ok (0, t ++ []) = ground arith in
      let (e, _) = ok_pair-injective (sym zero_read ∙ read_compact_size-append n [] h) in
      absurd (omega (arith, e))
  | inr nz ↦ (b, t, refl, nz)
]

strip_plain : (b : ℕ) (l : Bytes) → (b == 0) ≡ false → strip_marker (b ∷ l) ≡ ok (false, b ∷ l)
unfolding strip_marker
strip_plain b [] h = refl
strip_plain b (c ∷ l) h = rw h

-- Behind the version, the marker is recognised whenever it was printed, and only then.
strip_marker-append :
    (segwit : Bool) (l : List TxInput) (vin rest : Bytes)
    → 1 ≤ length l
    → serialize_counted serialize_input l ≡ ok vin
    → strip_marker (marker segwit ++ (vin ++ rest)) ≡ ok (segwit, vin ++ rest)
unfolding serialize_counted
strip_marker-append true l vin rest pos h = unfold strip_marker in refl
strip_marker-append false l vin rest pos h =
    let (b, e1, h1) = >>=-eq-ok (encode_compact_size (length l)) _ h in
    let (bs, e2, h2) = >>=-eq-ok (emit_all serialize_input l) _ h1 in
    let (c, t, e, nz) = first_byte (length l) b pos e1 in
    rw (← ok-injective h2, e) (strip_plain c ((t ++ bs) ++ rest) nz)

version-append :
    (v : ℤ) {bs : Bytes} (ys : Bytes)
    → signed_bytes 4 v ≡ ok bs
    → (read_slice (bs ++ ys) 4 ≡ ok (bs, ys)) × (signed_value 4 (le_value bs) ≡ v) × (length bs ≡ 4)
unfolding signed_bytes
version-append v {bs} ys h =
    let (u, e, h1) = >>=-eq-ok (or_raise (to_unsigned 4 v) integer_overflow) _ h in
    let (value, bound) = signed_value-to_unsigned v (or_raise-eq-ok _ _ e) in
    let n = length-le_bytes 4 u in
    subst
      (λ (l : Bytes).
        (read_slice (l ++ ys) 4 ≡ ok (l, ys)) × (signed_value 4 (le_value l) ≡ v) × (length l ≡ 4))
      (ok-injective h1)
      (
        subst (λ (k : ℕ). read_slice (le_bytes 4 u ++ ys) k ≡ ok (le_bytes 4 u, ys)) n
            (read_slice-append (le_bytes 4 u) ys),
        rw (le_value-le_bytes 4 u bound) value,
        n,
      )

parse_segwit_part-append :
    (tx : BitcoinTransaction) {bs : Bytes} (ys : Bytes)
    → IsWellFormed tx
    → serialize_witnesses tx.segwit tx.inputs ≡ ok bs
    → parse_segwit_part tx.segwit (map bare tx.inputs) (bs ++ ys) ≡ ok (tx.inputs, ys)
unfolding parse_segwit_part serialize_witnesses
parse_segwit_part-append tx {bs} ys good h = elim (Bool-cases tx.segwit) [
  | inl segwit ↦
      rw segwit
        (parse_witnesses-append tx.inputs bs ys (bare-All tx.inputs good.inputs).1 (rw segwit at h))
  | inr old ↦
      let none_printed : ◌≡◌ {A = Bytes} [] bs = ok-injective (rw old at h) in
      rw (old, ← none_printed, good.legacy old)
]

-- The six pieces that `serialize` prints, read back in their order.
module _ (tx : BitcoinTransaction) (good : IsWellFormed tx)
    {version vin vout wit lock : Bytes} where
  pieces_read :
      signed_bytes 4 tx.version ≡ ok version
      → serialize_counted serialize_input tx.inputs ≡ ok vin
      → serialize_counted serialize_output tx.outputs ≡ ok vout
      → serialize_witnesses tx.segwit tx.inputs ≡ ok wit
      → int_bytes 4 tx.locktime ≡ ok lock
      → parse_body (version ++ (marker tx.segwit ++ (vin ++ (vout ++ (wit ++ (lock ++ []))))))
        ≡ ok (tx, [])
  unfolding parse_body
  pieces_read e1 e2 e3 e4 e5 =
      let (version_read, version_eq, _) =
        version-append tx.version (marker tx.segwit ++ (vin ++ (vout ++ (wit ++ (lock ++ [])))))
          e1 in
      let marker_read =
        strip_marker-append tx.segwit tx.inputs vin (vout ++ (wit ++ (lock ++ [])))
          good.input_count.some_items e2 in
      let vin_eq = serialize_counted-bare tx.inputs ∙ e2 in
      let vin_read =
        parse_vin-append (map bare tx.inputs) (vout ++ (wit ++ (lock ++ []))) (IsVin-of tx good)
          vin_eq in
      let vout_read = parse_vout-append tx.outputs (wit ++ (lock ++ [])) (IsVout-of tx good) e3 in
      let wit_read = parse_segwit_part-append tx (lock ++ []) good e4 in
      let (lock_read, lock_eq) = slice_int-append 4 tx.locktime [] e5 in
      rw (version_read, marker_read, vin_read, vout_read, wit_read, lock_read, version_eq, lock_eq)

-- Both counts take a byte at least, so what is printed is never too short.
count_pos :
    (n : ℕ) (bs rest : Bytes) → 1 ≤ n → encode_compact_size n ≡ ok bs → 1 ≤ length (bs ++ rest)
count_pos n bs rest pos h = let (b, t, e, _) = first_byte n bs pos h in rw e (omega arith)

vector_pos :
    {A : Type 0} (emit : A → Result TxError Bytes) (l : List A) {bs : Bytes}
    → IsVector l
    → serialize_counted emit l ≡ ok bs
    → 1 ≤ length bs
unfolding serialize_counted
vector_pos emit l good h =
    let (b, e1, h1) = >>=-eq-ok (encode_compact_size (length l)) _ h in
    let (bs, e2, h2) = >>=-eq-ok (emit_all emit l) _ h1 in
    subst (λ (r : Bytes). 1 ≤ length r) (ok-injective h2)
      (count_pos (length l) b bs good.some_items e1)

long_enough :
    (a m b c d e : Bytes)
    → length a ≡ 4
    → 1 ≤ length b
    → 1 ≤ length c
    → length e ≡ 4
    → 10 ≤ length (a ++ (m ++ (b ++ (c ++ (d ++ e)))))
long_enough a m b c d e ha hb hc he = omega (
  arith,
  length-append {0} a (m ++ (b ++ (c ++ (d ++ e)))),
  length-append {0} m (b ++ (c ++ (d ++ e))),
  length-append {0} b (c ++ (d ++ e)),
  length-append {0} c (d ++ e),
  length-append {0} d e,
)

-- If a well-formed transaction serializes to some bytes, `parse_transaction` of those bytes returns
-- that transaction.
pub parse_transaction-serialize :
    (tx : BitcoinTransaction) (raw : Bytes)
    → IsWellFormed tx
    → serialize true tx ≡ ok raw
    → parse_transaction raw ≡ ok tx
unfolding serialize parse_transaction
parse_transaction-serialize tx raw good h =
    let (version, e1, h1) = >>=-eq-ok (signed_bytes 4 tx.version) _ h in
    let (vin, e2, h2) = >>=-eq-ok (serialize_counted serialize_input tx.inputs) _ h1 in
    let (vout, e3, h3) = >>=-eq-ok (serialize_counted serialize_output tx.outputs) _ h2 in
    let (wit, e4, h4) = >>=-eq-ok (serialize_witnesses tx.segwit tx.inputs) _ h3 in
    let (lock, e5, h5) = >>=-eq-ok (int_bytes 4 tx.locktime) _ h4 in
    let (_, _, n1) = version-append tx.version [] e1 in
    let (n5, _) = to_bytes-eq-some 4 tx.locktime (or_raise-eq-ok _ _ e5) in
    let long =
      long_enough version (marker tx.segwit) vin vout wit lock n1
        (vector_pos serialize_input tx.inputs good.input_count e2)
        (vector_pos serialize_output tx.outputs good.output_count e3) n5 in
    subst (λ (r : Bytes). parse_transaction r ≡ ok tx) (ok-injective h5)
      (whole (version ++ (marker tx.segwit ++ (vin ++ (vout ++ (wit ++ lock))))) long (
        subst (λ (r : Bytes). parse_body r ≡ ok (tx, [])) (simp (append_assoc, append-nil))
          (pieces_read tx good e1 e2 e3 e4 e5)))
  where
    whole : (r : Bytes) → 10 ≤ length r → parse_body r ≡ ok (tx, []) → parse_transaction r ≡ ok tx
    whole r long e = rw (le→ltb_false _ _ long, e)
