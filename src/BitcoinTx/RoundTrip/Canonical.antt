-- ===== src/BitcoinTx/RoundTrip/Canonical.antt =====
-- From bytes to a transaction and back: `parse_transaction`, then `serialize`.
use sara_pro.Prelude.{
  ℕ, ◌^◌, ◌<◌, ◌≡◌, refl, sym, ap, ◌∙◌, subst, List, [], ◌∷◌, ◌++◌, append_assoc, Bool, true, false,
  length, map, All, ltb, ok, >>=-eq-ok, >>-eq-ok, append-nil, arith, ok-injective,
}
use sara_pro.Bytes.{
  Bytes, IsBytes, le_value, le_bytes, le_bytes-le_value, le_value_bound, signed_value,
  to_unsigned-signed_value,
}
use sara_pro.BitcoinTx.Types.{TxInput, TxOutput, BitcoinTransaction}
use sara_pro.BitcoinTx.CompactSize.{read_slice}
use sara_pro.BitcoinTx.CompactSize.Laws.{read_slice_sound}
use sara_pro.BitcoinTx.Serialize.{
  serialize_counted, serialize_input, serialize_output, int_bytes, serialize_witnesses, serialize,
  signed_bytes, marker,
}
use sara_pro.BitcoinTx.Parse.{
  parse_vin, parse_vout, parse_segwit_part, strip_marker, parse_body, parse_transaction, at_end,
}
use sara_pro.BitcoinTx.RoundTrip.Codec.{Spelled, rest-IsBytes, front-IsBytes, slice_int_sound}
use sara_pro.BitcoinTx.RoundTrip.Inputs.{IsBareInput}
use sara_pro.BitcoinTx.RoundTrip.Witnesses.{
  bare, HasStack, parse_witnesses_sound, serialize_counted-bare, length-bare,
}
use sara_pro.BitcoinTx.RoundTrip.Vectors.{
  IsInput, IsWellFormed, IsVin, IsVout, parse_vin_sound, parse_vout_sound, strip_marker_sound,
}

-- What the segwit part of the parser makes of the inputs of the first loop.
record Attached (segwit : Bool) (ins l : List TxInput) : Type 0 where
  stacks : All HasStack l
  same : map bare l ≡ map bare ins
  legacy : segwit ≡ false → l ≡ ins

bare_inputs : (l : List TxInput) → All IsBareInput l → (map bare l ≡ l) × All HasStack l
bare_inputs [] h = (refl, tt)
bare_inputs (t ∷ l) (good, goods) =
    let (same, stacks) = bare_inputs l goods in
    let whole : bare t ≡ t = rw (← good.bare) in
    (rw (whole, same), (rw good.bare (record { items = tt; count = omega arith }), stacks))

full_inputs : (l : List TxInput) → All IsBareInput (map bare l) → All HasStack l → All IsInput l
full_inputs [] h k = tt
full_inputs (t ∷ l) (good, goods) (stack, stacks) =
    (record { txid = good.txid; script = good.script; stack = stack }, full_inputs l goods stacks)

parse_segwit_part_sound :
    (segwit : Bool) (ins : List TxInput) (xs : Bytes) (p : List TxInput × Bytes)
    → IsBytes xs
    → All IsBareInput ins
    → parse_segwit_part segwit ins xs ≡ ok p
    → Spelled (serialize_witnesses segwit) (Attached segwit ins) xs p.0 p.1
unfolding parse_segwit_part serialize_witnesses
parse_segwit_part_sound true ins xs p bytes good h =
    let (b, printed, split, attached) = parse_witnesses_sound ins xs p bytes h in
    (
      b,
      printed,
      split,
      record { stacks = attached.stacks; same = attached.same; legacy = λ e. absurd (cc e) },
    )
parse_segwit_part_sound false ins xs p bytes good h =
    subst
      (λ (u : List TxInput × Bytes).
        Spelled (serialize_witnesses false) (Attached false ins) xs u.0 u.1)
      (ok-injective h)
      (
        [],
        refl,
        refl,
        record { stacks = (bare_inputs ins good).1; same = refl; legacy = λ e. refl },
      )

abbrev tx_of : Bytes → Bool → List TxInput → List TxOutput → Bytes → BitcoinTransaction
tx_of version segwit inputs outputs lock = record {
  version = signed_value 4 (le_value version);
  inputs = inputs;
  outputs = outputs;
  locktime = le_value lock;
  segwit = segwit;
}

-- The version field, printed back.
version_sound :
    (xs : Bytes) {raw ys : Bytes}
    → IsBytes xs
    → read_slice xs 4 ≡ ok (raw, ys)
    → signed_bytes 4 (signed_value 4 (le_value raw)) ≡ ok raw
unfolding signed_bytes
version_sound xs {raw} {ys} bytes h =
    let (split, n) = read_slice_sound xs 4 h in
    let raw_bytes = front-IsBytes raw ys split bytes in
    let bound : le_value raw < 256 ^ 4 =
      subst (λ (k : ℕ). le_value raw < 256 ^ k) n (le_value_bound raw raw_bytes) in
    let back : le_bytes 4 (le_value raw) ≡ raw =
      subst (λ (k : ℕ). le_bytes k (le_value raw) ≡ raw) n (le_bytes-le_value raw raw_bytes) in
    rw (to_unsigned-signed_value (le_value raw) bound, back)

module _ (version lock : Bytes) (segwit : Bool) (ins l : List TxInput) (outs : List TxOutput)
    (att : Attached segwit ins l) where
  printed_whole :
      {b3 b4 b5 : Bytes}
      → signed_bytes 4 (signed_value 4 (le_value version)) ≡ ok version
      → serialize_counted serialize_input ins ≡ ok b3
      → serialize_counted serialize_output outs ≡ ok b4
      → serialize_witnesses segwit l ≡ ok b5
      → int_bytes 4 (le_value lock) ≡ ok lock
      → serialize true (tx_of version segwit l outs lock)
        ≡ ok (version ++ (marker segwit ++ (b3 ++ (b4 ++ (b5 ++ lock)))))
  unfolding serialize
  printed_whole {b3} v i o w k =
      let inputs : serialize_counted serialize_input l ≡ ok b3 =
        sym (serialize_counted-bare l)
        ∙ ap (serialize_counted serialize_input) att.same
        ∙ serialize_counted-bare ins
        ∙ i in
      rw (v, inputs, o, w, k)

  well_formed : IsVin ins → IsVout outs → IsWellFormed (tx_of version segwit l outs lock)
  well_formed vin vout =
      let len : length l ≡ length ins =
        sym (length-bare l) ∙ ap length att.same ∙ length-bare ins in
      let all_bare : All IsBareInput (map bare l) =
        subst (All IsBareInput) (sym (att.same ∙ (bare_inputs ins vin.inputs).0)) vin.inputs in
      record {
        inputs = full_inputs l all_bare att.stacks;
        input_count = record {
          some_items = rw len vin.count.some_items;
          few = rw len vin.count.few;
        };
        outputs = vout.outputs;
        output_count = vout.count;
        total = vout.total;
        legacy = λ e. att.same ∙ (bare_inputs ins vin.inputs).0 ∙ sym (att.legacy e);
      }

joined :
    {xs x1 x2 x3 x4 x5 : Bytes} (b1 b2 b3 b4 b5 b6 ys : Bytes)
    → xs ≡ b1 ++ x1
    → x1 ≡ b2 ++ x2
    → x2 ≡ b3 ++ x3
    → x3 ≡ b4 ++ x4
    → x4 ≡ b5 ++ x5
    → x5 ≡ b6 ++ ys
    → xs ≡ (b1 ++ (b2 ++ (b3 ++ (b4 ++ (b5 ++ b6))))) ++ ys
joined b1 b2 b3 b4 b5 b6 ys s1 s2 s3 s4 s5 s6 = rw (s1, s2, s3, s4, s5, s6) (simp append_assoc)

module _ {xs version x1 x2 x3 x4 x5 lock ys : Bytes} {segwit : Bool} {ins : List TxInput}
    (l : List TxInput) {outs : List TxOutput} (bytes : IsBytes xs) where
  body-Spelled :
      read_slice xs 4 ≡ ok (version, x1)
      → strip_marker x1 ≡ ok (segwit, x2)
      → parse_vin x2 ≡ ok (ins, x3)
      → parse_vout x3 ≡ ok (outs, x4)
      → parse_segwit_part segwit ins x4 ≡ ok (l, x5)
      → read_slice x5 4 ≡ ok (lock, ys)
      → Spelled (serialize true) IsWellFormed xs (tx_of version segwit l outs lock) ys
  body-Spelled e1 e2 e3 e4 e5 e6 =
      let version_eq = version_sound xs bytes e1 in
      let split1 = (read_slice_sound xs 4 e1).0 in
      let bytes1 = rest-IsBytes version x1 split1 bytes in
      let split2 = strip_marker_sound x1 (segwit, x2) e2 in
      let bytes2 = rest-IsBytes (marker segwit) x2 split2 bytes1 in
      let (b3, inputs_eq, split3, vin) = parse_vin_sound x2 (ins, x3) bytes2 e3 in
      let bytes3 = rest-IsBytes b3 x3 split3 bytes2 in
      let (b4, outputs_eq, split4, vout) = parse_vout_sound x3 (outs, x4) bytes3 e4 in
      let bytes4 = rest-IsBytes b4 x4 split4 bytes3 in
      let (b5, witness_eq, split5, att) =
        parse_segwit_part_sound segwit ins x4 (l, x5) bytes4 vin.inputs e5 in
      let bytes5 = rest-IsBytes b5 x5 split5 bytes4 in
      let (lock_eq, split6, bytes6) = slice_int_sound 4 x5 bytes5 e6 in
      (
        version ++ (marker segwit ++ (b3 ++ (b4 ++ (b5 ++ lock)))),
        printed_whole version lock segwit ins l outs att version_eq inputs_eq outputs_eq witness_eq
            lock_eq,
        joined version (marker segwit) b3 b4 b5 lock ys split1 split2 split3 split4 split5 split6,
        well_formed version lock segwit ins l outs att vin vout,
      )

parse_body_sound :
    (xs : Bytes) (p : BitcoinTransaction × Bytes)
    → IsBytes xs
    → parse_body xs ≡ ok p
    → Spelled (serialize true) IsWellFormed xs p.0 p.1
unfolding parse_body
parse_body_sound xs p bytes h =
    let (q, e1, h1) = >>=-eq-ok (read_slice xs 4) _ h in
    let (r, e2, h2) = >>=-eq-ok (strip_marker q.1) _ h1 in
    let (s, e3, h3) = >>=-eq-ok (parse_vin r.1) _ h2 in
    let (t, e4, h4) = >>=-eq-ok (parse_vout s.1) _ h3 in
    let (u, e5, h5) = >>=-eq-ok (parse_segwit_part r.0 s.0 t.1) _ h4 in
    let (v, e6, h6) = >>=-eq-ok (read_slice u.1 4) _ h5 in
    subst (λ (w : BitcoinTransaction × Bytes). Spelled (serialize true) IsWellFormed xs w.0 w.1)
      (ok-injective h6) (body-Spelled u.0 bytes e1 e2 e3 e4 e5 e6)

at_end_inv : {A : Type 0} (p : A × Bytes) {a : A} → at_end p ≡ ok a → (p.0 ≡ a) × (p.1 ≡ [])
at_end_inv (a, []) h = (ok-injective h, refl)
at_end_inv (a, x ∷ xs) h = cc

-- If `parse_transaction` accepts some bytes, the transaction it returns is well formed, and
-- serializing it with its witness gives back exactly those bytes.
pub serialize-parse_transaction :
    (raw : Bytes) (tx : BitcoinTransaction)
    → IsBytes raw
    → parse_transaction raw ≡ ok tx
    → (serialize true tx ≡ ok raw) × IsWellFormed tx
unfolding parse_transaction
serialize-parse_transaction raw tx bytes h =
    let (long, h1) = >>-eq-ok (ltb (length raw) 10) _ _ h in
    let (p, e, h2) = >>=-eq-ok (parse_body raw) _ h1 in
    let (same, done) = at_end_inv p h2 in
    let (b, printed, split, good) = parse_body_sound raw p bytes e in
    let whole : raw ≡ b = split ∙ ap (λ (l : Bytes). b ++ l) done ∙ append-nil b in
    (rw (← same, whole) printed, subst IsWellFormed same good)

-- Two byte strings that parse to the same transaction are the same byte string.
pub parse_transaction-injective :
    (raw raw' : Bytes) (tx : BitcoinTransaction)
    → IsBytes raw
    → IsBytes raw'
    → parse_transaction raw ≡ ok tx
    → parse_transaction raw' ≡ ok tx
    → raw ≡ raw'
parse_transaction-injective raw raw' tx bytes bytes' h h' = ok-injective (
    sym (serialize-parse_transaction raw tx bytes h).0
    ∙ (serialize-parse_transaction raw' tx bytes' h').0)
