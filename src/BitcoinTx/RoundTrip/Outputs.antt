-- ===== src/BitcoinTx/RoundTrip/Outputs.antt =====
-- The loop over the outputs, with the running total of their values.
use sara_pro.Prelude.{
  ℕ, zero, suc, ◌+◌, ◌≤◌, ◌≡◌, refl, sym, ap, subst, List, [], ◌∷◌, ◌++◌, append_assoc, arith,
  false, length, All, ltb, ltb_false→le, le→ltb_false, ok, >>=-eq-ok, >>-eq-ok, ok-injective,
}
use sara_pro.Bytes.{Bytes, IsBytes, le_value}
use sara_pro.BitcoinTx.Types.{TxOutput, max_money, script_pubkey_exceeds_bound}
use sara_pro.BitcoinTx.CompactSize.{read_slice}
use sara_pro.BitcoinTx.Serialize.{emit_all, serialize_output, with_length, int_bytes}
use sara_pro.BitcoinTx.Parse.{parse_output, parse_outputs, read_bounded}
use sara_pro.BitcoinTx.RoundTrip.Codec.{
  Spelled, IsShort, rest-IsBytes, read_bounded-IsCodec, slice_int_sound, slice_int-append,
}

-- The sum of the output values.
abbrev pub total_value : List TxOutput → ℕ
total_value [] = 0
total_value (o ∷ os) = o.value_sat + total_value os

abbrev pub IsShortOutput : TxOutput → Type 0
IsShortOutput o = IsShort o.script_pubkey

-- One output behind outputs that sum up to `total`.
pub record Fits (total : ℕ) (o : TxOutput) : Type 0 where
  pub script : IsShortOutput o
  pub sum : total + o.value_sat ≤ max_money

module _ (total : ℕ) {xs value x1 script ys : Bytes} (bytes : IsBytes xs) where
  output-Spelled :
      read_slice xs 8 ≡ ok (value, x1)
      → ltb max_money (le_value value) ≡ false
      → ltb max_money (total + le_value value) ≡ false
      → read_bounded script_pubkey_exceeds_bound x1 ≡ ok (script, ys)
      → Spelled serialize_output
          (Fits total)
          xs
          (record { value_sat = le_value value; script_pubkey = script })
          ys
  unfolding serialize_output
  output-Spelled e1 single sum e2 =
      let (value_eq, split1, bytes1) = slice_int_sound 8 xs bytes e1 in
      let (b, script_eq, split2, short) =
        (read_bounded-IsCodec script_pubkey_exceeds_bound).sound x1 (script, ys) bytes1 e2 in
      (
        value ++ b,
        rw (single, value_eq, script_eq),
        rw (split1, split2) (simp append_assoc),
        record { script = short; sum = ltb_false→le _ _ sum },
      )

parse_output_sound :
    (total : ℕ) (xs : Bytes) (p : TxOutput × Bytes)
    → IsBytes xs
    → parse_output total xs ≡ ok p
    → Spelled serialize_output (Fits total) xs p.0 p.1
unfolding parse_output
parse_output_sound total xs p bytes h =
    let (q, e1, h1) = >>=-eq-ok (read_slice xs 8) _ h in
    let (single, h2) = >>-eq-ok (ltb max_money (le_value q.0)) _ _ h1 in
    let (sum, h3) = >>-eq-ok (ltb max_money (total + le_value q.0)) _ _ h2 in
    let (r, e2, h4) = >>=-eq-ok (read_bounded script_pubkey_exceeds_bound q.1) _ h3 in
    subst (λ (u : TxOutput × Bytes). Spelled serialize_output (Fits total) xs u.0 u.1)
      (ok-injective h4) (output-Spelled total bytes e1 single sum e2)

module _ (total : ℕ) (o : TxOutput) {value script : Bytes} (ys : Bytes) (good : Fits total o) where
  output_read :
      int_bytes 8 o.value_sat ≡ ok value
      → with_length o.script_pubkey ≡ ok script
      → parse_output total (value ++ (script ++ ys)) ≡ ok (o, ys)
  unfolding parse_output
  output_read e1 e2 =
      let (value_read, value_eq) = slice_int-append 8 o.value_sat (script ++ ys) e1 in
      let single : ltb max_money o.value_sat ≡ false = le→ltb_false _ _ (omega (arith, good.sum)) in
      let script_read =
        (read_bounded-IsCodec script_pubkey_exceeds_bound).complete o.script_pubkey script ys
          good.script e2 in
      rw (value_read, value_eq, single, le→ltb_false _ _ good.sum, script_read)

parse_output-append :
    (total : ℕ) (o : TxOutput) (bs ys : Bytes)
    → Fits total o
    → serialize_output o ≡ ok bs
    → parse_output total (bs ++ ys) ≡ ok (o, ys)
unfolding serialize_output
parse_output-append total o bs ys good h =
    let (single, h1) = >>-eq-ok (ltb max_money o.value_sat) _ _ h in
    let (value, e1, h2) = >>=-eq-ok (int_bytes 8 o.value_sat) _ h1 in
    let (script, e2, h3) = >>=-eq-ok (with_length o.script_pubkey) _ h2 in
    subst (λ (l : Bytes). parse_output total (l ++ ys) ≡ ok (o, ys)) (ok-injective h3)
      (simp append_assoc (output_read total o ys good e1 e2))

-- `n` outputs whose values, with `total`, stay within the supply.
pub record AllFit (total n : ℕ) (l : List TxOutput) : Type 0 where
  pub scripts : All IsShortOutput l
  pub sum : total ≤ max_money → total + total_value l ≤ max_money
  pub count : length l ≡ n

module _ (total n : ℕ) {xs : Bytes} {o : TxOutput} (l : List TxOutput) (ys zs : Bytes) where
  outputs_round :
      Spelled serialize_output (Fits total) xs o ys
      → Spelled (emit_all serialize_output) (AllFit (total + o.value_sat) n) ys l zs
      → Spelled (emit_all serialize_output) (AllFit total (suc n)) xs (o ∷ l) zs
  unfolding emit_all
  outputs_round (b, printed, split, good) (bs, printed', split', goods) = (
    b ++ bs,
    rw (printed, printed'),
    rw (split, split') (sym (append_assoc b bs zs)),
    record {
      scripts = (good.script, goods.scripts);
      sum = λ _. omega (arith, goods.sum good.sum);
      count = ap suc goods.count;
    },
  )

pub parse_outputs_sound :
    (total n : ℕ) (xs : Bytes) (p : List TxOutput × Bytes)
    → IsBytes xs
    → parse_outputs total n xs ≡ ok p
    → Spelled (emit_all serialize_output) (AllFit total n) xs p.0 p.1
unfolding parse_outputs emit_all
parse_outputs_sound total zero xs p bytes h =
    subst
      (λ (u : List TxOutput × Bytes).
        Spelled (emit_all serialize_output) (AllFit total 0) xs u.0 u.1)
      (ok-injective h)
      ([], refl, refl, record { scripts = tt; sum = λ small. omega (arith, small); count = refl })
parse_outputs_sound total (suc n) xs p bytes h =
    let (q, e1, h1) = >>=-eq-ok (parse_output total xs) _ h in
    let (r, e2, h2) = >>=-eq-ok (parse_outputs (total + q.0.value_sat) n q.1) _ h1 in
    let first = parse_output_sound total xs q bytes e1 in
    subst
      (λ (u : List TxOutput × Bytes).
        Spelled (emit_all serialize_output) (AllFit total (suc n)) xs u.0 u.1)
      (ok-injective h2)
      (outputs_round total n r.0 q.1 r.1 first (
        parse_outputs_sound (total + q.0.value_sat) n q.1 r (rest-IsBytes first.0 q.1 first.2 bytes)
          e2))

pub parse_outputs-append :
    (total : ℕ) (l : List TxOutput) (bs ys : Bytes)
    → All IsShortOutput l
    → total + total_value l ≤ max_money
    → emit_all serialize_output l ≡ ok bs
    → parse_outputs total (length l) (bs ++ ys) ≡ ok (l, ys)
unfolding parse_outputs emit_all
parse_outputs-append total [] bs ys short fits h = rw (← ok-injective h)
parse_outputs-append total (o ∷ l) bs ys short fits h =
    let (b, e1, h1) = >>=-eq-ok (serialize_output o) _ h in
    let (rest, e2, h2) = >>=-eq-ok (emit_all serialize_output l) _ h1 in
    let first =
      parse_output-append total o b (rest ++ ys)
        (record { script = short.0; sum = omega (arith, fits) }) e1 in
    let others =
      parse_outputs-append (total + o.value_sat) l rest ys short.1 (omega (arith, fits)) e2 in
    rw (← ok-injective h2, append_assoc b rest ys, first, others)
