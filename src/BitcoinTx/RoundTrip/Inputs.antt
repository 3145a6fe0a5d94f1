-- ===== src/BitcoinTx/RoundTrip/Inputs.antt =====
-- The loop body over the inputs: `parse_input` and `serialize_input`.
use mathlib.Core.List.{reverse-reverse}
use sara_pro.Prelude.{
  ℕ, ◌≡◌, refl, sym, ap, subst, ◌∙◌, some, [], ◌++◌, append_assoc, reverse, length, length-reverse,
  All-reverse, not, ◌==◌, ok, or_raise, >>=-eq-ok, >>-eq-ok, ok-injective, or_raise-eq-ok,
}
use sara_pro.Bytes.{Bytes, Text, IsByte, IsBytes, le_value, to_hex, from_hex, from_hex-to_hex}
use sara_pro.BitcoinTx.Types.{TxInput, invalid_prev_txid_hex, script_sig_exceeds_bound}
use sara_pro.BitcoinTx.CompactSize.{read_slice}
use sara_pro.BitcoinTx.CompactSize.Laws.{read_slice_sound, read_slice-append}
use sara_pro.BitcoinTx.Serialize.{serialize_input, with_length, int_bytes}
use sara_pro.BitcoinTx.Parse.{parse_input, read_bounded}
use sara_pro.BitcoinTx.RoundTrip.Codec.{
  Spelled, IsCodec, IsShort, rest-IsBytes, front-IsBytes, read_bounded-IsCodec, slice_int_sound,
  slice_int-append,
}

-- The text is the hex spelling of 32 bytes, in lower case.
abbrev pub IsTxid : Text → Type 0
IsTxid t = (raw : Bytes) × IsBytes raw × (length raw ≡ 32) × (t ≡ to_hex raw)

-- An input as the first loop of `parse_transaction` leaves it.
pub record IsBareInput (txin : TxInput) : Type 0 where
  pub txid : IsTxid txin.prev_txid
  pub script : IsShort txin.script_sig
  pub bare : txin.witness ≡ []

IsTxid-hex : (prev : Bytes) → IsBytes prev → length prev ≡ 32 → IsTxid (to_hex (reverse prev))
IsTxid-hex prev bytes n =
    (reverse prev, All-reverse IsByte prev bytes, length-reverse prev ∙ n, refl)

-- The record that `parse_input` builds from the four slices.
abbrev input_of : Bytes → Bytes → Bytes → Bytes → TxInput
input_of prev vout script seq = record {
  prev_txid = to_hex (reverse prev);
  vout = le_value vout;
  script_sig = script;
  sequence = le_value seq;
  witness = [];
}

-- The four reads of a round, put together.
module _ {xs prev x1 vout x2 script x3 seq ys : Bytes} (bytes : IsBytes xs) where
  input-Spelled :
      read_slice xs 32 ≡ ok (prev, x1)
      → read_slice x1 4 ≡ ok (vout, x2)
      → read_bounded script_sig_exceeds_bound x2 ≡ ok (script, x3)
      → read_slice x3 4 ≡ ok (seq, ys)
      → Spelled serialize_input IsBareInput xs (input_of prev vout script seq) ys
  unfolding serialize_input
  input-Spelled e1 e2 e3 e4 =
      let (split1, n) = read_slice_sound xs 32 e1 in
      let prev_bytes = front-IsBytes prev x1 split1 bytes in
      let bytes1 = rest-IsBytes prev x1 split1 bytes in
      let (vout_eq, split2, bytes2) = slice_int_sound 4 x1 bytes1 e2 in
      let (b, script_eq, split3, short) =
        (read_bounded-IsCodec script_sig_exceeds_bound).sound x2 (script, x3) bytes2 e3 in
      let (seq_eq, split4, bytes4) = slice_int_sound 4 x3 (rest-IsBytes b x3 split3 bytes2) e4 in
      (
        prev ++ (vout ++ (b ++ seq)),
        rw (
          from_hex-to_hex (reverse prev) (All-reverse IsByte prev prev_bytes),
          length-reverse prev,
          n,
          vout_eq,
          script_eq,
          seq_eq,
          reverse-reverse,
        ),
        rw (split1, split2, split3, split4) (simp append_assoc),
        record { txid = IsTxid-hex prev prev_bytes n; script = short; bare = refl },
      )

parse_input_sound :
    (xs : Bytes) (p : TxInput × Bytes)
    → IsBytes xs
    → parse_input xs ≡ ok p
    → Spelled serialize_input IsBareInput xs p.0 p.1
unfolding parse_input
parse_input_sound xs p bytes h =
    let (q, e1, h1) = >>=-eq-ok (read_slice xs 32) _ h in
    let (r, e2, h2) = >>=-eq-ok (read_slice q.1 4) _ h1 in
    let (s, e3, h3) = >>=-eq-ok (read_bounded script_sig_exceeds_bound r.1) _ h2 in
    let (t, e4, h4) = >>=-eq-ok (read_slice s.1 4) _ h3 in
    subst (λ (u : TxInput × Bytes). Spelled serialize_input IsBareInput xs u.0 u.1)
      (ok-injective h4) (input-Spelled bytes e1 e2 e3 e4)

-- The pieces that a round prints, read back.
module _ (t : TxInput) {prev vout script seq : Bytes} (ys : Bytes) (good : IsBareInput t) where
  input_read :
      from_hex t.prev_txid ≡ some prev
      → int_bytes 4 t.vout ≡ ok vout
      → with_length t.script_sig ≡ ok script
      → int_bytes 4 t.sequence ≡ ok seq
      → parse_input (reverse prev ++ (vout ++ (script ++ (seq ++ ys)))) ≡ ok (t, ys)
  unfolding parse_input
  input_read e1 e2 e3 e4 =
      let (raw, raw_bytes, n, spelled) = good.txid in
      let same : raw ≡ prev = cc (from_hex-to_hex raw raw_bytes, spelled, e1) in
      let (vout_read, vout_value) = slice_int-append 4 t.vout (script ++ (seq ++ ys)) e2 in
      let script_read =
        (read_bounded-IsCodec script_sig_exceeds_bound).complete t.script_sig script (seq ++ ys)
          good.script e3 in
      let (seq_read, seq_value) = slice_int-append 4 t.sequence ys e4 in
      let len : length (reverse prev) ≡ 32 = length-reverse prev ∙ ap length (sym same) ∙ n in
      let prev_read =
        subst
          (λ (k : ℕ).
            read_slice (reverse prev ++ (vout ++ (script ++ (seq ++ ys)))) k
            ≡ ok (reverse prev, vout ++ (script ++ (seq ++ ys))))
          len (read_slice-append (reverse prev) (vout ++ (script ++ (seq ++ ys)))) in
      rw (
        prev_read,
        vout_read,
        script_read,
        seq_read,
        reverse-reverse,
        vout_value,
        seq_value,
        ← same,
        ← spelled,
        ← good.bare,
      )

parse_input-append :
    (t : TxInput) (bs ys : Bytes)
    → IsBareInput t
    → serialize_input t ≡ ok bs
    → parse_input (bs ++ ys) ≡ ok (t, ys)
unfolding serialize_input
parse_input-append t bs ys good h =
    let (prev, e1, h1) = >>=-eq-ok (or_raise (from_hex t.prev_txid) invalid_prev_txid_hex) _ h in
    let (long, h2) = >>-eq-ok (not (length prev == 32)) _ _ h1 in
    let (vout, e2, h3) = >>=-eq-ok (int_bytes 4 t.vout) _ h2 in
    let (script, e3, h4) = >>=-eq-ok (with_length t.script_sig) _ h3 in
    let (seq, e4, h5) = >>=-eq-ok (int_bytes 4 t.sequence) _ h4 in
    subst (λ (l : Bytes). parse_input (l ++ ys) ≡ ok (t, ys)) (ok-injective h5)
      (simp append_assoc (input_read t ys good (or_raise-eq-ok _ _ e1) e2 e3 e4))

pub parse_input-IsCodec : IsCodec parse_input serialize_input IsBareInput
parse_input-IsCodec = record { sound = parse_input_sound; complete = parse_input-append }
