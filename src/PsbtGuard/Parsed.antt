-- ===== src/PsbtGuard/Parsed.antt =====
-- What `parse_psbt` accepts: the spelling of the maps, and their number.
use mathlib.Core.Option.{some-injective}
use sara_pro.Prelude.{
  for_each, ℕ, zero, suc, ◌≡◌, refl, sym, ap, ◌∙◌, subst, All-right, List, [], ◌∷◌, ◌++◌,
  append_assoc, some, true, false, ◌||◌, not, length, ◌==◌, Result, ok, map_err, >>=-eq-ok,
  >>-eq-ok, ok-injective, ok_pair-injective,
}
use sara_pro.Bytes.{Bytes, IsByte, IsBytes, is_empty}
use sara_pro.BitcoinTx.Types.{BitcoinTransaction, TxInput}
use sara_pro.BitcoinTx.Parse.{parse_transaction}
use sara_pro.BitcoinTx.Serialize.{serialize}
use sara_pro.BitcoinTx.Evaluate.{any_input}
use sara_pro.PsbtGuard.{
  PsbtError, bad_unsigned_tx, tx_error, PsbtEntry, read_map, entries_of, singleton, compact_value,
}
use sara_pro.PsbtGuard.Maps.{MapSpelled, read_map-EntriesRead}
use sara_pro.PsbtGuard.Fields.{if_present}
use sara_pro.PsbtGuard.Parse.{
  required, u32, u32_or, determine_v2_locktime, v2_input, v2_output, reconstruct_v2,
}
use sara_pro.PsbtGuard.Whole.{Counts, has_any, counts_v0, counts_v2, read_maps}

-- Maps one behind the other.
unfoldable pub MapsSpelled : List (List PsbtEntry) → Bytes → Type 0
MapsSpelled [] bs = bs ≡ []
MapsSpelled (m ∷ ms) bs =
    (first : Bytes) × (others : Bytes) × MapSpelled m first
    × MapsSpelled ms others
    × (bs ≡ first ++ others)

-- What a reader of maps has read, and that what is left is bytes.
pub record MapsRead (n : ℕ) (xs : Bytes) (ms : List (List PsbtEntry)) (rest : Bytes) : Type 0 where
  pub count : length ms ≡ n
  pub bytes : Bytes
  pub spelled : MapsSpelled ms bytes
  pub whole : xs ≡ bytes ++ rest
  pub rest_bytes : IsBytes rest

pub left_over : (xs bs rest : Bytes) → IsBytes xs → xs ≡ bs ++ rest → IsBytes rest
left_over xs bs rest good e = All-right IsByte bs rest (subst IsBytes e good)

pub read_maps-MapsRead :
    (n : ℕ) (xs : Bytes) {ms : List (List PsbtEntry)} {rest : Bytes}
    → IsBytes xs
    → read_maps n xs ≡ ok (ms, rest)
    → MapsRead n xs ms rest
unfolding read_maps MapsSpelled
read_maps-MapsRead zero xs {ms} {rest} good h =
    let (a, b) = ok_pair-injective h in
    subst (λ (t : List (List PsbtEntry)). MapsRead zero xs t rest) a
      (record {
        count = refl;
        bytes = [];
        spelled = refl;
        whole = b;
        rest_bytes = subst IsBytes b good;
      })
read_maps-MapsRead (suc n) xs {ms} {rest} good h =
    let ((m, ys), e, h1) = >>=-eq-ok (read_map xs) _ h in
    let ((l, zs), f, h2) = >>=-eq-ok (read_maps n ys) _ h1 in
    let (a, b) = ok_pair-injective h2 in
    let (_, read) = read_map-EntriesRead xs good e in
    let others = read_maps-MapsRead n ys (left_over xs read.bytes ys good read.whole) f in
    subst (λ (t : List (List PsbtEntry) × Bytes). MapsRead (suc n) xs t.0 t.1) (ok-injective h2)
      (record {
        count = ap suc others.count;
        bytes = read.bytes ++ others.bytes;
        spelled = (read.bytes, others.bytes, read.spelled, others.spelled, refl);
        whole =
            read.whole
            ∙ ap (λ t. read.bytes ++ t) others.whole
            ∙ sym (append_assoc read.bytes others.bytes zs);
        rest_bytes = others.rest_bytes;
      })

length-for_each :
    {A B : Type 0} (f : A → Result PsbtError B) (xs : List A) {ys : List B}
    → for_each f xs ≡ ok ys
    → length ys ≡ length xs
unfolding for_each
length-for_each f [] h = ap length (sym (ok-injective h))
length-for_each f (x ∷ xs) h =
    let (y, _, h1) = >>=-eq-ok (f x) _ h in
    let (ys, e, h2) = >>=-eq-ok (for_each f xs) _ h1 in
    ap length (sym (ok-injective h2)) ∙ ap suc (length-for_each f xs e)

-- The transaction of a PSBT has no signature yet, and as many inputs and outputs as there are maps.
pub record Unsigned (tx : BitcoinTransaction) (inputs outputs : List (List PsbtEntry))
    : Type 0 where
  pub input_count : length inputs ≡ length tx.inputs
  pub output_count : length outputs ≡ length tx.outputs
  pub no_signatures :
      any_input (λ i. not (is_empty i.script_sig) || not (is_empty i.witness)) tx.inputs ≡ false
  pub no_segwit : tx.segwit ≡ false

v2_input-unsigned :
    (m : List PsbtEntry) {i : TxInput}
    → v2_input m ≡ ok i
    → (not (is_empty i.script_sig) || not (is_empty i.witness)) ≡ false
unfolding v2_input
v2_input-unsigned m h =
    let (prev, _, h1) = >>=-eq-ok (required m 0x0E) _ h in
    let (out_index, _, h2) = >>=-eq-ok (required m 0x0F) _ h1 in
    let (_, h3) = >>-eq-ok (not (length prev.value == 32)) _ _ h2 in
    let (vout, _, h4) = >>=-eq-ok (u32 out_index) _ h3 in
    let (seq_entry, _, h5) = >>=-eq-ok (singleton m 0x10 false true) _ h4 in
    let (sequence, _, h6) = >>=-eq-ok (u32_or 0xFFFFFFFF seq_entry) _ h5 in
    subst (λ (t : TxInput). (not (is_empty t.script_sig) || not (is_empty t.witness)) ≡ false)
      (ok-injective h6) refl

v2_inputs-unsigned :
    (ms : List (List PsbtEntry)) {ins : List TxInput}
    → for_each v2_input ms ≡ ok ins
    → any_input (λ i. not (is_empty i.script_sig) || not (is_empty i.witness)) ins ≡ false
unfolding for_each any_input
v2_inputs-unsigned [] h =
    subst
      (λ (t : List TxInput).
        any_input (λ i. not (is_empty i.script_sig) || not (is_empty i.witness)) t ≡ false)
      (ok-injective h) refl
v2_inputs-unsigned (m ∷ ms) h =
    let (y, e, h1) = >>=-eq-ok (v2_input m) _ h in
    let (ys, f, h2) = >>=-eq-ok (for_each v2_input ms) _ h1 in
    subst
      (λ (t : List TxInput).
        any_input (λ i. not (is_empty i.script_sig) || not (is_empty i.witness)) t ≡ false)
      (ok-injective h2) (rw (v2_input-unsigned m e) (v2_inputs-unsigned ms f))

pub reconstruct_v2-Unsigned :
    (globals : List PsbtEntry) (inputs outputs : List (List PsbtEntry)) {tx : BitcoinTransaction}
    → reconstruct_v2 globals inputs outputs ≡ ok tx
    → Unsigned tx inputs outputs
unfolding reconstruct_v2
reconstruct_v2-Unsigned globals inputs outputs h =
    let (version_entry, _, h1) = >>=-eq-ok (required globals 0x02) _ h in
    let (_, h2) = >>-eq-ok (not (length version_entry.value == 4)) _ _ h1 in
    let (locktime, _, h3) = >>=-eq-ok (determine_v2_locktime globals inputs) _ h2 in
    let (txins, e, h4) = >>=-eq-ok (for_each v2_input inputs) _ h3 in
    let (txouts, f, h5) = >>=-eq-ok (for_each v2_output outputs) _ h4 in
    let (_, _, h6) = >>=-eq-ok (map_err tx_error (serialize false _)) _ h5 in
    subst (λ (t : BitcoinTransaction). Unsigned t inputs outputs) (ok-injective h6)
      (record {
        input_count = sym (length-for_each v2_input inputs e);
        output_count = sym (length-for_each v2_output outputs f);
        no_signatures = v2_inputs-unsigned inputs e;
        no_segwit = refl;
      })

-- The counts of version 0, and what the transaction there has passed.
abbrev pub Counted : Counts → Type 0
Counted c =
    (tx : BitcoinTransaction)
    → c.unsigned_tx ≡ some tx
    → (c.input_count ≡ length tx.inputs)
      × (c.output_count ≡ length tx.outputs)
      × (any_input (λ i. not (is_empty i.script_sig) || not (is_empty i.witness)) tx.inputs ≡ false)
      × (tx.segwit ≡ false)

pub counts_v0-Counted :
    (globals : List PsbtEntry) {c : Counts} → counts_v0 globals ≡ ok c → Counted c
unfolding counts_v0
counts_v0-Counted globals {c} h =
    let (_, h1) = >>-eq-ok (has_any globals (0x02 ∷ 0x03 ∷ 0x04 ∷ 0x05 ∷ 0x06 ∷ [])) _ _ h in
    let (tx_entry, _, h2) = >>=-eq-ok (required globals 0x00) _ h1 in
    let (tx, _, h3) = >>=-eq-ok (map_err bad_unsigned_tx (parse_transaction tx_entry.value)) _ h2 in
    let (g, h4) = >>-eq-ok tx.segwit _ _ h3 in
    let (f, h5) =
      >>-eq-ok (any_input (λ i. not (is_empty i.script_sig) || not (is_empty i.witness)) tx.inputs)
        _ _ h4 in
    subst Counted (ok-injective h5) (λ t e.
      subst
        (λ (u : BitcoinTransaction).
          (length tx.inputs ≡ length u.inputs)
          × (length tx.outputs ≡ length u.outputs)
          × (any_input (λ i. not (is_empty i.script_sig) || not (is_empty i.witness)) u.inputs
              ≡ false)
          × (u.segwit ≡ false))
        (some-injective _ _ e) (refl, refl, f, g))

pub counts_v2-Counted :
    (globals : List PsbtEntry) {c : Counts} → counts_v2 globals ≡ ok c → Counted c
unfolding counts_v2
counts_v2-Counted globals {c} h =
    let (_, h1) = >>-eq-ok (not (is_empty (entries_of globals 0x00))) _ _ h in
    let (input_entry, _, h2) = >>=-eq-ok (required globals 0x04) _ h1 in
    let (n, _, h3) = >>=-eq-ok (compact_value input_entry) _ h2 in
    let (output_entry, _, h4) = >>=-eq-ok (required globals 0x05) _ h3 in
    let (k, _, h5) = >>=-eq-ok (compact_value output_entry) _ h4 in
    let (_, h6) = >>-eq-ok (n == 0 || k == 0) _ _ h5 in
    let (modifiable, _, h7) = >>=-eq-ok (singleton globals 0x06 false true) _ h6 in
    let (_, _, h8) = >>=-eq-ok (if_present _ modifiable) _ h7 in
    subst Counted (ok-injective h8) (λ t e. absurd (cc e))
