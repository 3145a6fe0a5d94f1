-- ===== src/PsbtGuard/Resolved.antt =====
-- What a resolved previous output rests on.
use sara_pro.Prelude.{
  map_err-eq-ok, ℕ, ◌≡◌, ap, ◌∙◌, subst, List, [], ◌∷◌, Option, none, some, Bool, true, false, ◌&&◌,
  not, ◌==◌, ==_iff, either_false, negated, ok, map_err, or_raise-eq-ok, >>=-eq-ok, >>-eq-ok,
  ok-injective,
}
use sara_pro.Bytes.{Bytes, Text, CaseTables, text_eq, text_eq→eq, text_in, lower}
use sara_pro.BitcoinTx.Types.{TxInput, TxOutput, BitcoinTransaction}
use sara_pro.BitcoinTx.Parse.{parse_transaction}
use sara_pro.BitcoinTx.Evaluate.{tx_hash}
use sara_pro.BitcoinTx.Script.{classify_script_pubkey}
use sara_pro.PsbtGuard.{bad_non_witness_utxo, tx_error, PsbtEntry, singleton}
use sara_pro.PsbtGuard.Fields.{Hashes}
use sara_pro.PsbtGuard.Provenance.{
  parse_witness_utxo, output_at, never_segwit, outputs_differ, seen_before,
  validate_input_script_commitments, from_non_witness, from_witness, resolve, resolve_input,
  resolve_inputs,
}

module _ (h : Hashes) (tables : CaseTables) where
  -- A transaction with the txid that the input names has the output at the index that it names.
  pub record Committed (txin : TxInput) (o : TxOutput) : Type 0 where
    pub value : Bytes
    pub prev_tx : BitcoinTransaction
    pub parses : parse_transaction value ≡ ok prev_tx
    pub txid : Text
    pub hashes : tx_hash h.sha256 prev_tx false ≡ ok txid
    pub names : lower tables txid ≡ lower tables txin.prev_txid
    pub found : output_at txin.vout prev_tx.outputs ≡ some o

  -- A previous output with its source: a transaction that commits to it, or only the witness UTXO of
  -- the map, whose script is then of a segwit form.
  pub data Proven (txin : TxInput) (m : List PsbtEntry) (o : TxOutput) : Type 0 where
    by_transaction : Committed txin o → Proven txin m o
    by_witness :
        (e : PsbtEntry)
        → singleton m 0x00 false true ≡ ok none
        → singleton m 0x01 false true ≡ ok (some e)
        → parse_witness_utxo e.value ≡ ok o
        → text_in (classify_script_pubkey o.script_pubkey) never_segwit ≡ false
        → Proven txin m o

  from_non_witness-Committed :
      (txin : TxInput) (e : PsbtEntry) {o : TxOutput}
      → from_non_witness h tables txin e ≡ ok o
      → Committed txin o
  unfolding from_non_witness
  from_non_witness-Committed txin e g =
      let (prev_tx, p, g1) =
        >>=-eq-ok (map_err bad_non_witness_utxo (parse_transaction e.value)) _ g in
      let (txid, t, g2) = >>=-eq-ok (map_err tx_error (tx_hash h.sha256 prev_tx false)) _ g1 in
      let (f, g3) =
        >>-eq-ok (not (text_eq (lower tables txid) (lower tables txin.prev_txid))) _ _ g2 in
      record {
        value = e.value;
        prev_tx = prev_tx;
        parses = map_err-eq-ok _ _ p;
        txid = txid;
        hashes = map_err-eq-ok _ _ t;
        names =
            text_eq→eq _ _ (negated (text_eq (lower tables txid) (lower tables txin.prev_txid)) f);
        found = or_raise-eq-ok _ _ g3;
      }

  from_witness-parses :
      (b : Bool) (e : PsbtEntry) {o : TxOutput}
      → from_witness h tables b e ≡ ok o
      → (parse_witness_utxo e.value ≡ ok o)
        × ((not b && text_in (classify_script_pubkey o.script_pubkey) never_segwit) ≡ false)
  unfolding from_witness
  from_witness-parses b e g =
      let (a, p, g1) = >>=-eq-ok (parse_witness_utxo e.value) _ g in
      let (f, g2) =
        >>-eq-ok (not b && text_in (classify_script_pubkey a.script_pubkey) never_segwit) _ _ g1 in
      let same = ok-injective g2 in
      (
        p ∙ ap ok same,
        subst
            (λ (t : TxOutput).
              (not b && text_in (classify_script_pubkey t.script_pubkey) never_segwit) ≡ false)
            same f,
      )

  same_output : (a b : TxOutput) → outputs_differ a b ≡ false → a ≡ b
  same_output a b f =
      let (v, s) =
        either_false (not (a.value_sat == b.value_sat))
          (not (text_eq a.script_pubkey b.script_pubkey)) f in
      let value = (==_iff a.value_sat b.value_sat).0 (negated (a.value_sat == b.value_sat) v) in
      let script =
        text_eq→eq a.script_pubkey b.script_pubkey
          (negated (text_eq a.script_pubkey b.script_pubkey) s) in
      ap (λ (t : ℕ). record a { value_sat = t }) value
      ∙ ap (λ (t : Bytes). record b { script_pubkey = t }) script

  resolve-Proven :
      (txin : TxInput) (m : List PsbtEntry) (nonw wit : Option PsbtEntry) {o : TxOutput}
      → singleton m 0x00 false true ≡ ok nonw
      → singleton m 0x01 false true ≡ ok wit
      → resolve h tables txin nonw wit ≡ ok o
      → Proven txin m o
  unfolding resolve
  resolve-Proven txin m none none s t g = absurd (cc g)
  resolve-Proven txin m (some n) none s t g = by_transaction (from_non_witness-Committed txin n g)
  resolve-Proven txin m none (some w) s t g =
      let (p, f) = from_witness-parses false w g in by_witness w s t p f
  resolve-Proven txin m (some n) (some w) s t g =
      let (a, p, g1) = >>=-eq-ok (from_non_witness h tables txin n) _ g in
      let (b, _, g2) = >>=-eq-ok (from_witness h tables true w) _ g1 in
      let (f, g3) = >>-eq-ok (outputs_differ a b) _ _ g2 in
      by_transaction (
        subst (Committed txin) (same_output a b f ∙ ok-injective g3)
          (from_non_witness-Committed txin n p))

  -- The inputs one by one, with their maps and their previous outputs, and no outpoint twice.
  pub data Resolved
      : List (Text × ℕ) → List TxInput → List (List PsbtEntry) → List TxOutput → Type 0 where
    done : (seen : List (Text × ℕ)) (ms : List (List PsbtEntry)) → Resolved seen [] ms []
    short : (seen : List (Text × ℕ)) (ins : List TxInput) → Resolved seen ins [] []
    next :
        (seen : List (Text × ℕ)) (txin : TxInput) (ins : List TxInput) (m : List PsbtEntry)
        (ms : List (List PsbtEntry)) (o : TxOutput) (os : List TxOutput)
        → seen_before (lower tables txin.prev_txid) txin.vout seen ≡ false
        → Proven txin m o
        → validate_input_script_commitments h o m ≡ ok tt
        → Resolved ((lower tables txin.prev_txid, txin.vout) ∷ seen) ins ms os
        → Resolved seen (txin ∷ ins) (m ∷ ms) (o ∷ os)

  resolve_input-Proven :
      (txin : TxInput) (m : List PsbtEntry) {o : TxOutput}
      → resolve_input h tables txin m ≡ ok o
      → Proven txin m o × (validate_input_script_commitments h o m ≡ ok tt)
  unfolding resolve_input
  resolve_input-Proven txin m g =
      let (nonw, s, g1) = >>=-eq-ok (singleton m 0x00 false true) _ g in
      let (wit, t, g2) = >>=-eq-ok (singleton m 0x01 false true) _ g1 in
      let (a, r, g3) = >>=-eq-ok (resolve h tables txin nonw wit) _ g2 in
      let (u, c, g4) = >>=-eq-ok (validate_input_script_commitments h a m) _ g3 in
      let same = ok-injective g4 in
      (
        subst (Proven txin m) same (resolve-Proven txin m nonw wit s t r),
        subst (λ (t : TxOutput). validate_input_script_commitments h t m ≡ ok tt) same c,
      )

  -- Each previous output that is resolved is one that a transaction with the named txid has at the named
  -- index, or, where the input's map has no such transaction, the one of its witness UTXO field (0x01),
  -- of a segwit form; its scripts match its commitments; and no outpoint is spent twice.
  pub resolve_inputs-Resolved :
      (seen : List (Text × ℕ)) (ins : List TxInput) (ms : List (List PsbtEntry))
      {os : List TxOutput}
      → resolve_inputs h tables seen ins ms ≡ ok os
      → Resolved seen ins ms os
  unfolding resolve_inputs
  resolve_inputs-Resolved seen [] ms g = subst (Resolved seen [] ms) (ok-injective g) (done seen ms)
  resolve_inputs-Resolved seen (txin ∷ ins) [] g =
      subst (Resolved seen (txin ∷ ins) []) (ok-injective g) (short seen (txin ∷ ins))
  resolve_inputs-Resolved seen (txin ∷ ins) (m ∷ ms) g =
      let (f, g1) = >>-eq-ok (seen_before (lower tables txin.prev_txid) txin.vout seen) _ _ g in
      let (o, e, g2) = >>=-eq-ok (resolve_input h tables txin m) _ g1 in
      let (os, r, g3) =
        >>=-eq-ok (resolve_inputs h tables ((lower tables txin.prev_txid, txin.vout) ∷ seen) ins ms)
          _ g2 in
      let (p, c) = resolve_input-Proven txin m e in
      subst (Resolved seen (txin ∷ ins) (m ∷ ms)) (ok-injective g3) (
        next seen txin ins m ms o os f p c
          (resolve_inputs-Resolved ((lower tables txin.prev_txid, txin.vout) ∷ seen) ins ms r))
