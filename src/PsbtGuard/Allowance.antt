-- ===== src/PsbtGuard/Allowance.antt =====
-- What a PSBT that the audit allows has passed.
use sara_pro.Prelude.{
  ℕ, suc, ◌+◌, ◌*◌, ◌≤◌, ◌≡◌, ◌⊎◌, inl, inr, refl, ap, ◌∙◌, subst, All, List, [], ◌∷◌, Option, none,
  some, Bool, true, false, ◌&&◌, not, arith, length, ltb, ltb_false→le, ◌==◌, ==_iff, both_true,
  either_false, negated, ok, map_err, map_err-eq-ok, >>=-eq-ok, >>-eq-ok, ok-injective,
}
use sara_pro.Prelude.Int.{ℤ, pos, negsuc}
use sara_pro.Bytes.{Bytes, Text, text, text_eq, is_empty, CaseTables}
use sara_pro.BitcoinTx.Types.{TxOutput}
use sara_pro.BitcoinTx.Serialize.{serialize}
use sara_pro.BitcoinTx.Evaluate.{any_input, any_outside, tx_hash}
use sara_pro.BitcoinTx.Script.{classify_script_pubkey}
use sara_pro.SignaturePolicy.{Allowed, enforce_sighash_policy}
use sara_pro.PsbtGuard.{tx_error, PsbtEntry, entries_of, declared_sighash}
use sara_pro.PsbtGuard.Fields.{Hashes}
use sara_pro.PsbtGuard.Parse.{ParsedPsbt}
use sara_pro.PsbtGuard.Provenance.{resolve_inputs}
use sara_pro.PsbtGuard.Resolved.{Resolved, resolve_inputs-Resolved}
use sara_pro.PsbtGuard.Audit.{
  AuditArgs, FieldCounts, check_cap, is_above, check_rate, rate_above, check_declared,
  check_sighashes, AuditedOutput, reuses, below_threshold, dust_threshold_sat, policy_allows,
  audit_output, audit_outputs,
}
use sara_pro.PsbtGuard.Report.{
  quotient_or_zero, total_value, any_output, mutable_after_signature, PsbtAuditReport,
  all_outputs_allowed, is_allowed, count_psbt, report_of, audit_parsed,
}

negative : (b : Bool) → not b ≡ true → b ≡ false
negative false h = refl
negative true h = absurd (cc h)

excluded : (a b : Bool) → not (a && b) ≡ true → a ≡ true → b ≡ false
excluded true b h e = negative b h
excluded false b h e = absurd (cc e)

is_above-cap : (n : ℕ) (o : Option ℤ) (k : ℕ) → not (is_above n o) ≡ true → o ≡ some (pos k) → n ≤ k
unfolding is_above
is_above-cap n none k h e = absurd (cc e)
is_above-cap n (some (negsuc m)) k h e = absurd (cc h)
is_above-cap n (some (pos m)) k h e =
    let same : m ≡ k = cc e in
    let low = ltb_false→le m n (negative (ltb m n) h) in omega (arith, low, same)

outputs_pass :
    (l : List AuditedOutput)
    → any_output (λ d. not d.allowed) l ≡ false
    → All (λ d. d.allowed ≡ true) l
unfolding any_output
outputs_pass [] h = tt
outputs_pass (d ∷ l) h =
    let (a, b) = either_false (not d.allowed) (any_output (λ d. not d.allowed) l) h in
    (negated d.allowed a, outputs_pass l b)

-- The gates that a report with `allowed` has passed.
pub record Gated (a : AuditArgs) (r : PsbtAuditReport) : Type 0 where
  pub outputs : All (λ d. d.allowed ≡ true) r.output_decisions
  pub xpub : a.reject_global_xpub ≡ true → r.global_xpub ≡ false
  pub unknown : a.reject_unknown_fields ≡ true → r.unknown_field_count ≡ 0
  pub proprietary : a.reject_proprietary_fields ≡ true → r.unapproved_proprietary_field_count ≡ 0
  pub final : r.mutable ≡ false
  pub fresh :
      a.reject_address_reuse ≡ true
      → any_output (λ d. d.address_reuse_detected) r.output_decisions ≡ false
  pub rbf : a.reject_rbf ≡ true → r.signals_rbf ≡ false
  pub dust : a.reject_dust ≡ true → any_output (λ d. d.is_dust) r.output_decisions ≡ false
  pub fee : (k : ℕ) → a.max_fee_sat ≡ some (pos k) → r.fee_sat ≤ k
  pub bps : (k : ℕ) → a.max_fee_bps_of_input ≡ some (pos k) → r.fee_bps_of_input ≤ k
  pub rate : rate_above r.fee_sat r.minimum_unsigned_vsize a.max_fee_rate ≡ false

is_allowed-Gated : (a : AuditArgs) (r : PsbtAuditReport) → is_allowed a r ≡ true → Gated a r
unfolding is_allowed
is_allowed-Gated a r h =
    let (h1, rate) =
      both_true _ (not (rate_above r.fee_sat r.minimum_unsigned_vsize a.max_fee_rate)) h in
    let (h2, bps) = both_true _ (not (is_above r.fee_bps_of_input a.max_fee_bps_of_input)) h1 in
    let (h3, fee) = both_true _ (not (is_above r.fee_sat a.max_fee_sat)) h2 in
    let (h4, dust) =
      both_true _ (not (a.reject_dust && any_output (λ d. d.is_dust) r.output_decisions)) h3 in
    let (h5, rbf) = both_true _ (not (a.reject_rbf && r.signals_rbf)) h4 in
    let (h6, fresh) =
      both_true _
        (not
          (a.reject_address_reuse && any_output (λ d. d.address_reuse_detected) r.output_decisions))
        h5 in
    let (h7, final) = both_true _ (not r.mutable) h6 in
    let (h8, prop) =
      both_true _
        (not (a.reject_proprietary_fields && not (r.unapproved_proprietary_field_count == 0))) h7 in
    let (h9, unknown) =
      both_true _ (not (a.reject_unknown_fields && not (r.unknown_field_count == 0))) h8 in
    let (outputs, xpub) =
      both_true (all_outputs_allowed r.output_decisions)
        (not (a.reject_global_xpub && r.global_xpub)) h9 in
    record {
      outputs = outputs_pass r.output_decisions (negative _ outputs);
      xpub = excluded a.reject_global_xpub r.global_xpub xpub;
      unknown = λ e. zero_count (excluded a.reject_unknown_fields _ unknown e);
      proprietary = λ e. zero_count (excluded a.reject_proprietary_fields _ prop e);
      final = negative r.mutable final;
      fresh = excluded a.reject_address_reuse _ fresh;
      rbf = excluded a.reject_rbf r.signals_rbf rbf;
      dust = excluded a.reject_dust _ dust;
      fee = λ k e. is_above-cap r.fee_sat a.max_fee_sat k fee e;
      bps = λ k e. is_above-cap r.fee_bps_of_input a.max_fee_bps_of_input k bps e;
      rate = negative _ rate;
    }
  where
    zero_count : {n : ℕ} → not (n == 0) ≡ false → n ≡ 0
    zero_count {n} f = (==_iff n 0).0 (negated (n == 0) f)

-- The declared sighash type of an input, if there is one, is permitted for its previous output.
abbrev pub SighashPermitted : Allowed → List PsbtEntry → TxOutput → Type 0
SighashPermitted allow m o =
    (declared_sighash m ≡ ok none)
    ⊎ ((t : ℕ) × (declared_sighash m ≡ ok (some t))
        × (enforce_sighash_policy t (text_eq (classify_script_pubkey o.script_pubkey) (text "P2TR"))
              allow
            ≡ ok tt))

-- It is so of every input, up to the end of the shorter list.
unfoldable pub SighashesPermitted : Allowed → List (List PsbtEntry) → List TxOutput → Type 0
SighashesPermitted allow (m ∷ ms) (o ∷ os) =
    SighashPermitted allow m o × SighashesPermitted allow ms os
SighashesPermitted allow [] os = Unit
SighashesPermitted allow (m ∷ ms) [] = Unit

permitted :
    (allow : Allowed) (m : List PsbtEntry) (o : TxOutput) (declared : Option ℕ)
    → declared_sighash m ≡ ok declared
    → check_declared allow (classify_script_pubkey o.script_pubkey) declared ≡ ok tt
    → SighashPermitted allow m o
unfolding check_declared
permitted allow m o none d e = inl d
permitted allow m o (some t) d e = inr (t, d, map_err-eq-ok _ _ e)

check_sighashes-Permitted :
    (allow : Allowed) (ms : List (List PsbtEntry)) (os : List TxOutput)
    → check_sighashes allow ms os ≡ ok tt
    → SighashesPermitted allow ms os
unfolding check_sighashes SighashesPermitted
check_sighashes-Permitted allow [] os h = tt
check_sighashes-Permitted allow (m ∷ ms) [] h = tt
check_sighashes-Permitted allow (m ∷ ms) (o ∷ os) h =
    let (declared, d, h1) = >>=-eq-ok (declared_sighash m) _ h in
    let (u, e, h2) =
      >>=-eq-ok (check_declared allow (classify_script_pubkey o.script_pubkey) declared) _ h1 in
    (permitted allow m o declared d e, check_sighashes-Permitted allow ms os h2)

module _ (h : Hashes) (tables : CaseTables) (a : AuditArgs) where
  -- A decision on an output: what it says of the output, and that an allowed one passes the policy.
  pub record Decides (previous : List TxOutput) (index : ℕ) (o : TxOutput) (d : AuditedOutput)
      : Type 0 where
    pub index_is : d.index ≡ index
    pub value_is : d.value_sat ≡ o.value_sat
    pub type_is : d.script_type ≡ classify_script_pubkey o.script_pubkey
    pub reuse_is : d.address_reuse_detected ≡ reuses previous o.script_pubkey
    pub dust_is :
        d.is_dust
        ≡ below_threshold o.value_sat (dust_threshold_sat (classify_script_pubkey o.script_pubkey))
    pub policy : d.allowed ≡ true → policy_allows tables a previous index o ≡ true

  -- A decision on each output, in order.
  unfoldable pub DecidesAll : List TxOutput → ℕ → List TxOutput → List AuditedOutput → Type 0
  DecidesAll previous index [] [] = Unit
  DecidesAll previous index (o ∷ os) (d ∷ ds) =
      Decides previous index o d × DecidesAll previous (suc index) os ds
  DecidesAll previous index _ _ = ⊥

  audit_outputs-DecidesAll :
      (previous : List TxOutput) (index : ℕ) (os : List TxOutput)
      → DecidesAll previous index os (audit_outputs tables a previous index os)
  unfolding audit_outputs audit_output DecidesAll
  audit_outputs-DecidesAll previous index [] = tt
  audit_outputs-DecidesAll previous index (o ∷ os) = (
    record {
      index_is = refl;
      value_is = refl;
      type_is = refl;
      reuse_is = refl;
      dust_is = refl;
      policy = λ e. (both_true (policy_allows tables a previous index o) _ e).0;
    },
    audit_outputs-DecidesAll previous (suc index) os,
  )

  -- The facts of a report are those of the PSBT and of its previous outputs.
  pub record Tied (p : ParsedPsbt) (previous : List TxOutput) (r : PsbtAuditReport) : Type 0 where
    pub input_value : r.input_value_sat ≡ total_value previous
    pub output_value : r.output_value_sat ≡ total_value p.transaction.outputs
    pub decisions : DecidesAll previous 0 p.transaction.outputs r.output_decisions
    pub bps : r.fee_bps_of_input ≡ quotient_or_zero (r.fee_sat * 10_000) (total_value previous)
    pub stripped : Bytes
    pub serialized : serialize false p.transaction ≡ ok stripped
    pub vsize : r.minimum_unsigned_vsize ≡ length stripped
    pub xpub : r.global_xpub ≡ not (is_empty (entries_of p.global_map 0x01))
    pub counts : FieldCounts
    pub counted : count_psbt h tables a p ≡ ok counts
    pub unknown : r.unknown_field_count ≡ counts.unknown
    pub unapproved : r.unapproved_proprietary_field_count ≡ counts.unapproved
    pub modifiable : mutable_after_signature p ≡ ok r.mutable
    pub rbf : r.signals_rbf ≡ any_input (λ i. ltb i.sequence 0xFFFFFFFE) p.transaction.inputs
    pub hash : tx_hash h.sha256 p.transaction false ≡ ok r.txid

  report-Tied :
      (p : ParsedPsbt) (os : List TxOutput) (counts : FieldCounts) (m : Bool) (txid : Text)
      (bs : Bytes)
      → serialize false p.transaction ≡ ok bs
      → count_psbt h tables a p ≡ ok counts
      → mutable_after_signature p ≡ ok m
      → tx_hash h.sha256 p.transaction false ≡ ok txid
      → Tied p os (report_of h tables a p os counts m txid (length bs))
  unfolding report_of
  report-Tied p os counts m txid bs serialized counted modifiable hash = record {
    input_value = refl;
    output_value = refl;
    decisions = audit_outputs-DecidesAll os 0 p.transaction.outputs;
    bps = refl;
    stripped = bs;
    serialized = serialized;
    vsize = refl;
    xpub = refl;
    counts = counts;
    counted = counted;
    unknown = refl;
    unapproved = refl;
    modifiable = modifiable;
    rbf = refl;
    hash = hash;
  }

  -- An allowed report, with where its values come from.
  pub record Signable (p : ParsedPsbt) (r : PsbtAuditReport) : Type 0 where
    pub previous : List TxOutput
    pub resolved : Resolved h tables [] p.transaction.inputs p.input_maps previous
    pub balanced : total_value p.transaction.outputs + r.fee_sat ≡ total_value previous
    pub sighashes : SighashesPermitted a.allow_sighash p.input_maps previous
    pub tied : Tied p previous r
    pub gated : Gated a r

  report-Gated :
      (p : ParsedPsbt) (os : List TxOutput) (counts : FieldCounts) (m : Bool) (txid : Text) (n : ℕ)
      → (report_of h tables a p os counts m txid n).allowed ≡ true
      → Gated a (report_of h tables a p os counts m txid n)
  unfolding report_of is_allowed
  report-Gated p os counts m txid n e =
      is_allowed-Gated a (report_of h tables a p os counts m txid n) e

  balance :
      (p : ParsedPsbt) (os : List TxOutput) (counts : FieldCounts) (m : Bool) (txid : Text) (n : ℕ)
      → total_value p.transaction.outputs ≤ total_value os
      → total_value p.transaction.outputs + (report_of h tables a p os counts m txid n).fee_sat
        ≡ total_value os
  unfolding report_of
  balance p os counts m txid n enough = omega (arith, enough)

  -- If the audit allows a PSBT, the inputs' values are those of their resolved previous outputs, and what
  -- the outputs leave of them is exactly the reported fee. The declared sighash type of every input map
  -- with a previous output is permitted for it. The report has a decision on each output in order, and
  -- its values, counts and flags are those of the PSBT and of its previous outputs. Every gate is passed:
  -- all outputs allowed, the fee within each cap that is set, no modifiable signed PSBT, and no extended
  -- key, unknown or unapproved field, reused address, replaceable input or dust where the arguments
  -- reject it.
  pub audit_parsed-Signable :
      (p : ParsedPsbt) {r : PsbtAuditReport}
      → audit_parsed h tables a p ≡ ok r
      → r.allowed ≡ true
      → Signable p r
  unfolding audit_parsed
  audit_parsed-Signable p {r} g allowed =
      let (os, e, g1) =
        >>=-eq-ok (resolve_inputs h tables [] p.transaction.inputs p.input_maps) _ g in
      let (_, g2) =
        >>-eq-ok (any_outside (length p.transaction.outputs) a.pq_recovery_output_indexes) _ _ g1 in
      let (counts, counted, g3) = >>=-eq-ok (count_psbt h tables a p) _ g2 in
      let (f, g4) = >>-eq-ok (ltb (total_value os) (total_value p.transaction.outputs)) _ _ g3 in
      let (bs, serialized, g5) =
        >>=-eq-ok (map_err tx_error (serialize false p.transaction)) _ g4 in
      let (_, _, g6) = >>=-eq-ok (check_cap none a.max_fee_sat) _ g5 in
      let (_, _, g7) = >>=-eq-ok (check_cap (some 10_000) a.max_fee_bps_of_input) _ g6 in
      let (_, _, g8) = >>=-eq-ok (check_rate a.max_fee_rate) _ g7 in
      let (u, s, g9) = >>=-eq-ok (check_sighashes a.allow_sighash p.input_maps os) _ g8 in
      let (m, modifiable, g10) = >>=-eq-ok (mutable_after_signature p) _ g9 in
      let (txid, hash, g11) =
        >>=-eq-ok (map_err tx_error (tx_hash h.sha256 p.transaction false)) _ g10 in
      let same = ok-injective g11 in
      let enough = ltb_false→le (total_value os) (total_value p.transaction.outputs) f in
      let permitted = ap (λ (t : PsbtAuditReport). t.allowed) same ∙ allowed in
      subst (Signable p) same (record {
        previous = os;
        resolved = resolve_inputs-Resolved h tables [] p.transaction.inputs p.input_maps e;
        balanced = balance p os counts m txid (length bs) enough;
        sighashes = check_sighashes-Permitted a.allow_sighash p.input_maps os s;
        tied =
            report-Tied p os counts m txid bs (map_err-eq-ok _ _ serialized) counted modifiable
              (map_err-eq-ok _ _ hash);
        gated = report-Gated p os counts m txid (length bs) permitted;
      })
