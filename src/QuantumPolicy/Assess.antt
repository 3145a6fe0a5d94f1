-- ===== src/QuantumPolicy/Assess.antt =====
-- `assess_utxo` and `build_migration_manifest`.
use sara_pro.Prelude.{
  ℕ, ◌+◌, List, [], ◌∷◌, ◌++◌, Bool, true, false, ◌&&◌, ◌||◌, not, length, ltb, leb, ◌==◌,
  if◌then◌else◌, Result, ok, ◌>>=◌, ◌>>◌, raise_if,
}
use Prim.Native.Nat.{min}
use sara_pro.Prelude.Int.{ℤ, pos, negsuc}
use sara_pro.Bytes.{Text, CaseTables, text, text_eq, text_ltb, from_keys, lower}
use sara_pro.QuantumPolicy.Types.{
  ExposureClass, exposed_long, hidden_until_spend, conditional_reuse_exposure,
  proposed_long_exposure_resistant, unknown, PolicyError, txid_not_hex, negative_vout_or_amount,
  UtxoRecord, UtxoAssessment, is_always_exposed, is_hash_hidden, is_p2mr, normalized_script_type,
}

-- `c in "0123456789abcdefABCDEF"`
abbrev pub is_hex_char : ℕ → Bool
is_hex_char c = (leb 48 c && leb c 57) || (leb 97 c && leb c 102) || (leb 65 c && leb c 70)

unfoldable pub all_hex : Text → Bool
all_hex [] = true
all_hex (c ∷ s) = is_hex_char c && all_hex s

-- `len(t) != 64 or any(c not in ... for c in t)`
unfoldable pub is_not_hex32 : Text → Bool
is_not_hex32 t = not (length t == 64) || not (all_hex t)

abbrev pub is_negative : ℤ → Bool
is_negative (pos _) = false
is_negative (negsuc _) = true

abbrev pub non_negative : ℤ → ℕ
non_negative (pos n) = n
non_negative (negsuc _) = 0

abbrev pub when {ℓ} : {A : Type ℓ} → Bool → List A → List A
when b l = if b then l else []

-- The first chain of tests: the exposure, its reason, and `consensus_feature_required`.
unfoldable pub exposure_of : Text → Bool → Bool → ExposureClass × Text × Bool
exposure_of script known reused =
    if known
    then (exposed_long, text "public key is explicitly recorded as exposed", false)
    else if is_always_exposed script
    then (
      exposed_long,
      script ++ text " exposes elliptic-curve public-key material for long periods",
      false,
    )
    else if is_hash_hidden script
    then (if reused
        then (
          conditional_reuse_exposure,
          text "address reuse can leave the controlling public key exposed while value remains",
          false,
        )
        else (
          hidden_until_spend,
          text "public-key material is normally hidden until spend, leaving short-exposure risk",
          false,
        ))
    else if is_p2mr script
    then (
      proposed_long_exposure_resistant,
      text
          "P2MR draft removes the Taproot key-path public-key exposure but is not activated consensus",
      true,
    )
    else (unknown, text "script type is not covered by the local classifier", false)

abbrev pub is_exposed : ExposureClass → Bool
is_exposed exposed_long = true
is_exposed conditional_reuse_exposure = true
is_exposed _ = false

abbrev pub is_hidden : ExposureClass → Bool
is_hidden hidden_until_spend = true
is_hidden _ = false

abbrev pub is_proposed : ExposureClass → Bool
is_proposed proposed_long_exposure_resistant = true
is_proposed _ = false

unfoldable pub actions_of : ExposureClass → Bool → Bool → List Text
actions_of exposure reused timelocked =
    when reused (text "STOP_ADDRESS_REUSE" ∷ [])
    ++ (when (is_exposed exposure)
          (text "PRIORITIZE_MIGRATION" ∷ text "PRESERVE_OWNER_RECOVERY_EVIDENCE" ∷ [])
        ++ (when (is_hidden exposure)
              (text "AVOID_REUSE" ∷ text "PREPARE_SHORT_EXPOSURE_MITIGATION" ∷ [])
            ++ (when (is_proposed exposure) (text "TEST_ONLY_UNTIL_CONSENSUS_ACTIVATION" ∷ [])
                ++ when timelocked (text "FLAG_TIMELOCK_MIGRATION_CONSTRAINT" ∷ []))))

unfoldable pub base_priority : ExposureClass → ℕ
base_priority exposed_long = 100
base_priority conditional_reuse_exposure = 90
base_priority hidden_until_spend = 60
base_priority proposed_long_exposure_resistant = 20
base_priority unknown = 70

unfoldable pub priority_of : ExposureClass → Bool → ℕ → ℕ
priority_of exposure timelocked amount_sat =
    let base = base_priority exposure in
    let base = if timelocked then base + 10 else base in
    let base = if leb 100_000_000 amount_sat then base + 5 else base in min base 115

module _ (tables : CaseTables) where
  unfoldable pub assess_utxo : UtxoRecord → Result PolicyError UtxoAssessment
  assess_utxo r = do
    raise_if (is_not_hex32 r.txid) txid_not_hex
    raise_if (is_negative r.vout || is_negative r.amount_sat) negative_vout_or_amount
    let script = normalized_script_type tables r.script_type
    let found = exposure_of script r.public_key_known_exposed r.address_reused
    ok (record {
      txid = lower tables r.txid;
      vout = non_negative r.vout;
      amount_sat = non_negative r.amount_sat;
      script_type = script;
      exposure = found.0;
      priority = priority_of found.0 r.timelocked (non_negative r.amount_sat);
      reasons = found.1 ∷ [];
      actions = from_keys text_eq (actions_of found.0 r.address_reused r.timelocked);
      consensus_feature_required = found.2;
    })

  unfoldable pub assess_all : List UtxoRecord → Result PolicyError (List UtxoAssessment)
  assess_all [] = ok []
  assess_all (r ∷ rs) = do a ← assess_utxo r; rest ← assess_all rs; ok (a ∷ rest)

-- The order of the keys `(-a.priority, -a.amount_sat, a.txid, a.vout)`: `key(b) < key(a)`
unfoldable pub key_ltb : UtxoAssessment → UtxoAssessment → Bool
key_ltb b a =
    ltb a.priority b.priority
    || (a.priority == b.priority
        && (ltb a.amount_sat b.amount_sat
            || (a.amount_sat == b.amount_sat
                && (text_ltb b.txid a.txid || (text_eq b.txid a.txid && ltb b.vout a.vout)))))

-- `list.sort(key=...)`, which is stable: `a` goes before the first element that is not smaller.
unfoldable pub insert_by_key : UtxoAssessment → List UtxoAssessment → List UtxoAssessment
insert_by_key a [] = a ∷ []
insert_by_key a (b ∷ l) =
    let rest = insert_by_key a l in if key_ltb b a then b ∷ rest else a ∷ b ∷ l

unfoldable pub sort_by_key : List UtxoAssessment → List UtxoAssessment
sort_by_key [] = []
sort_by_key (a ∷ l) = insert_by_key a (sort_by_key l)

-- `sum(a.amount_sat for a in l if test(a.exposure))`
unfoldable pub sum_where : (ExposureClass → Bool) → List UtxoAssessment → ℕ
sum_where test [] = 0
sum_where test (a ∷ l) = (if test a.exposure then a.amount_sat else 0) + sum_where test l

pub record MigrationManifest : Type 0 where
  pub utxo_count : ℕ
  pub long_or_reuse_exposed_sat : ℕ
  pub hidden_until_spend_sat : ℕ
  pub utxos : List UtxoAssessment

unfoldable pub manifest_of : List UtxoAssessment → MigrationManifest
manifest_of sorted = record {
  utxo_count = length sorted;
  long_or_reuse_exposed_sat = sum_where is_exposed sorted;
  hidden_until_spend_sat = sum_where is_hidden sorted;
  utxos = sorted;
}

module _ (tables : CaseTables) where
  unfoldable pub build_migration_manifest : List UtxoRecord → Result PolicyError MigrationManifest
  build_migration_manifest records = do
    assessments ← assess_all tables records
    ok (manifest_of (sort_by_key assessments))
