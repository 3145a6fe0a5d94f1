-- ===== src/QuantumPolicy/Priority.antt =====
-- The migration priority of a UTXO.
use sara_pro.Prelude.{
  ℕ, ◌≤◌, ◌≡◌, Bool, ◌&&◌, ◌||◌, arith, if◌then◌else◌, ok, >>-eq-ok, ok-injective, subst,
}
use sara_pro.Bytes.{Text, CaseTables}
use sara_pro.QuantumPolicy.Types.{
  ExposureClass, exposed_long, UtxoRecord, UtxoAssessment, is_always_exposed, is_hash_hidden,
  normalized_script_type,
}
use sara_pro.QuantumPolicy.Assess.{
  is_exposed, base_priority, priority_of, exposure_of, assess_utxo, is_not_hex32, is_negative,
  non_negative,
}

-- The bounds of a priority, by whether the key is exposed.
abbrev pub Ranked : ExposureClass → ℕ → Type 0
Ranked exposure p = if is_exposed exposure then (90 ≤ p) × (p ≤ 115) else (20 ≤ p) × (p ≤ 85)

priority_of-Ranked :
    (e : ExposureClass) (timelocked : Bool) (amount : ℕ)
    → Ranked e (priority_of e timelocked amount)
unfolding priority_of base_priority
priority_of-Ranked exposed_long t a = ground arith
priority_of-Ranked e t a = ground arith

-- What makes a script type or a record an exposed one.
abbrev pub should_be_exposed : CaseTables → UtxoRecord → Bool
should_be_exposed tables r =
    let script = normalized_script_type tables r.script_type in
    r.public_key_known_exposed
    || (is_always_exposed script || (is_hash_hidden script && r.address_reused))

exposure_of-is_exposed :
    (script : Text) (known reused : Bool)
    → is_exposed (exposure_of script known reused).0
      ≡ (known || (is_always_exposed script || (is_hash_hidden script && reused)))
unfolding exposure_of
exposure_of-is_exposed script known reused = ground arith

module _ (tables : CaseTables) (r : UtxoRecord) (a : UtxoAssessment) where
  -- An assessed UTXO is classed as exposed exactly when its key is recorded as exposed, its script type
  -- is long-exposed, or it is hash-hidden and its address is reused; an exposed one has a priority of
  -- 90 to 115, any other one of 20 to 85.
  pub assess_utxo_ranks :
      assess_utxo tables r ≡ ok a
      → (is_exposed a.exposure ≡ should_be_exposed tables r) × Ranked a.exposure a.priority
  unfolding assess_utxo
  assess_utxo_ranks h =
      let (_, h1) = >>-eq-ok (is_not_hex32 r.txid) _ _ h in
      let (_, h2) = >>-eq-ok (is_negative r.vout || is_negative r.amount_sat) _ _ h1 in
      let script = normalized_script_type tables r.script_type in
      let e = exposure_of script r.public_key_known_exposed r.address_reused in
      subst
        (λ (a : UtxoAssessment).
          (is_exposed a.exposure ≡ should_be_exposed tables r) × Ranked a.exposure a.priority)
        (ok-injective h2)
        (
          exposure_of-is_exposed script r.public_key_known_exposed r.address_reused,
          priority_of-Ranked e.0 r.timelocked (non_negative r.amount_sat),
        )
