-- ===== src/ResourceBudget/Limits.antt =====
-- When a budget report is satisfied, and the projected sizes that it compares.
use sara_pro.Prelude.{
  ℕ, ◌+◌, ◌*◌, ◌/◌, ◌≤◌, ◌<◌, ◌≡◌, ◌↔◌, ◌⊎◌, inl, inr, refl, subst, List, [], ◌∷◌, Bool, true,
  false, ◌||◌, arith, ok, >>=-eq-ok, >>-eq-ok, ok-injective, length, ◌==◌, not,
}
use sara_pro.Prelude.Int.{ℤ}
use sara_pro.Bytes.{Text, CaseTables, is_empty}
use sara_pro.CryptoAgility.{at_most_int}
use sara_pro.ResourceBudget.{
  ResourceBudgetPolicy, check_policy, ResourceBudgetReport, Weighing, unweighed, weigh_inputs,
  Package, exceeds, pq_bytes, total_weight, report_of, overhead_of, evaluate_resource_budget,
}

-- Each size of the report is within its limit, and no input has an unknown weight unless that is allowed.
pub record Within (p : ResourceBudgetPolicy) (r : ResourceBudgetReport) : Type 0 where
  pub psbt : at_most_int r.psbt_bytes p.max_psbt_bytes ≡ true
  pub unsigned : at_most_int r.unsigned_vsize p.max_unsigned_vsize ≡ true
  pub weight : at_most_int r.projected_signed_weight_wu p.max_projected_weight_wu ≡ true
  pub vsize : at_most_int r.projected_signed_vsize p.max_projected_signed_vsize ≡ true
  pub detached :
      at_most_int r.projected_detached_pq_signature_bytes p.max_detached_pq_signature_bytes ≡ true
  pub authorization :
      at_most_int r.projected_authorization_bytes p.max_total_authorization_bytes ≡ true
  pub known : (r.unknown_weight_input_indexes ≡ []) ⊎ (p.allow_unknown_input_weight ≡ true)

exceeds-empty :
    (b : Bool) (name : Text) (rest : List Text)
    → is_empty (exceeds b name rest) ≡ true
    → (b ≡ true) × (is_empty rest ≡ true)
exceeds-empty true name rest h = (refl, h)
exceeds-empty false name rest h = absurd (cc h)

known_or_allowed : (l : List ℕ) (b : Bool) → (is_empty l || b) ≡ true → (l ≡ []) ⊎ (b ≡ true)
known_or_allowed [] b h = inl refl
known_or_allowed (n ∷ l) b h = inr h

allowed_or_known : (l : List ℕ) (b : Bool) → (l ≡ []) ⊎ (b ≡ true) → (is_empty l || b) ≡ true
allowed_or_known [] b h = refl
allowed_or_known (n ∷ l) b (inl e) = absurd (cc e)
allowed_or_known (n ∷ l) b (inr e) = e

-- What the report says of its limits, and of its two projected sizes.
abbrev pub Budgeted : ResourceBudgetPolicy → ResourceBudgetReport → Type 0
Budgeted p r =
    ((r.satisfied ≡ true) ↔ Within p r)
    × (r.projected_signed_weight_wu ≤ 4 * r.projected_signed_vsize)
    × (4 * r.projected_signed_vsize < r.projected_signed_weight_wu + 4)

rounded : (w : ℕ) → (w ≤ 4 * ((w + 3) / 4)) × (4 * ((w + 3) / 4) < w + 4)
rounded w = (omega arith, omega arith)

module _ (tables : CaseTables) (p : ResourceBudgetPolicy) (signing : Package) (s : Weighing)
    (pq overhead : ℕ) where
  abbrev report : ResourceBudgetReport
  report = report_of tables p signing s pq overhead

  satisfied→Within : report.satisfied ≡ true → Within p report
  satisfied→Within h =
      let (a, h1) = exceeds-empty _ _ _ h in
      let (b, h2) = exceeds-empty _ _ _ h1 in
      let (c, h3) = exceeds-empty _ _ _ h2 in
      let (d, h4) = exceeds-empty _ _ _ h3 in
      let (e, h5) = exceeds-empty _ _ _ h4 in
      let (f, h6) = exceeds-empty _ _ _ h5 in
      let (g, _) = exceeds-empty _ _ _ h6 in
      record {
        psbt = a;
        unsigned = b;
        weight = c;
        vsize = d;
        detached = e;
        authorization = f;
        known = known_or_allowed s.unknown p.allow_unknown_input_weight g;
      }

  Within→satisfied : Within p report → report.satisfied ≡ true
  Within→satisfied w = rw (
    w.psbt,
    w.unsigned,
    w.weight,
    w.vsize,
    w.detached,
    w.authorization,
    allowed_or_known s.unknown p.allow_unknown_input_weight w.known,
  )

  report-Budgeted : Budgeted p report
  report-Budgeted =
      let (above, below) = rounded (total_weight tables s) in
      ((satisfied→Within, Within→satisfied), above, below)

-- A report of `evaluate_resource_budget` is satisfied exactly when every size it reports is within its
-- limit of the policy and no input has an unknown weight unless the policy allows it; and its projected
-- virtual size is a quarter of its projected weight, rounded up.
pub evaluate_resource_budget-Budgeted :
    (tables : CaseTables) (signing : Package) (p : ResourceBudgetPolicy) (algorithms : List Text)
    (overhead : ℤ) (overrides : List (ℕ × ℤ)) {r : ResourceBudgetReport}
    → evaluate_resource_budget tables signing p algorithms overhead overrides ≡ ok r
    → Budgeted p r
unfolding evaluate_resource_budget
evaluate_resource_budget-Budgeted tables signing p algorithms overhead overrides h =
    let (_, _, h1) = >>=-eq-ok (check_policy p) _ h in
    let (extra, _, h2) = >>=-eq-ok (overhead_of tables overhead) _ h1 in
    let (_, h3) =
      >>-eq-ok (not (length signing.input_script_types == signing.input_count)) _ _ h2 in
    let (s, _, h4) =
      >>=-eq-ok
        (weigh_inputs overrides 0 (unweighed signing.minimum_unsigned_vsize)
          signing.input_script_types)
        _ h3 in
    let (pq, _, h5) = >>=-eq-ok (pq_bytes tables algorithms) _ h4 in
    subst (Budgeted p) (ok-injective h5) (report-Budgeted tables p signing s pq extra)
