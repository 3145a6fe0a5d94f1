-- ===== src/ResourceBudget.antt =====
-- resource_budget.py: the size budgets of a signing package. Of the PSBT and its audit the model takes
-- what the code reads: the number of inputs, their script types and the unsigned size.
pub mod Limits
use sara_pro.Prelude.{
  ℕ, zero, suc, ◌+◌, ◌*◌, ◌/◌, List, [], ◌∷◌, ◌++◌, Option, none, some, Bool, true, false, ◌&&◌,
  ◌||◌, not, length, leb, ltb, ◌==◌, if◌then◌else◌, Result, ok, err, ◌>>=◌, ◌>>◌, raise_if, map_err,
}
use sara_pro.Prelude.Int.{ℤ, pos, negsuc}
use sara_pro.Bytes.{Bytes, Text, text, text_eq, text_in, CaseTables, is_empty}
use sara_pro.CryptoAgility.Registry.{
  AgilityError, AlgorithmSpec, normalize_algorithm_id, algorithm_spec,
}
use sara_pro.CryptoAgility.{at_most_int, is_classical}

-- A ResourceBudgetError by its message; `agility` is a CryptoAgilityError.
pub data BudgetError : Type 0 where
  not_positive negative_overhead missing_script_types bad_override : BudgetError
  agility : AgilityError → BudgetError

pub record ResourceBudgetPolicy : Type 0 where
  pub max_psbt_bytes : ℤ
  pub max_unsigned_vsize : ℤ
  pub max_projected_signed_vsize : ℤ
  pub max_projected_weight_wu : ℤ
  pub max_detached_pq_signature_bytes : ℤ
  pub max_total_authorization_bytes : ℤ
  pub allow_unknown_input_weight : Bool

-- `value <= 0`
abbrev pub is_not_positive : ℤ → Bool
is_not_positive (pos zero) = true
is_not_positive (pos (suc n)) = false
is_not_positive (negsuc n) = true

-- `canonical_dict`, as far as what it refuses.
unfoldable pub check_policy : ResourceBudgetPolicy → Result BudgetError (Unit {0})
check_policy p = do
  raise_if (is_not_positive p.max_psbt_bytes) not_positive
  raise_if (is_not_positive p.max_unsigned_vsize) not_positive
  raise_if (is_not_positive p.max_projected_signed_vsize) not_positive
  raise_if (is_not_positive p.max_projected_weight_wu) not_positive
  raise_if (is_not_positive p.max_detached_pq_signature_bytes) not_positive
  raise_if (is_not_positive p.max_total_authorization_bytes) not_positive

pub record ResourceBudgetReport : Type 0 where
  pub psbt_bytes : ℕ
  pub unsigned_vsize : ℕ
  pub projected_signed_weight_wu : ℕ
  pub projected_signed_vsize : ℕ
  pub projected_detached_pq_signature_bytes : ℕ
  pub projected_authorization_bytes : ℕ
  pub input_script_types : List Text
  pub unknown_weight_input_indexes : List ℕ
  pub limits_exceeded : List Text
  pub satisfied : Bool

-- `_INPUT_INCREMENTAL_WEIGHT.get(script_type)`
unfoldable pub incremental_weight : Text → Option ℕ
incremental_weight t =
    if text_eq t (text "P2WPKH")
    then some 109
    else if text_eq t (text "P2TR")
    then some 67
    else if text_eq t (text "P2PKH")
    then some 432
    else if text_eq t (text "P2PK")
    then some 296
    else none

abbrev pub segwit_types : List Text
segwit_types = text "P2WPKH" ∷ text "P2WSH" ∷ text "P2TR" ∷ []

-- `overrides.get(index)`
unfoldable pub override_at : ℕ → List (ℕ × ℤ) → Option ℤ
override_at index [] = none
override_at index ((i, w) ∷ l) = if i == index then some w else override_at index l

-- The variables of the loop over the inputs.
pub record Weighing : Type 0 where
  pub weight : ℕ
  pub unknown : List ℕ
  pub any_segwit : Bool

abbrev pub unweighed : ℕ → Weighing
unweighed base_bytes = record { weight = base_bytes * 4; unknown = []; any_segwit = false }

-- The increment of an input; `none` for one of unknown weight.
unfoldable pub weight_of : Option ℕ → Option ℤ → Result BudgetError (Option ℕ)
weight_of (some w) o = ok (some w)
weight_of none none = ok none
weight_of none (some (pos (suc n))) = ok (some (suc n))
weight_of none (some (pos zero)) = err bad_override
weight_of none (some (negsuc n)) = err bad_override

abbrev pub weighed : Weighing → ℕ → Bool → Option ℕ → Weighing
weighed s index segwit none = record {
  weight = s.weight;
  unknown = s.unknown ++ index ∷ [];
  any_segwit = segwit;
}
weighed s index segwit (some w) = record {
  weight = s.weight + w;
  unknown = s.unknown;
  any_segwit = segwit;
}

unfoldable pub weigh_inputs : List (ℕ × ℤ) → ℕ → Weighing → List Text → Result BudgetError Weighing
weigh_inputs overrides index s [] = ok s
weigh_inputs overrides index s (t ∷ l) = do
  inc ← weight_of (incremental_weight t) (override_at index overrides)
  weigh_inputs overrides (suc index) (weighed s index (s.any_segwit || text_in t segwit_types) inc)
      l

-- What the code reads of `raw_psbt`, `psbt` and `audit`.
pub record Package : Type 0 where
  pub raw_length : ℕ
  pub input_count : ℕ
  pub input_script_types : List Text
  pub minimum_unsigned_vsize : ℕ

abbrev pub exceeds : Bool → Text → List Text → List Text
exceeds within name rest = if within then rest else name ∷ rest

module _ (tables : CaseTables) where
  -- The loop over the detached algorithms.
  unfoldable pub pq_bytes : List Text → Result BudgetError ℕ
  pq_bytes [] = ok 0
  pq_bytes (a ∷ l) = do
    id ← map_err agility (normalize_algorithm_id tables a)
    spec ← map_err agility (algorithm_spec tables id)
    rest ← pq_bytes l
    ok (if is_classical spec.family then rest else spec.signature_bytes + rest)

  -- The list `exceeded`.
  abbrev pub exceeded_of : ResourceBudgetPolicy → ℕ → ℕ → ℕ → ℕ → ℕ → ℕ → List ℕ → List Text
  exceeded_of p raw base weight vsize pq auth unknown =
      exceeds (at_most_int raw p.max_psbt_bytes) (text "PSBT_BYTES") (
        exceeds (at_most_int base p.max_unsigned_vsize) (text "UNSIGNED_VSIZE") (
          exceeds (at_most_int weight p.max_projected_weight_wu) (text "PROJECTED_SIGNED_WEIGHT") (
            exceeds (at_most_int vsize p.max_projected_signed_vsize) (text "PROJECTED_SIGNED_VSIZE")
              (exceeds (at_most_int pq p.max_detached_pq_signature_bytes)
                (text "DETACHED_PQ_SIGNATURE_BYTES")
                (exceeds (at_most_int auth p.max_total_authorization_bytes)
                  (text "TOTAL_AUTHORIZATION_BYTES")
                  (exceeds (is_empty unknown || p.allow_unknown_input_weight)
                    (text "UNKNOWN_INPUT_WEIGHT") []))))))

  abbrev pub total_weight : Weighing → ℕ
  total_weight s = if s.any_segwit then s.weight + 2 else s.weight

  abbrev pub report_of : ResourceBudgetPolicy → Package → Weighing → ℕ → ℕ → ResourceBudgetReport
  report_of p signing s pq overhead =
      let weight = total_weight s in
      let vsize = (weight + 3) / 4 in
      let exceeded =
        exceeded_of p signing.raw_length signing.minimum_unsigned_vsize weight vsize pq
          (pq + overhead) s.unknown in
      record {
        psbt_bytes = signing.raw_length;
        unsigned_vsize = signing.minimum_unsigned_vsize;
        projected_signed_weight_wu = weight;
        projected_signed_vsize = vsize;
        projected_detached_pq_signature_bytes = pq;
        projected_authorization_bytes = pq + overhead;
        input_script_types = signing.input_script_types;
        unknown_weight_input_indexes = s.unknown;
        limits_exceeded = exceeded;
        satisfied = is_empty exceeded;
      }

  -- `authorization_overhead_bytes`, which must not be negative
  abbrev pub overhead_of : ℤ → Result BudgetError ℕ
  overhead_of (pos n) = ok n
  overhead_of (negsuc n) = err negative_overhead

  -- `evaluate_resource_budget`
  unfoldable pub evaluate_resource_budget :
      Package
      → ResourceBudgetPolicy
      → List Text
      → ℤ
      → List (ℕ × ℤ)
      → Result BudgetError ResourceBudgetReport
  evaluate_resource_budget signing policy algorithms overhead_bytes overrides = do
    check_policy policy
    overhead ← overhead_of overhead_bytes
    raise_if (not (length signing.input_script_types == signing.input_count)) missing_script_types
    s ←
        weigh_inputs overrides 0 (unweighed signing.minimum_unsigned_vsize)
          signing.input_script_types
    pq ← pq_bytes algorithms
    ok (report_of policy signing s pq overhead)
