-- ===== src/Tests/Budget.antt =====
-- A package of two inputs, one of a script type without a known weight that an override weighs.
use sara_pro.Prelude.{◌≡◌, refl, [], ◌∷◌, true, false, ok}
use sara_pro.Prelude.Int.{pos}
use sara_pro.Bytes.{text, text_eq, text_in, strip, strip_left, is_space, upper}
use sara_pro.CryptoAgility.Registry.{
  find_alias, find_spec, find_upper, known_id, underscores_to_dashes, normalize_algorithm_id,
  algorithm_spec,
}
use sara_pro.ResourceBudget.{
  ResourceBudgetPolicy, check_policy, ResourceBudgetReport, incremental_weight, override_at,
  weight_of, weigh_inputs, Package, pq_bytes, evaluate_resource_budget,
}
use sara_pro.ResourceBudget.Limits.{Budgeted, evaluate_resource_budget-Budgeted}
use sara_pro.Tests.{ascii}

abbrev policy : ResourceBudgetPolicy
policy = record {
  max_psbt_bytes = pos 1000000;
  max_unsigned_vsize = pos 100000;
  max_projected_signed_vsize = pos 100000;
  max_projected_weight_wu = pos 400000;
  max_detached_pq_signature_bytes = pos 65536;
  max_total_authorization_bytes = pos 131072;
  allow_unknown_input_weight = false;
}

abbrev two_inputs : Package
two_inputs = record {
  raw_length = 300;
  input_count = 2;
  input_script_types = text "P2WPKH" ∷ text "P2WSH" ∷ [];
  minimum_unsigned_vsize = 120;
}

abbrev report : ResourceBudgetReport
report = record {
  psbt_bytes = 300;
  unsigned_vsize = 120;
  projected_signed_weight_wu = 791;
  projected_signed_vsize = 198;
  projected_detached_pq_signature_bytes = 3309;
  projected_authorization_bytes = 7405;
  input_script_types = text "P2WPKH" ∷ text "P2WSH" ∷ [];
  unknown_weight_input_indexes = [];
  limits_exceeded = [];
  satisfied = true;
}

evaluated :
    evaluate_resource_budget ascii two_inputs policy
      (text "ML-DSA-65" ∷ text "ED25519" ∷ [])
      (pos 4096)
      ((1, pos 200) ∷ [])
    ≡ ok report
unfolding evaluate_resource_budget check_policy weigh_inputs weight_of incremental_weight
    override_at pq_bytes text_eq text_in normalize_algorithm_id algorithm_spec find_spec find_alias
    known_id find_upper underscores_to_dashes strip strip_left is_space upper
evaluated = refl

evaluate_resource_budget-Budgeted_example : Budgeted policy report
evaluate_resource_budget-Budgeted_example =
    evaluate_resource_budget-Budgeted ascii two_inputs policy
      (text "ML-DSA-65" ∷ text "ED25519" ∷ []) (pos 4096) ((1, pos 200) ∷ []) evaluated
