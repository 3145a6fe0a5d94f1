-- ===== src/Tests/Algorithms.antt =====
-- A selection of two algorithms under a policy that one of them satisfies.
use sara_pro.Prelude.{◌≡◌, refl, List, [], ◌∷◌, true, ok, fold_result}
use sara_pro.Prelude.Int.{pos}
use sara_pro.Bytes.{
  Text, text, text_eq, text_in, text_ltb, strip, strip_left, is_space, upper, sort_texts,
  insert_text, sorted_set, insert_sorted, without,
}
use sara_pro.CryptoAgility.Registry.{
  AlgorithmSpec, lattice, deprecated, AlgorithmState, family_text, find_alias, find_spec,
  find_upper, known_id, underscores_to_dashes, normalize_algorithm_id, algorithm_spec,
}
use sara_pro.CryptoAgility.{
  CryptoAgilityPolicy, CryptoAgilityReport, last_override, normalize_all, normalize_keys,
  canonical_dict, scan_algorithm, evaluate_algorithm_set,
}
use sara_pro.CryptoAgility.Normal.{normalize_algorithm_id-normal}
use sara_pro.CryptoAgility.Satisfied.{Fulfilled, evaluate_algorithm_set-Fulfilled}
use sara_pro.Tests.{ascii}

normalized :
    normalize_algorithm_id ascii (text " slh_dsa_sha2_128S ") ≡ ok (text "SLH-DSA-SHA2-128s")
unfolding normalize_algorithm_id find_alias known_id find_upper underscores_to_dashes strip
    strip_left is_space upper text_eq
normalized = refl

normalize_algorithm_id-normal_example :
    (normalize_algorithm_id ascii (text "SLH-DSA-SHA2-128s") ≡ ok (text "SLH-DSA-SHA2-128s"))
    × ((spec : AlgorithmSpec) × (algorithm_spec ascii (text " slh_dsa_sha2_128S ") ≡ ok spec)
        × (algorithm_spec ascii (text "SLH-DSA-SHA2-128s") ≡ ok spec))
normalize_algorithm_id-normal_example =
    normalize_algorithm_id-normal ascii (text " slh_dsa_sha2_128S ") normalized

abbrev policy : CryptoAgilityPolicy
policy = record {
  minimum_security_category = pos 2;
  minimum_pq_attestations = pos 1;
  required_pq_families = lattice ∷ [];
  required_algorithms = text "ML_DSA_44" ∷ [];
  blocked_algorithms = text "ml-dsa-87" ∷ [];
  allow_deprecated = true;
  max_detached_signature_bytes = pos 65536;
  minimum_provider_fault_domains = pos 1;
}

abbrev selected : List Text
selected = text "ml-dsa-44" ∷ text "ed25519" ∷ []

abbrev overrides : List (Text × AlgorithmState)
overrides = (text "ML-DSA-44", deprecated) ∷ []

abbrev report : CryptoAgilityReport
report = record {
  selected_algorithms = text "ML-DSA-44" ∷ text "ED25519" ∷ [];
  pq_algorithms = text "ML-DSA-44" ∷ [];
  pq_families = text "LATTICE" ∷ [];
  detached_signature_bytes = 2420;
  missing_families = [];
  missing_algorithms = [];
  blocked_selected = [];
  below_security_floor = [];
  satisfied = true;
  policy_sha256 = text "digest";
}

evaluated :
    evaluate_algorithm_set ascii (λ p d. text "digest") selected policy overrides ≡ ok report
unfolding evaluate_algorithm_set normalize_all normalize_keys canonical_dict scan_algorithm
    fold_result algorithm_spec find_spec last_override family_text normalize_algorithm_id find_alias
    known_id find_upper underscores_to_dashes strip strip_left is_space upper text_eq text_in
    text_ltb sort_texts insert_text sorted_set insert_sorted without
evaluated = refl

evaluate_algorithm_set-Fulfilled_example : Fulfilled ascii selected policy overrides
evaluate_algorithm_set-Fulfilled_example =
    evaluate_algorithm_set-Fulfilled ascii (λ p d. text "digest") selected policy overrides
      evaluated refl
