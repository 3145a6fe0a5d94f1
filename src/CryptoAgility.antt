-- ===== src/CryptoAgility.antt =====
-- crypto_agility.py: the registry of signature algorithms and the policy on a set of them. The SHA-256 of
-- a policy's canonical JSON is a parameter (`digest`).
pub mod Registry
pub mod Normal
pub mod Satisfied
use sara_pro.Prelude.{
  ℕ, ◌+◌, ◌≡◌, List, [], ◌∷◌, ◌++◌, map, Option, none, some, Bool, true, false, ◌&&◌, ◌||◌, not,
  length, ltb, leb, if◌then◌else◌, Result, ok, err, ◌>>=◌, ◌>>◌, raise_if, fold_result,
}
use sara_pro.Prelude.Int.{ℤ, pos, negsuc}
use sara_pro.Bytes.{
  Text, text, text_eq, text_in, CaseTables, is_empty, sort_texts, sorted_set, without,
}
use sara_pro.CryptoAgility.Registry.{
  AgilityError, bad_category, bad_attestations, bad_max_bytes, bad_fault_domains, AlgorithmFamily,
  classical_ecc, family_text, AlgorithmState, approved, deprecated, blocked, AlgorithmSpec,
  normalize_algorithm_id, algorithm_spec,
}

-- `n < z`, `n <= z`
abbrev pub below_int : ℕ → ℤ → Bool
below_int n (pos m) = ltb n m
below_int n (negsuc m) = false

abbrev pub at_most_int : ℕ → ℤ → Bool
at_most_int n (pos m) = leb n m
at_most_int n (negsuc m) = false

pub record CryptoAgilityPolicy : Type 0 where
  pub minimum_security_category : ℤ
  pub minimum_pq_attestations : ℤ
  pub required_pq_families : List AlgorithmFamily
  pub required_algorithms : List Text
  pub blocked_algorithms : List Text
  pub allow_deprecated : Bool
  pub max_detached_signature_bytes : ℤ
  pub minimum_provider_fault_domains : ℤ

-- The lists of `canonical_dict()`; its other entries are the policy's fields.
pub record CanonicalPolicy : Type 0 where
  pub required_pq_families : List Text
  pub required_algorithms : List Text
  pub blocked_algorithms : List Text

pub record CryptoAgilityReport : Type 0 where
  pub selected_algorithms : List Text
  pub pq_algorithms : List Text
  pub pq_families : List Text
  pub detached_signature_bytes : ℕ
  pub missing_families : List Text
  pub missing_algorithms : List Text
  pub blocked_selected : List Text
  pub below_security_floor : List Text
  pub satisfied : Bool
  pub policy_sha256 : Text

-- The variables of the loop.
pub record Scan : Type 0 where
  pub pq_specs : List AlgorithmSpec
  pub blocked : List Text
  pub below : List Text
  pub detached_bytes : ℕ

abbrev pub no_scan : Scan
no_scan = record { pq_specs = []; blocked = []; below = []; detached_bytes = 0 }

abbrev pub is_classical : AlgorithmFamily → Bool
is_classical classical_ecc = true
is_classical _ = false

-- `state == BLOCKED or (state == DEPRECATED and not allow_deprecated)`
abbrev pub state_blocks : AlgorithmState → Bool → Bool
state_blocks approved allow = false
state_blocks deprecated allow = not allow
state_blocks blocked allow = true

-- `overrides.get(alg, default)` of a dict comprehension, in which the last of equal keys stays
unfoldable pub last_override : Text → List (Text × AlgorithmState) → AlgorithmState → AlgorithmState
last_override alg [] default = default
last_override alg ((k, v) ∷ l) default = last_override alg l (if text_eq k alg then v else default)

module _ (tables : CaseTables) where
  unfoldable pub normalize_all : List Text → Result AgilityError (List Text)
  normalize_all [] = ok []
  normalize_all (a ∷ l) = do
    n ← normalize_algorithm_id tables a
    rest ← normalize_all l
    ok (n ∷ rest)

  unfoldable pub normalize_keys :
      List (Text × AlgorithmState) → Result AgilityError (List (Text × AlgorithmState))
  normalize_keys [] = ok []
  normalize_keys ((k, v) ∷ l) = do
    n ← normalize_algorithm_id tables k
    rest ← normalize_keys l
    ok ((n, v) ∷ rest)

  unfoldable pub canonical_dict : CryptoAgilityPolicy → Result AgilityError CanonicalPolicy
  canonical_dict p = do
    raise_if
        (not (below_int 0 p.minimum_security_category) || below_int 5 p.minimum_security_category)
        bad_category
    raise_if (not (at_most_int 0 p.minimum_pq_attestations)) bad_attestations
    raise_if (not (below_int 0 p.max_detached_signature_bytes)) bad_max_bytes
    raise_if (not (at_most_int 0 p.minimum_provider_fault_domains)) bad_fault_domains
    required ← normalize_all p.required_algorithms
    blocked_ids ← normalize_all p.blocked_algorithms
    ok (record {
      required_pq_families = sort_texts (map family_text p.required_pq_families);
      required_algorithms = sort_texts required;
      blocked_algorithms = sort_texts blocked_ids;
    })

  module _ (policy : CryptoAgilityPolicy) (overrides : List (Text × AlgorithmState))
      (blocked_policy : List Text) where
    -- The test of the loop that puts an algorithm on the list of blocked ones.
    abbrev pub is_blocked : Text → AlgorithmSpec → Bool
    is_blocked alg spec =
        text_in alg blocked_policy
        || state_blocks (last_override alg overrides spec.state) policy.allow_deprecated

    abbrev pub scanned : Scan → Text → AlgorithmSpec → Scan
    scanned s alg spec = record {
      pq_specs = if is_classical spec.family then s.pq_specs else s.pq_specs ++ spec ∷ [];
      blocked = if is_blocked alg spec then s.blocked ++ alg ∷ [] else s.blocked;
      below =
          if not (is_classical spec.family)
            && below_int spec.security_category policy.minimum_security_category
          then s.below ++ alg ∷ []
          else s.below;
      detached_bytes =
          if is_classical spec.family
          then s.detached_bytes
          else s.detached_bytes + spec.signature_bytes;
    }

    unfoldable pub scan_algorithm : Scan → Text → Result AgilityError Scan
    scan_algorithm s alg = do spec ← algorithm_spec tables alg; ok (scanned s alg spec)

  abbrev pub report_of :
      CryptoAgilityPolicy → Text → List Text → List Text → Scan → CryptoAgilityReport
  report_of policy digest canonical required_algs s =
      let present = map (λ spec. family_text spec.family) s.pq_specs in
      let missing_families =
        sorted_set (without (map family_text policy.required_pq_families) present) in
      let missing_algs = sorted_set (without required_algs canonical) in
      record {
        selected_algorithms = canonical;
        pq_algorithms = map (λ spec. spec.algorithm_id) s.pq_specs;
        pq_families = sorted_set present;
        detached_signature_bytes = s.detached_bytes;
        missing_families = missing_families;
        missing_algorithms = missing_algs;
        blocked_selected = sort_texts s.blocked;
        below_security_floor = sort_texts s.below;
        satisfied =
            not (below_int (length s.pq_specs) policy.minimum_pq_attestations)
            && (is_empty missing_families
                && (is_empty missing_algs
                    && (is_empty s.blocked
                        && (is_empty s.below
                            && at_most_int s.detached_bytes policy.max_detached_signature_bytes))));
        policy_sha256 = digest;
      }

  unfoldable pub evaluate_algorithm_set :
      (CryptoAgilityPolicy → CanonicalPolicy → Text)
      → List Text
      → CryptoAgilityPolicy
      → List (Text × AlgorithmState)
      → Result AgilityError CryptoAgilityReport
  evaluate_algorithm_set digest selected policy lifecycle_overrides = do
    canonical ← normalize_all selected
    overrides ← normalize_keys lifecycle_overrides
    dict ← canonical_dict policy
    s ← fold_result (scan_algorithm policy overrides dict.blocked_algorithms) no_scan canonical
    required_algs ← normalize_all policy.required_algorithms
    ok (report_of policy (digest policy dict) canonical required_algs s)
