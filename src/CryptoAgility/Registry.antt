-- ===== src/CryptoAgility/Registry.antt =====
-- The algorithms of `_STANDARD_ALGORITHMS` and the normal form of their identifiers.
use sara_pro.Prelude.{
  ℕ, List, [], ◌∷◌, Option, none, some, Bool, true, false, ◌==◌, if◌then◌else◌, Result, ◌>>=◌, ◌>>◌,
  raise_if, or_raise,
}
use sara_pro.Bytes.{Text, text, text_eq, strip, upper, CaseTables, is_empty}

-- A CryptoAgilityError by its message; `key_error` is Python's KeyError.
pub data AgilityError : Type 0 where
  id_required not_in_registry key_error : AgilityError
  bad_category bad_attestations bad_max_bytes bad_fault_domains : AgilityError

pub data AlgorithmFamily : Type 0 where
  classical_ecc lattice hash_based : AlgorithmFamily

unfoldable pub family_text : AlgorithmFamily → Text
family_text classical_ecc = text "CLASSICAL_ECC"
family_text lattice = text "LATTICE"
family_text hash_based = text "HASH_BASED"

pub data AlgorithmState : Type 0 where
  approved deprecated blocked : AlgorithmState

pub record AlgorithmSpec : Type 0 where
  pub algorithm_id : Text
  pub family : AlgorithmFamily
  pub standard : Text
  pub security_category : ℕ
  pub signature_bytes : ℕ
  pub public_key_bytes : Option ℕ
  pub state : AlgorithmState
  pub detached_authorization_only : Bool

-- A post-quantum entry, which stands with the defaults of the last two fields.
abbrev pub entry : Text → AlgorithmFamily → Text → ℕ → ℕ → ℕ → AlgorithmSpec
entry id family standard category signature key = record {
  algorithm_id = id;
  family = family;
  standard = standard;
  security_category = category;
  signature_bytes = signature;
  public_key_bytes = some key;
  state = approved;
  detached_authorization_only = true;
}

abbrev pub consensus_entry : Text → Text → ℕ → ℕ → AlgorithmSpec
consensus_entry id standard signature key = record {
  algorithm_id = id;
  family = classical_ecc;
  standard = standard;
  security_category = 1;
  signature_bytes = signature;
  public_key_bytes = some key;
  state = approved;
  detached_authorization_only = false;
}

-- `_STANDARD_ALGORITHMS`
abbrev pub standard_algorithms : List AlgorithmSpec
standard_algorithms =
    entry (text "ML-DSA-44") lattice (text "FIPS 204") 2 2420 1312
    ∷ entry (text "ML-DSA-65") lattice (text "FIPS 204") 3 3309 1952
    ∷ entry (text "ML-DSA-87") lattice (text "FIPS 204") 5 4627 2592
    ∷ entry (text "SLH-DSA-SHA2-128s") hash_based (text "FIPS 205") 1 7856 32
    ∷ entry (text "SLH-DSA-SHAKE-128s") hash_based (text "FIPS 205") 1 7856 32
    ∷ entry (text "SLH-DSA-SHA2-128f") hash_based (text "FIPS 205") 1 17088 32
    ∷ entry (text "SLH-DSA-SHAKE-128f") hash_based (text "FIPS 205") 1 17088 32
    ∷ entry (text "SLH-DSA-SHA2-192s") hash_based (text "FIPS 205") 3 16224 48
    ∷ entry (text "SLH-DSA-SHAKE-192s") hash_based (text "FIPS 205") 3 16224 48
    ∷ entry (text "SLH-DSA-SHA2-256s") hash_based (text "FIPS 205") 5 29792 64
    ∷ entry (text "SLH-DSA-SHAKE-256s") hash_based (text "FIPS 205") 5 29792 64
    ∷ entry (text "ED25519") classical_ecc (text "FIPS 186-5/RFC 8032") 1 64 32
    ∷ consensus_entry (text "SECP256K1-ECDSA") (text "Bitcoin consensus") 73 33
    ∷ consensus_entry (text "SECP256K1-SCHNORR") (text "BIP 340") 64 32
    ∷ []

abbrev pub aliases : List (Text × Text)
aliases =
    (text "ML-DSA-44", text "ML-DSA-44")
    ∷ (text "ML-DSA-65", text "ML-DSA-65")
    ∷ (text "ML-DSA-87", text "ML-DSA-87")
    ∷ (text "ML-DSA-SHAKE-256/44", text "ML-DSA-44")
    ∷ (text "ML-DSA-SHAKE-256/65", text "ML-DSA-65")
    ∷ (text "ML-DSA-SHAKE-256/87", text "ML-DSA-87")
    ∷ (text "ED25519", text "ED25519")
    ∷ (text "SECP256K1-ECDSA", text "SECP256K1-ECDSA")
    ∷ (text "SECP256K1-SCHNORR", text "SECP256K1-SCHNORR")
    ∷ []

unfoldable pub find_alias : Text → List (Text × Text) → Option Text
find_alias u [] = none
find_alias u ((k, v) ∷ l) = if text_eq k u then some v else find_alias u l

unfoldable pub find_spec : Text → List AlgorithmSpec → Option AlgorithmSpec
find_spec id [] = none
find_spec id (spec ∷ l) = if text_eq spec.algorithm_id id then some spec else find_spec id l

-- `value.replace("_", "-")`
unfoldable pub underscores_to_dashes : Text → Text
underscores_to_dashes [] = []
underscores_to_dashes (c ∷ t) = (if c == 95 then 45 else c) ∷ underscores_to_dashes t

module _ (tables : CaseTables) where
  unfoldable pub find_upper : Text → List AlgorithmSpec → Option Text
  find_upper u [] = none
  find_upper u (spec ∷ l) =
      if text_eq (upper tables spec.algorithm_id) u then some spec.algorithm_id else find_upper u l

  -- The alias, or else the registered name, of an identifier in upper case.
  unfoldable pub known_id : Text → Option Text → Option Text
  known_id u (some id) = some id
  known_id u none = find_upper u standard_algorithms

  unfoldable pub normalize_algorithm_id : Text → Result AgilityError Text
  normalize_algorithm_id value = do
    raise_if (is_empty (strip value)) id_required
    let u = upper tables (underscores_to_dashes (strip value))
    or_raise (known_id u (find_alias u aliases)) not_in_registry

  unfoldable pub algorithm_spec : Text → Result AgilityError AlgorithmSpec
  algorithm_spec algorithm_id = do
    id ← normalize_algorithm_id algorithm_id
    or_raise (find_spec id standard_algorithms) key_error
