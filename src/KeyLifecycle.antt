-- ===== src/KeyLifecycle.antt =====
-- key_lifecycle.py: key records, the registry with its rotation chains, and the authorization of a key.
-- Times are read and printed by parameters (`Clock`); instants are numbers.
pub mod Authorize
pub mod Distinct
use sara_pro.Prelude.{
  ℕ, ◌≡◌, List, [], ◌∷◌, ◌++◌, Option, none, some, Bool, true, false, ◌&&◌, ◌||◌, not, length, ltb,
  leb, ◌==◌, if◌then◌else◌, Result, ok, err, ◌>>=◌, ◌>>◌, raise_if, or_raise, map_err, fold_result,
}
use sara_pro.Bytes.{Text, text, text_eq, text_in, lower, CaseTables, is_empty}
use sara_pro.CryptoAgility.Registry.{AgilityError, normalize_algorithm_id}
use sara_pro.EmergencyState.{all_lower_hex}

pub data KeyState : Type 0 where
  active deprecated revoked : KeyState

-- A KeyLifecycleError by its message; `agility` is a CryptoAgilityError or its message.
pub data LifecycleError : Type 0 where
  bad_provider bad_fingerprint bad_generation bad_time empty_interval bad_predecessor
        own_predecessor :
      LifecycleError
  duplicate_fingerprint duplicate_generation broken_rotation not_unique algorithm_mismatch :
      LifecycleError
  key_revoked key_deprecated not_active_yet key_expired below_floor older_generation :
      LifecycleError
  agility : AgilityError → LifecycleError

pub record KeyRecord : Type 0 where
  pub provider_id : Text
  pub key_fingerprint_sha256 : Text
  pub algorithm_id : Text
  pub generation : ℕ
  pub state : KeyState
  pub not_before : Text
  pub not_after : Option Text
  pub predecessor_fingerprint_sha256 : Option Text

-- The dictionary of `canonical_dict`.
pub record CanonicalKey : Type 0 where
  pub provider_id : Text
  pub fingerprint : Text
  pub algorithm_id : Text
  pub generation : ℕ
  pub state : KeyState
  pub not_before : Text
  pub not_after : Option Text
  pub predecessor : Option Text

-- `_time` (`none` raises), and the printing of an instant with `Z`.
pub record Clock : Type 0 where
  pub tables : CaseTables
  pub parse_time : Text → Option ℕ
  pub iso : ℕ → Text

-- `not (len(t) == 64 and all(c in "0123456789abcdef" ...))`
abbrev pub not_hex32 : Text → Bool
not_hex32 t = not (length t == 64) || not (all_lower_hex t)

-- `x` if it is given and not empty
abbrev pub given : Option Text → Option Text
given none = none
given (some t) = if is_empty t then none else some t

abbrev pub is_before_start : ℕ → Option ℕ → Bool
is_before_start start none = false
is_before_start start (some end_at) = leb end_at start

abbrev pub map_option : {A B : Type 0} → (A → B) → Option A → Option B
map_option f none = none
map_option f (some a) = some (f a)

-- `pred == fp` of two optional texts
abbrev pub same_option : Option Text → Text → Bool
same_option none t = false
same_option (some s) t = text_eq s t

module _ (clock : Clock) where
  abbrev pub time : Text → Result LifecycleError ℕ
  time t = or_raise (clock.parse_time t) bad_time

  abbrev pub optional_time : Option Text → Result LifecycleError (Option ℕ)
  optional_time none = ok none
  optional_time (some t) = do n ← time t; ok (some n)

  unfoldable pub check_predecessor : Option Text → Text → Result LifecycleError (Option Text)
  check_predecessor none fp = ok none
  check_predecessor (some p) fp = do
    let pred = lower clock.tables p
    raise_if (not_hex32 pred) bad_predecessor
    raise_if (text_eq pred fp) own_predecessor
    ok (some pred)

  -- `KeyRecord.canonical_dict`
  unfoldable pub canonical_key : KeyRecord → Result LifecycleError CanonicalKey
  canonical_key r = do
    raise_if (is_empty r.provider_id || ltb 128 (length r.provider_id)) bad_provider
    let fp = lower clock.tables r.key_fingerprint_sha256
    raise_if (not_hex32 fp) bad_fingerprint
    alg ← map_err agility (normalize_algorithm_id clock.tables r.algorithm_id)
    raise_if (ltb r.generation 1) bad_generation
    start ← time r.not_before
    end_at ← optional_time (given r.not_after)
    raise_if (is_before_start start end_at) empty_interval
    pred ← check_predecessor r.predecessor_fingerprint_sha256 fp
    ok (record {
      provider_id = r.provider_id;
      fingerprint = fp;
      algorithm_id = alg;
      generation = r.generation;
      state = r.state;
      not_before = clock.iso start;
      not_after = map_option clock.iso end_at;
      predecessor = pred;
    })

  -- The entries of `by_provider_alg`, in the order of their first record.
  abbrev pub Groups : Type 0
  Groups = List (Text × Text × List KeyRecord)

  -- `by_provider_alg.setdefault(key, []).append(record)`
  unfoldable pub add_to_group : Text → Text → KeyRecord → Groups → Groups
  add_to_group p a r [] = (p, a, r ∷ []) ∷ []
  add_to_group p a r ((q, b, rows) ∷ l) =
      let rest = add_to_group p a r l in
      if text_eq q p && text_eq b a then (q, b, rows ++ r ∷ []) ∷ l else (q, b, rows) ∷ rest

  -- The variables of the first loop of `__post_init__`.
  pub record Registering : Type 0 where
    pub seen_fp : List Text
    pub groups : Groups

  unfoldable pub register : Registering → KeyRecord → Result LifecycleError Registering
  register s r = do
    d ← canonical_key r
    raise_if (text_in d.fingerprint s.seen_fp) duplicate_fingerprint
    ok (record {
      seen_fp = d.fingerprint ∷ s.seen_fp;
      groups = add_to_group d.provider_id d.algorithm_id r s.groups;
    })

  unfoldable pub has_generation : ℕ → List KeyRecord → Bool
  has_generation n [] = false
  has_generation n (r ∷ l) = r.generation == n || has_generation n l

  unfoldable pub repeats_generation : List KeyRecord → Bool
  repeats_generation [] = false
  repeats_generation (r ∷ l) = has_generation r.generation l || repeats_generation l

  -- `sorted(rows, key=lambda r: r.generation)`
  unfoldable pub insert_generation : KeyRecord → List KeyRecord → List KeyRecord
  insert_generation r [] = r ∷ []
  insert_generation r (s ∷ l) =
      let rest = insert_generation r l in
      if ltb s.generation r.generation then s ∷ rest else r ∷ s ∷ l

  unfoldable pub sort_generations : List KeyRecord → List KeyRecord
  sort_generations [] = []
  sort_generations (r ∷ l) = insert_generation r (sort_generations l)

  -- Each record names the fingerprint of the one before it.
  unfoldable pub check_rotation : List KeyRecord → Result LifecycleError (Unit {0})
  check_rotation [] = ok tt
  check_rotation (r ∷ []) = ok tt
  check_rotation (prev ∷ r ∷ l) = do
    d ← canonical_key r
    p ← canonical_key prev
    raise_if (not (same_option d.predecessor p.fingerprint)) broken_rotation
    check_rotation (r ∷ l)

  unfoldable pub check_groups : Groups → Result LifecycleError (Unit {0})
  check_groups [] = ok tt
  check_groups ((p, a, rows) ∷ l) = do
    raise_if (repeats_generation rows) duplicate_generation
    check_rotation (sort_generations rows)
    check_groups l

  -- `KeyRegistry.__post_init__`
  unfoldable pub post_init : List KeyRecord → Result LifecycleError (Unit {0})
  post_init records = do
    s ← fold_result register (record { seen_fp = []; groups = [] }) records
    check_groups s.groups

  -- The matches of `lookup`.
  unfoldable pub matches : Text → Text → List KeyRecord → Result LifecycleError (List KeyRecord)
  matches provider fp [] = ok []
  matches provider fp (r ∷ l) = do
    here ←
        (if text_eq r.provider_id provider
          then (canonical_key r >>= λ d. ok (text_eq d.fingerprint fp))
          else ok false)
    rest ← matches provider fp l
    ok (if here then r ∷ rest else rest)

  abbrev pub single : List KeyRecord → Result LifecycleError KeyRecord
  single (r ∷ []) = ok r
  single _ = err not_unique

  unfoldable pub lookup : Text → Text → List KeyRecord → Result LifecycleError KeyRecord
  lookup provider fingerprint records = do
    found ← matches provider (lower clock.tables fingerprint) records
    single found

  -- `not r.not_after or current < _time(r.not_after)`
  unfoldable pub is_unexpired : ℕ → Option Text → Result LifecycleError Bool
  is_unexpired now none = ok true
  is_unexpired now (some t) = do n ← time t; ok (ltb now n)

  abbrev pub is_active : KeyState → Bool
  is_active active = true
  is_active _ = false

  -- Whether `r` has begun and has not ended.
  unfoldable pub is_live : ℕ → KeyRecord → Result LifecycleError Bool
  is_live now r = do
    start ← time r.not_before
    if ltb now start then ok false else is_unexpired now (given r.not_after)

  -- Whether `r`, of the same provider, is a live successor for the algorithm.
  unfoldable pub is_successor : ℕ → KeyRecord → Text → KeyRecord → Result LifecycleError Bool
  is_successor now mine alg r = do
    a ← map_err agility (normalize_algorithm_id clock.tables r.algorithm_id)
    if text_eq a alg && (ltb mine.generation r.generation && is_active r.state)
        then is_live now r
        else ok false

  -- Whether `r` is in `newer_active`, for the record and its algorithm.
  unfoldable pub is_newer : ℕ → KeyRecord → Text → KeyRecord → Result LifecycleError Bool
  is_newer now mine alg r =
      if text_eq r.provider_id mine.provider_id then is_successor now mine alg r else ok false

  unfoldable pub any_newer : ℕ → KeyRecord → Text → List KeyRecord → Result LifecycleError Bool
  any_newer now mine alg [] = ok false
  any_newer now mine alg (r ∷ l) = do
    here ← is_newer now mine alg r
    rest ← any_newer now mine alg l
    ok (here || rest)

  pub record KeyRequest : Type 0 where
    pub provider_id : Text
    pub fingerprint_sha256 : Text
    pub algorithm_id : Text
    pub now : ℕ
    pub allow_deprecated : Bool
    pub minimum_generation : Option ℕ

  abbrev pub is_revoked : KeyState → Bool
  is_revoked revoked = true
  is_revoked _ = false

  abbrev pub is_deprecated : KeyState → Bool
  is_deprecated deprecated = true
  is_deprecated _ = false

  abbrev pub is_below : ℕ → Option ℕ → Bool
  is_below generation none = false
  is_below generation (some floor) = ltb generation floor

  -- `KeyRegistry.authorize_key`; the answer is the authorized record.
  unfoldable pub authorize_key : KeyRequest → List KeyRecord → Result LifecycleError KeyRecord
  authorize_key q records = do
    mine ← lookup q.provider_id q.fingerprint_sha256 records
    d ← canonical_key mine
    alg ← map_err agility (normalize_algorithm_id clock.tables q.algorithm_id)
    raise_if (not (text_eq d.algorithm_id alg)) algorithm_mismatch
    raise_if (is_revoked mine.state) key_revoked
    raise_if (is_deprecated mine.state && not q.allow_deprecated) key_deprecated
    start ← time mine.not_before
    raise_if (ltb q.now start) not_active_yet
    fresh ← is_unexpired q.now (given mine.not_after)
    raise_if (not fresh) key_expired
    raise_if (is_below mine.generation q.minimum_generation) below_floor
    newer ← any_newer q.now mine alg records
    raise_if newer older_generation
    ok mine
