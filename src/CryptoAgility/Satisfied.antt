-- ===== src/CryptoAgility/Satisfied.antt =====
-- What a satisfied report of `evaluate_algorithm_set` guarantees of the selected algorithms.
use sara_pro.Prelude.{
  both_true, either_false, ◌⊎◌, inl, inr, ℕ, ◌+◌, ◌≡◌, refl, sym, ap, ◌∙◌, subst, List, [], ◌∷◌,
  ◌++◌, append_assoc, append-nil, map, Bool, true, false, ◌&&◌, ◌||◌, not, arith, All, length,
  if◌then◌else◌, ok, fold_result, >>=-eq-ok, >>-eq-ok, ok-injective,
}
use sara_pro.Bytes.{
  Text, text_in, CaseTables, is_empty, sort_texts, sorted_set-empty, without-empty,
}
use sara_pro.CryptoAgility.Registry.{
  family_text, AlgorithmState, approved, deprecated, blocked, AlgorithmSpec, algorithm_spec,
}
use sara_pro.CryptoAgility.{
  below_int, at_most_int, CryptoAgilityPolicy, CanonicalPolicy, CryptoAgilityReport, Scan, no_scan,
  state_blocks, last_override, is_classical, normalize_all, normalize_keys, canonical_dict,
  is_blocked, scanned, scan_algorithm, report_of, evaluate_algorithm_set,
}

-- The post-quantum entries among some registry entries, and the bytes of their signatures.
unfoldable pub pq_entries : List AlgorithmSpec → List AlgorithmSpec
pq_entries [] = []
pq_entries (s ∷ l) = let rest = pq_entries l in if is_classical s.family then rest else s ∷ rest

unfoldable pub signature_total : List AlgorithmSpec → ℕ
signature_total [] = 0
signature_total (s ∷ l) = s.signature_bytes + signature_total l

nonempty-append : {A : Type 0} (l : List A) (a : A) → is_empty (l ++ a ∷ []) ≡ false
nonempty-append [] a = refl
nonempty-append (_ ∷ _) a = refl

-- If a list that may have been appended to is empty, it was not.
unappended :
    {A : Type 0} (b : Bool) (l : List A) (a : A)
    → is_empty (if b then l ++ a ∷ [] else l) ≡ true
    → (b ≡ false) × (is_empty l ≡ true)
unappended true l a h = absurd (cc (h, nonempty-append l a))
unappended false l a h = (refl, h)

not_both : (a b : Bool) → (not a && b) ≡ false → a ≡ false → b ≡ false
not_both a b h e = (rw e at h)

module _ (tables : CaseTables) (policy : CryptoAgilityPolicy)
    (overrides : List (Text × AlgorithmState)) (blocked_policy : List Text) where
  -- The algorithm has the registry entry, does not stand on the policy's list of blocked ones, is by its
  -- lifecycle state approved, or deprecated where the policy allows that, and is not below the security
  -- floor if it is post-quantum.
  pub record Admitted (alg : Text) (spec : AlgorithmSpec) : Type 0 where
    pub registered : algorithm_spec tables alg ≡ ok spec
    pub unlisted : text_in alg blocked_policy ≡ false
    pub live :
        (last_override alg overrides spec.state ≡ approved)
        ⊎ ((last_override alg overrides spec.state ≡ deprecated) × (policy.allow_deprecated ≡ true))
    pub strong :
        is_classical spec.family ≡ false
        → below_int spec.security_category policy.minimum_security_category ≡ false

  -- The entries of the algorithms, one for each.
  unfoldable pub AllAdmitted : List Text → List AlgorithmSpec → Type 0
  AllAdmitted [] [] = Unit
  AllAdmitted (alg ∷ l) (spec ∷ m) = Admitted alg spec × AllAdmitted l m
  AllAdmitted _ _ = ⊥

  -- What the loop has found when neither of its lists of objections has an entry.
  record Scanned (s s' : Scan) (algs : List Text) : Type 0 where
    pub specs : List AlgorithmSpec
    pub admitted : AllAdmitted algs specs
    pub pq : s'.pq_specs ≡ s.pq_specs ++ pq_entries specs
    pub bytes : s'.detached_bytes ≡ s.detached_bytes + signature_total (pq_entries specs)
    pub blocked_before : is_empty s.blocked ≡ true
    pub below_before : is_empty s.below ≡ true

  -- One round: what it adds to the post-quantum entries, and to their bytes.
  pq_round :
      (b : Bool) (old new rest : List AlgorithmSpec) (spec : AlgorithmSpec)
      → new ≡ (if b then old else old ++ spec ∷ []) ++ rest
      → new ≡ old ++ (if b then rest else spec ∷ rest)
  pq_round true old new rest spec h = h
  pq_round false old new rest spec h = h ∙ append_assoc old (spec ∷ []) rest

  bytes_round :
      (b : Bool) (old new : ℕ) (rest : List AlgorithmSpec) (spec : AlgorithmSpec)
      → new ≡ (if b then old else old + spec.signature_bytes) + signature_total rest
      → new ≡ old + signature_total (if b then rest else spec ∷ rest)
  unfolding signature_total
  bytes_round true old new rest spec h = h
  bytes_round false old new rest spec h = omega arith

  passes :
      (alg : Text) (spec : AlgorithmSpec)
      → is_blocked tables policy overrides blocked_policy alg spec ≡ false
      → (text_in alg blocked_policy ≡ false)
        × ((last_override alg overrides spec.state ≡ approved)
            ⊎ ((last_override alg overrides spec.state ≡ deprecated)
                × (policy.allow_deprecated ≡ true)))
  passes alg spec h =
      let (listed, state) = either_false (text_in alg blocked_policy) _ h in
      (listed, by_state (last_override alg overrides spec.state) policy.allow_deprecated state)
    where
      by_state :
          (x : AlgorithmState) (allow : Bool)
          → state_blocks x allow ≡ false
          → (x ≡ approved) ⊎ ((x ≡ deprecated) × (allow ≡ true))
      by_state approved allow h = inl refl
      by_state deprecated true h = inr (refl, refl)
      by_state deprecated false h = absurd (cc h)
      by_state blocked allow h = absurd (cc h)

  round_Scanned :
      (s s' : Scan) (alg : Text) (spec : AlgorithmSpec) (algs : List Text)
      → algorithm_spec tables alg ≡ ok spec
      → Scanned (scanned tables policy overrides blocked_policy s alg spec) s' algs
      → Scanned s s' (alg ∷ algs)
  unfolding pq_entries AllAdmitted
  round_Scanned s s' alg spec algs e rest =
      let blocked =
        unappended (is_blocked tables policy overrides blocked_policy alg spec) s.blocked alg
          rest.blocked_before in
      let weak =
        unappended
          (not (is_classical spec.family)
            && below_int spec.security_category policy.minimum_security_category)
          s.below alg rest.below_before in
      record {
        specs = spec ∷ rest.specs;
        admitted = (
          record {
            registered = e;
            unlisted = (passes alg spec blocked.0).0;
            live = (passes alg spec blocked.0).1;
            strong = not_both (is_classical spec.family) _ weak.0;
          },
          rest.admitted,
        );
        pq =
            pq_round (is_classical spec.family) s.pq_specs s'.pq_specs (pq_entries rest.specs) spec
              rest.pq;
        bytes =
            bytes_round (is_classical spec.family) s.detached_bytes s'.detached_bytes
              (pq_entries rest.specs) spec rest.bytes;
        blocked_before = blocked.1;
        below_before = weak.1;
      }

  loop_Scanned :
      (s : Scan) (algs : List Text) {s' : Scan}
      → fold_result (scan_algorithm tables policy overrides blocked_policy) s algs ≡ ok s'
      → is_empty s'.blocked ≡ true
      → is_empty s'.below ≡ true
      → Scanned s s' algs
  unfolding fold_result scan_algorithm AllAdmitted pq_entries signature_total
  loop_Scanned s [] {s'} h b w =
      subst (λ (t : Scan). is_empty t.blocked ≡ true → is_empty t.below ≡ true → Scanned s t [])
        (ok-injective h)
        (λ b w. record {
          specs = [];
          admitted = tt;
          pq = sym (append-nil s.pq_specs);
          bytes = omega arith;
          blocked_before = b;
          below_before = w;
        })
        b w
  loop_Scanned s (alg ∷ algs) {s'} h b w =
      let (t, e, h1) =
        >>=-eq-ok (scan_algorithm tables policy overrides blocked_policy s alg) _ h in
      let (spec, found, e1) = >>=-eq-ok (algorithm_spec tables alg) _ e in
      round_Scanned s s' alg spec algs found (
        subst (λ (u : Scan). Scanned u s' algs) (sym (ok-injective e1))
          (loop_Scanned t algs h1 b w))

-- The promise of a satisfied report: the selected algorithms are registered and not blocked, none that is
-- post-quantum is below the floor, enough of them are post-quantum, their detached signatures are within
-- the limit, and the required families and algorithms are among them.
pub record Fulfilled (tables : CaseTables) (selected : List Text) (policy : CryptoAgilityPolicy)
    (lifecycle_overrides : List (Text × AlgorithmState)) : Type 0 where
  pub canonical : List Text
  pub normal : normalize_all tables selected ≡ ok canonical
  pub overrides : List (Text × AlgorithmState)
  pub override_keys : normalize_keys tables lifecycle_overrides ≡ ok overrides
  pub dict : CanonicalPolicy
  pub policy_valid : canonical_dict tables policy ≡ ok dict
  pub blocked_ids : List Text
  pub blocked_normal : normalize_all tables policy.blocked_algorithms ≡ ok blocked_ids
  pub blocked_is : dict.blocked_algorithms ≡ sort_texts blocked_ids
  pub specs : List AlgorithmSpec
  pub admitted : AllAdmitted tables policy overrides dict.blocked_algorithms canonical specs
  pub enough_pq : below_int (length (pq_entries specs)) policy.minimum_pq_attestations ≡ false
  pub within_bytes :
      at_most_int (signature_total (pq_entries specs)) policy.max_detached_signature_bytes ≡ true
  pub families :
      All
        (λ f. text_in f (map (λ s. family_text s.family) (pq_entries specs)) ≡ true)
        (map family_text policy.required_pq_families)
  pub required : List Text
  pub required_normal : normalize_all tables policy.required_algorithms ≡ ok required
  pub required_selected : All (λ a. text_in a canonical ≡ true) required

-- The list of blocked algorithms is the policy's.
blocked_list :
    (tables : CaseTables) (p : CryptoAgilityPolicy) {dict : CanonicalPolicy}
    → canonical_dict tables p ≡ ok dict
    → (ids : List Text) × (normalize_all tables p.blocked_algorithms ≡ ok ids)
      × (dict.blocked_algorithms ≡ sort_texts ids)
unfolding canonical_dict
blocked_list tables p h =
    let (_, h1) =
      >>-eq-ok
        (not (below_int 0 p.minimum_security_category) || below_int 5 p.minimum_security_category) _
        _ h in
    let (_, h2) = >>-eq-ok (not (at_most_int 0 p.minimum_pq_attestations)) _ _ h1 in
    let (_, h3) = >>-eq-ok (not (below_int 0 p.max_detached_signature_bytes)) _ _ h2 in
    let (_, h4) = >>-eq-ok (not (at_most_int 0 p.minimum_provider_fault_domains)) _ _ h3 in
    let (_, _, h5) = >>=-eq-ok (normalize_all tables p.required_algorithms) _ h4 in
    let (ids, e, h6) = >>=-eq-ok (normalize_all tables p.blocked_algorithms) _ h5 in
    (ids, e, sym (ap (λ d. d.blocked_algorithms) (ok-injective h6)))

from_zero : (n m : ℕ) → n ≡ 0 + m → n ≡ m
from_zero n m h = omega arith

module _ (tables : CaseTables) where
  negated : (b : Bool) → not b ≡ true → b ≡ false
  negated true h = cc h
  negated false h = refl

  -- If `evaluate_algorithm_set` answers with a satisfied report, then the selection, the overrides and
  -- the policy are well formed, every selected algorithm is registered, is not on the policy's list of
  -- blocked ones, and is by its lifecycle state approved, or deprecated where the policy allows that; no
  -- post-quantum one is below the security floor; there are at least the demanded number of post-quantum
  -- algorithms, their signatures together stay within the limit, and every required family and required
  -- algorithm is present.
  pub evaluate_algorithm_set-Fulfilled :
      (digest : CryptoAgilityPolicy → CanonicalPolicy → Text) (selected : List Text)
      (policy : CryptoAgilityPolicy) (lifecycle_overrides : List (Text × AlgorithmState))
      {report : CryptoAgilityReport}
      → evaluate_algorithm_set tables digest selected policy lifecycle_overrides ≡ ok report
      → report.satisfied ≡ true
      → Fulfilled tables selected policy lifecycle_overrides
  unfolding evaluate_algorithm_set
  evaluate_algorithm_set-Fulfilled digest selected policy lifecycle_overrides {report} h good =
      let (canonical, normal, h1) = >>=-eq-ok (normalize_all tables selected) _ h in
      let (overrides, keys, h2) = >>=-eq-ok (normalize_keys tables lifecycle_overrides) _ h1 in
      let (dict, valid, h3) = >>=-eq-ok (canonical_dict tables policy) _ h2 in
      let (s, loop, h4) =
        >>=-eq-ok
          (fold_result (scan_algorithm tables policy overrides dict.blocked_algorithms) no_scan
            canonical)
          _ h3 in
      let (required, req, h5) = >>=-eq-ok (normalize_all tables policy.required_algorithms) _ h4 in
      let holds : (report_of tables policy (digest policy dict) canonical required s).satisfied
          ≡ true =
        ap (λ r. r.satisfied) (ok-injective h5) ∙ good in
      let (many, r1) = both_true _ _ holds in
      let (fam, r2) = both_true _ _ r1 in
      let (alg, r3) = both_true _ _ r2 in
      let (unblocked, r4) = both_true _ _ r3 in
      let (strong, small) = both_true _ _ r4 in
      let (blocked_ids, blocked_normal, blocked_is) = blocked_list tables policy valid in
      let done =
        loop_Scanned tables policy overrides dict.blocked_algorithms no_scan canonical loop
          unblocked strong in
      record {
        canonical = canonical;
        normal = normal;
        overrides = overrides;
        override_keys = keys;
        dict = dict;
        policy_valid = valid;
        blocked_ids = blocked_ids;
        blocked_normal = blocked_normal;
        blocked_is = blocked_is;
        specs = done.specs;
        admitted = done.admitted;
        enough_pq =
            subst
              (λ (l : List AlgorithmSpec).
                below_int (length l) policy.minimum_pq_attestations ≡ false)
              done.pq (negated _ many);
        within_bytes =
            subst (λ (n : ℕ). at_most_int n policy.max_detached_signature_bytes ≡ true)
              (from_zero _ _ done.bytes) small;
        families =
            subst
              (λ (l : List AlgorithmSpec).
                All (λ f. text_in f (map (λ s. family_text s.family) l) ≡ true)
                  (map family_text policy.required_pq_families))
              done.pq (without-empty _ _ (sorted_set-empty _ fam));
        required = required;
        required_normal = req;
        required_selected = without-empty _ _ (sorted_set-empty _ alg);
      }
