-- ===== src/CryptoAgility/Normal.antt =====
-- The identifiers that `normalize_algorithm_id` returns, and their registry entries.
use sara_pro.Prelude.{
  ◌≡◌, refl, subst, List, [], ◌∷◌, Option, none, some, All, Bool-cases, inl, inr, ok, >>-eq-ok,
  or_raise-eq-ok,
}
use sara_pro.Bytes.{Text, text_eq, strip, strip_left, is_space, upper, CaseTables, is_empty}
use sara_pro.CryptoAgility.Registry.{
  AlgorithmSpec, standard_algorithms, aliases, find_alias, find_spec, underscores_to_dashes,
  find_upper, known_id, normalize_algorithm_id, algorithm_spec,
}

module _ (tables : CaseTables) where
  abbrev Normal : Text → Type 0
  Normal id =
      (normalize_algorithm_id tables id ≡ ok id)
      × ((spec : AlgorithmSpec) × (find_spec id standard_algorithms ≡ some spec))

  find_alias-All :
      (P : Text → Type 0) (u : Text) (l : List (Text × Text)) {id : Text}
      → All (λ e. P e.1) l
      → find_alias u l ≡ some id
      → P id
  unfolding find_alias
  find_alias-All P u [] h e = absurd (cc e)
  find_alias-All P u ((k, v) ∷ l) {id} (h, hs) e = elim (Bool-cases (text_eq k u)) [
    | inl same ↦ let found : some v ≡ some id = (rw same at e) in subst P (cc found) h
    | inr different ↦ find_alias-All P u l hs (rw different at e)
  ]

  find_upper-All :
      (P : Text → Type 0) (u : Text) (l : List AlgorithmSpec) {id : Text}
      → All (λ s. P s.algorithm_id) l
      → find_upper tables u l ≡ some id
      → P id
  unfolding find_upper
  find_upper-All P u [] h e = absurd (cc e)
  find_upper-All P u (s ∷ l) {id} (h, hs) e =
      elim (Bool-cases (text_eq (upper tables s.algorithm_id) u)) [
        | inl same ↦
            let found : some s.algorithm_id ≡ some id = (rw same at e) in subst P (cc found) h
        | inr different ↦ find_upper-All P u l hs (rw different at e)
      ]

  standard-Normal : All (λ (s : AlgorithmSpec). Normal s.algorithm_id) standard_algorithms
  unfolding normalize_algorithm_id find_alias known_id find_upper underscores_to_dashes strip
      strip_left is_space upper text_eq find_spec
  standard-Normal = (
    (refl, (_, refl)),
    (
      (refl, (_, refl)),
      (
        (refl, (_, refl)),
        (
          (refl, (_, refl)),
          (
            (refl, (_, refl)),
            (
              (refl, (_, refl)),
              (
                (refl, (_, refl)),
                (
                  (refl, (_, refl)),
                  (
                    (refl, (_, refl)),
                    (
                      (refl, (_, refl)),
                      (
                        (refl, (_, refl)),
                        ((refl, (_, refl)), ((refl, (_, refl)), ((refl, (_, refl)), tt))),
                      ),
                    ),
                  ),
                ),
              ),
            ),
          ),
        ),
      ),
    ),
  )

  aliases-Normal : All (λ (e : Text × Text). Normal e.1) aliases
  unfolding normalize_algorithm_id find_alias known_id find_upper underscores_to_dashes strip
      strip_left is_space upper text_eq find_spec
  aliases-Normal = (
    (refl, (_, refl)),
    (
      (refl, (_, refl)),
      (
        (refl, (_, refl)),
        (
          (refl, (_, refl)),
          (
            (refl, (_, refl)),
            ((refl, (_, refl)), ((refl, (_, refl)), ((refl, (_, refl)), ((refl, (_, refl)), tt)))),
          ),
        ),
      ),
    ),
  )

  known-Normal :
      (u : Text) (o : Option Text) {id : Text}
      → find_alias u aliases ≡ o
      → known_id tables u o ≡ some id
      → Normal id
  unfolding known_id
  known-Normal u (some a) e k = find_alias-All Normal u aliases aliases-Normal (cc (e, k))
  known-Normal u none e k = find_upper-All Normal u standard_algorithms standard-Normal k

  result-Normal :
      (value : Text) {id : Text} → normalize_algorithm_id tables value ≡ ok id → Normal id
  unfolding normalize_algorithm_id
  result-Normal value h =
      let (_, h1) = >>-eq-ok (is_empty (strip value)) _ _ h in
      let u = upper tables (underscores_to_dashes (strip value)) in
      known-Normal u (find_alias u aliases) refl (or_raise-eq-ok _ _ h1)

  -- An identifier that `normalize_algorithm_id` returns is its own normal form and is registered, so
  -- that `algorithm_spec` of the original identifier and of the normal form succeed with the same entry:
  -- its dictionary lookup never raises a KeyError.
  pub normalize_algorithm_id-normal :
      (value : Text) {id : Text}
      → normalize_algorithm_id tables value ≡ ok id
      → (normalize_algorithm_id tables id ≡ ok id)
        × ((spec : AlgorithmSpec) × (algorithm_spec tables value ≡ ok spec)
            × (algorithm_spec tables id ≡ ok spec))
  unfolding algorithm_spec
  normalize_algorithm_id-normal value {id} h =
      let (again, (spec, found)) = result-Normal value h in
      (again, (spec, rw (h, found), rw (again, found)))
