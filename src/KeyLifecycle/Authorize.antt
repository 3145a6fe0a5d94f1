-- ===== src/KeyLifecycle/Authorize.antt =====
-- What `authorize_key` has established of the key that it returns.
use sara_pro.Prelude.{
  negated, either_false, ℕ, ◌≤◌, ◌<◌, ◌≡◌, refl, sym, ap, ◌∙◌, subst, List, [], ◌∷◌, Option, none,
  some, Bool, true, false, ◌&&◌, not, All, ltb, lt→ltb, ltb→lt, le→ltb_false, ltb_false→le, Result,
  ok, err, map_err, >>=-eq-ok, >>-eq-ok, ok-injective, or_raise-eq-ok,
}
use sara_pro.Bytes.{Text, text_eq, text_eq→eq, text_eq_refl}
use sara_pro.CryptoAgility.Registry.{AgilityError, normalize_algorithm_id}
use sara_pro.KeyLifecycle.{
  KeyState, active, deprecated, agility, KeyRecord, CanonicalKey, Clock, given, time, canonical_key,
  lookup, is_unexpired, is_live, is_successor, is_newer, any_newer, KeyRequest, is_revoked,
  is_deprecated, is_below, authorize_key,
}

module _ (clock : Clock) where
  -- The record is a live, active, newer generation of the same provider and algorithm.
  pub record Supersedes (now : ℕ) (mine : KeyRecord) (alg : Text) (r : KeyRecord) : Type 0 where
    pub provider_same : r.provider_id ≡ mine.provider_id
    pub algorithm_same : normalize_algorithm_id clock.tables r.algorithm_id ≡ ok alg
    pub newer : mine.generation < r.generation
    pub active_now : r.state ≡ active
    pub start : ℕ
    pub start_at : clock.parse_time r.not_before ≡ some start
    pub started : start ≤ now
    pub open_ended :
        (t : Text)
        → given r.not_after ≡ some t
        → (n : ℕ) × (clock.parse_time t ≡ some n) × (now < n)

  -- What the authorization demands.
  pub record Authorized (q : KeyRequest clock) (records : List KeyRecord) (mine : KeyRecord)
      : Type 0 where
    pub found : lookup clock q.provider_id q.fingerprint_sha256 records ≡ ok mine
    pub canonical : CanonicalKey
    pub valid : canonical_key clock mine ≡ ok canonical
    pub algorithm : normalize_algorithm_id clock.tables q.algorithm_id ≡ ok canonical.algorithm_id
    pub unrevoked : is_revoked clock mine.state ≡ false
    pub undeprecated : mine.state ≡ deprecated → q.allow_deprecated ≡ true
    pub start : ℕ
    pub start_at : clock.parse_time mine.not_before ≡ some start
    pub started : start ≤ q.now
    pub unexpired :
        (t : Text)
        → given mine.not_after ≡ some t
        → (n : ℕ) × (clock.parse_time t ≡ some n) × (q.now < n)
    pub floor : (n : ℕ) → q.minimum_generation ≡ some n → n ≤ mine.generation
    pub newest : All (λ r. ¬ (Supersedes q.now mine canonical.algorithm_id r)) records

  unexpired_true :
      (now : ℕ) (o : Option Text)
      → ((t : Text) → o ≡ some t → (n : ℕ) × (clock.parse_time t ≡ some n) × (now < n))
      → is_unexpired clock now o ≡ ok true
  unfolding is_unexpired
  unexpired_true now none h = refl
  unexpired_true now (some t) h = let (n, e, later) = h t refl in rw (e, lt→ltb now n later)

  unexpired_later :
      (now : ℕ) (o : Option Text)
      → is_unexpired clock now o ≡ ok true
      → (t : Text) → o ≡ some t
      → (n : ℕ) × (clock.parse_time t ≡ some n) × (now < n)
  unfolding is_unexpired
  unexpired_later now none h t e = absurd (cc e)
  unexpired_later now (some s) h t e =
      let (n, found, h1) = >>=-eq-ok (time clock s) _ h in
      let same : s ≡ t = (cc e) in
      (n, ap clock.parse_time (sym same) ∙ or_raise-eq-ok _ _ found, ltb→lt now n (ok-injective h1))

  Supersedes-newer :
      (now : ℕ) (mine : KeyRecord) (alg : Text) (r : KeyRecord)
      → Supersedes now mine alg r
      → is_newer clock now mine alg r ≡ ok true
  unfolding is_newer is_successor is_live
  Supersedes-newer now mine alg r s = rw (
    s.provider_same,
    text_eq_refl mine.provider_id,
    s.algorithm_same,
    text_eq_refl alg,
    lt→ltb mine.generation r.generation s.newer,
    s.active_now,
    s.start_at,
    le→ltb_false now s.start s.started,
    unexpired_true now (given r.not_after) s.open_ended,
  )

  none_newer :
      (now : ℕ) (mine : KeyRecord) (alg : Text) (records : List KeyRecord)
      → any_newer clock now mine alg records ≡ ok false
      → All (λ r. ¬ (Supersedes now mine alg r)) records
  unfolding any_newer
  none_newer now mine alg [] h = tt
  none_newer now mine alg (r ∷ l) h =
      let (here, e, h1) = >>=-eq-ok (is_newer clock now mine alg r) _ h in
      let (rest, e', h2) = >>=-eq-ok (any_newer clock now mine alg l) _ h1 in
      let (not_here, not_rest) = either_false here rest (ok-injective h2) in
      (
        λ s. absurd (cc (Supersedes-newer now mine alg r s, e, not_here)),
        none_newer now mine alg l (e' ∙ ap ok not_rest),
      )

  allowed_deprecated :
      (s : KeyState) (allow : Bool)
      → (is_deprecated clock s && not allow) ≡ false
      → s ≡ deprecated
      → allow ≡ true
  allowed_deprecated s true h e = refl
  allowed_deprecated s false h e = absurd (cc (rw e at h))

  floor_met : (g : ℕ) (o : Option ℕ) → is_below clock g o ≡ false → (n : ℕ) → o ≡ some n → n ≤ g
  floor_met g none h n e = absurd (cc e)
  floor_met g (some m) h n e =
      let same : m ≡ n = (cc e) in subst (λ (k : ℕ). k ≤ g) same (ltb_false→le g m h)

  map_err-eq-ok :
      {A : Type 0} (r : Result AgilityError A) {a : A} → map_err agility r ≡ ok a → r ≡ ok a
  map_err-eq-ok (ok b) h = ap ok (ok-injective h)
  map_err-eq-ok (err e) h = absurd (cc h)

  -- A key that `authorize_key` returns is the one that `lookup` finds for the request, is valid and has
  -- the requested algorithm; it is not revoked, and deprecated only if that is allowed; the time is
  -- within its interval; its generation is not below the anti-rollback floor; and no record of the
  -- registry is an active and live newer generation of the same provider and algorithm.
  pub authorize_key-Authorized :
      (q : KeyRequest clock) (records : List KeyRecord) {mine : KeyRecord}
      → authorize_key clock q records ≡ ok mine
      → Authorized q records mine
  unfolding authorize_key
  authorize_key-Authorized q records {mine} h =
      let (m, e1, h1) = >>=-eq-ok (lookup clock q.provider_id q.fingerprint_sha256 records) _ h in
      let (d, e2, h2) = >>=-eq-ok (canonical_key clock m) _ h1 in
      let (alg, e3, h3) =
        >>=-eq-ok (map_err agility (normalize_algorithm_id clock.tables q.algorithm_id)) _ h2 in
      let (g1, h4) = >>-eq-ok (not (text_eq d.algorithm_id alg)) _ _ h3 in
      let (g2, h5) = >>-eq-ok (is_revoked clock m.state) _ _ h4 in
      let (g3, h6) = >>-eq-ok (is_deprecated clock m.state && not q.allow_deprecated) _ _ h5 in
      let (start, e4, h7) = >>=-eq-ok (time clock m.not_before) _ h6 in
      let (g4, h8) = >>-eq-ok (ltb q.now start) _ _ h7 in
      let (fresh, e5, h9) = >>=-eq-ok (is_unexpired clock q.now (given m.not_after)) _ h8 in
      let (g5, h10) = >>-eq-ok (not fresh) _ _ h9 in
      let (g6, h11) = >>-eq-ok (is_below clock m.generation q.minimum_generation) _ _ h10 in
      let (newer, e6, h12) = >>=-eq-ok (any_newer clock q.now m alg records) _ h11 in
      let (g7, h13) = >>-eq-ok newer _ _ h12 in
      let same = text_eq→eq d.algorithm_id alg (negated (text_eq d.algorithm_id alg) g1) in
      subst (Authorized q records) (ok-injective h13) (record {
        found = e1;
        canonical = d;
        valid = e2;
        algorithm = map_err-eq-ok _ e3 ∙ ap ok (sym same);
        unrevoked = g2;
        undeprecated = allowed_deprecated m.state q.allow_deprecated g3;
        start = start;
        start_at = or_raise-eq-ok _ _ e4;
        started = ltb_false→le q.now start g4;
        unexpired = unexpired_later q.now (given m.not_after) (e5 ∙ ap ok (negated fresh g5));
        floor = floor_met m.generation q.minimum_generation g6;
        newest =
            subst (λ (a : Text). All (λ r. ¬ (Supersedes q.now m a r)) records) (sym same)
              (none_newer q.now m alg records (e6 ∙ ap ok g7));
      })
