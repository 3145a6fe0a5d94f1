-- ===== src/PsbtGuard/Locktime.antt =====
-- The lock time of version 2 against the requirements of the inputs.
use sara_pro.Prelude.{
  ℕ, ◌≤◌, ◌≡◌, ◌⊎◌, refl, sym, inl, inr, ap, subst, Bool, All, Any, List, [], ◌∷◌, Option, none,
  some, true, false, ◌&&◌, ◌||◌, not, arith, ltb, ltb_false→le, if◌then◌else◌, Bool-cases,
  both_true, ok, >>=-eq-ok, ok-injective,
}
use sara_pro.Bytes.{is_empty}
use sara_pro.PsbtGuard.{PsbtEntry, singleton}
use sara_pro.PsbtGuard.Parse.{
  Requirement, requirements, time_values, height_values, is_some, time_supported_by_all,
  height_supported_by_all, maximum, choose_locktime, determine_v2_locktime, u32_or, collect,
}

-- `n` meets what an input asks of this kind, or the input asks nothing of either kind.
abbrev Asked : ℕ → Option ℕ → Option ℕ → Type 0
Asked n asked other = ((asked ≡ none) × (other ≡ none)) ⊎ ((k : ℕ) × (asked ≡ some k) × (k ≤ n))

abbrev pub MetByHeight : ℕ → Requirement → Type 0
MetByHeight n r = Asked n r.height r.time

abbrev pub MetByTime : ℕ → Requirement → Type 0
MetByTime n r = Asked n r.time r.height

abbrev pub AsksNothing : Requirement → Type 0
AsksNothing r = (r.time ≡ none) × (r.height ≡ none)

maximum-upper : (n : ℕ) (l : List ℕ) → (n ≤ maximum (n ∷ l)) × (maximum l ≤ maximum (n ∷ l))
unfolding maximum
maximum-upper n l = elim (Bool-cases (ltb (maximum l) n)) [
  | inl big ↦ rw big (omega arith, ground (arith, big))
  | inr small ↦ rw small (ground (arith, small), omega arith)
]

-- Some input asks for `n` itself.
abbrev pub AsksHeight : ℕ → Requirement → Type 0
AsksHeight n r = r.height ≡ some n

abbrev pub AsksTime : ℕ → Requirement → Type 0
AsksTime n r = r.time ≡ some n

-- The maximum of some numbers is one of them.
maximum-Any : (l : List ℕ) → is_empty l ≡ false → Any (λ k. k ≡ maximum l) l
unfolding maximum
maximum-Any [] h = absurd (cc h)
maximum-Any (n ∷ l) h = elim (Bool-cases (ltb (maximum l) n)) [
  | inl big ↦ subst (λ (m : ℕ). Any (λ k. k ≡ m) (n ∷ l)) (sym (chosen true big)) (inl refl)
  | inr small ↦
      subst (λ (m : ℕ). Any (λ k. k ≡ m) (n ∷ l)) (sym (chosen false small))
        (below l (maximum-Any l) (ltb_false→le (maximum l) n small))
]
  where
    chosen : (b : Bool) → ltb (maximum l) n ≡ b → maximum (n ∷ l) ≡ (if b then n else maximum l)
    chosen b e = rw e refl

    below :
        (l : List ℕ)
        → (is_empty l ≡ false → Any (λ k. k ≡ maximum l) l)
        → n ≤ maximum l
        → (n ≡ maximum l) ⊎ Any (λ k. k ≡ maximum l) l
    below [] rest le = inl (omega (arith, le))
    below (m ∷ l) rest le = inr (rest refl)

heights_asked :
    (n : ℕ) (rs : List Requirement) → Any (λ k. k ≡ n) (height_values rs) → Any (AsksHeight n) rs
unfolding height_values
heights_asked n [] a = a
heights_asked n (r ∷ rs) a = by_height r.height a (heights_asked n rs)
  where
    by_height :
        (h : Option ℕ)
        → Any (λ k. k ≡ n) (collect h (height_values rs))
        → (Any (λ k. k ≡ n) (height_values rs) → Any (AsksHeight n) rs)
        → (h ≡ some n) ⊎ Any (AsksHeight n) rs
    by_height none a rest = inr (rest a)
    by_height (some k) (inl e) rest = inl (ap some e)
    by_height (some k) (inr a) rest = inr (rest a)

times_asked :
    (n : ℕ) (rs : List Requirement) → Any (λ k. k ≡ n) (time_values rs) → Any (AsksTime n) rs
unfolding time_values
times_asked n [] a = a
times_asked n (r ∷ rs) a = by_time r.time a (times_asked n rs)
  where
    by_time :
        (t : Option ℕ)
        → Any (λ k. k ≡ n) (collect t (time_values rs))
        → (Any (λ k. k ≡ n) (time_values rs) → Any (AsksTime n) rs)
        → (t ≡ some n) ⊎ Any (AsksTime n) rs
    by_time none a rest = inr (rest a)
    by_time (some k) (inl e) rest = inl (ap some e)
    by_time (some k) (inr a) rest = inr (rest a)

heights_met :
    (n : ℕ) (rs : List Requirement)
    → height_supported_by_all rs ≡ true
    → maximum (height_values rs) ≤ n
    → All (MetByHeight n) rs
unfolding height_supported_by_all height_values
heights_met n [] s m = tt
heights_met n (r ∷ rs) s m =
    let (first, others) = both_true (is_some r.height || not (is_some r.time)) _ s in
    by_height r.height r.time first m (heights_met n rs others)
  where
    by_height :
        (h t : Option ℕ)
        → (is_some h || not (is_some t)) ≡ true
        → maximum (collect h (height_values rs)) ≤ n
        → (maximum (height_values rs) ≤ n → All (MetByHeight n) rs)
        → Asked n h t × All (MetByHeight n) rs
    by_height none none f g rest = (inl (refl, refl), rest g)
    by_height none (some t) f g rest = absurd (cc f)
    by_height (some k) t f g rest =
        let (a, b) = maximum-upper k (height_values rs) in
        (inr (k, refl, omega (arith, a, g)), rest (omega (arith, b, g)))

times_met :
    (n : ℕ) (rs : List Requirement)
    → time_supported_by_all rs ≡ true
    → maximum (time_values rs) ≤ n
    → All (MetByTime n) rs
unfolding time_supported_by_all time_values
times_met n [] s m = tt
times_met n (r ∷ rs) s m =
    let (first, others) = both_true (is_some r.time || not (is_some r.height)) _ s in
    by_time r.time r.height first m (times_met n rs others)
  where
    by_time :
        (t h : Option ℕ)
        → (is_some t || not (is_some h)) ≡ true
        → maximum (collect t (time_values rs)) ≤ n
        → (maximum (time_values rs) ≤ n → All (MetByTime n) rs)
        → Asked n t h × All (MetByTime n) rs
    by_time none none f g rest = (inl (refl, refl), rest g)
    by_time none (some h) f g rest = absurd (cc f)
    by_time (some k) h f g rest =
        let (a, b) = maximum-upper k (time_values rs) in
        (inr (k, refl, omega (arith, a, g)), rest (omega (arith, b, g)))

nothing_asked :
    (rs : List Requirement)
    → is_empty (time_values rs) ≡ true
    → is_empty (height_values rs) ≡ true
    → All AsksNothing rs
unfolding time_values height_values
nothing_asked [] t h = tt
nothing_asked (r ∷ rs) t h = by_both r.time r.height t h (nothing_asked rs)
  where
    by_both :
        (a b : Option ℕ)
        → is_empty (collect a (time_values rs)) ≡ true
        → is_empty (collect b (height_values rs)) ≡ true
        → (is_empty (time_values rs) ≡ true
            → is_empty (height_values rs) ≡ true
            → All AsksNothing rs)
        → ((a ≡ none) × (b ≡ none)) × All AsksNothing rs
    by_both none none x y rest = ((refl, refl), rest x y)
    by_both (some a) b x y rest = absurd (cc x)
    by_both none (some b) x y rest = absurd (cc y)

-- What a lock time is: the fallback where no input asks for any, or one that an input asks for and that
-- every input is met by, all of them by a height or all of them by a time.
pub data Chosen (fallback : ℕ) (rs : List Requirement) (n : ℕ) : Type 0 where
  by_fallback : All AsksNothing rs → n ≡ fallback → Chosen fallback rs n
  by_height : Any (AsksHeight n) rs → All (MetByHeight n) rs → Chosen fallback rs n
  by_time : Any (AsksTime n) rs → All (MetByTime n) rs → Chosen fallback rs n

negated_empty : (b : Bool) → not b ≡ true → b ≡ false
negated_empty true h = absurd (cc h)
negated_empty false h = refl

most : (n : ℕ) (l : List ℕ) → is_empty l ≡ false → maximum l ≡ n → Any (λ k. k ≡ n) l
most n l h e = subst (λ (m : ℕ). Any (λ k. k ≡ m) l) e (maximum-Any l h)

choose_locktime-Chosen :
    (fallback : ℕ) (rs : List Requirement) {n : ℕ}
    → choose_locktime fallback rs ≡ ok n
    → Chosen fallback rs n
unfolding choose_locktime
choose_locktime-Chosen fallback rs {n} h =
    elim (Bool-cases (is_empty (time_values rs) && is_empty (height_values rs))) [
      | inl free ↦
          let (a, b) = both_true (is_empty (time_values rs)) (is_empty (height_values rs)) free in
          by_fallback (nothing_asked rs a b) (sym (ok-injective (rw free at h)))
      | inr asked ↦
          elim (Bool-cases (height_supported_by_all rs && not (is_empty (height_values rs)))) [
            | inl high ↦
                let (a, b) = both_true (height_supported_by_all rs) _ high in
                let same : maximum (height_values rs) ≡ n = ok-injective (rw (asked, high) at h) in
                by_height (heights_asked n rs (most n (height_values rs) (negated_empty _ b) same))
                  (heights_met n rs a (omega (arith, same)))
            | inr low ↦
                elim (Bool-cases (time_supported_by_all rs && not (is_empty (time_values rs)))) [
                  | inl timed ↦
                      let (a, b) = both_true (time_supported_by_all rs) _ timed in
                      let same : maximum (time_values rs) ≡ n =
                        ok-injective (rw (asked, low, timed) at h) in
                      by_time (times_asked n rs (most n (time_values rs) (negated_empty _ b) same))
                        (times_met n rs a (omega (arith, same)))
                  | inr neither ↦ absurd (cc (rw (asked, low, neither) at h))
                ]
          ]
    ]

-- A lock time that is determined for version 2 is the fallback of the global map (0 without one), if no
-- input asks for any; or it is the height that some input asks for and no input's height is above it,
-- and each input has a height or asks for nothing; or the same of times.
pub determine_v2_locktime-Chosen :
    (globals : List PsbtEntry) (inputs : List (List PsbtEntry)) {n : ℕ}
    → determine_v2_locktime globals inputs ≡ ok n
    → (entry : Option PsbtEntry) × (fallback : ℕ) × (rs : List Requirement) × (singleton globals
          0x03 false true
        ≡ ok entry)
      × (u32_or 0 entry ≡ ok fallback)
      × (requirements inputs ≡ ok rs)
      × Chosen fallback rs n
unfolding determine_v2_locktime
determine_v2_locktime-Chosen globals inputs h =
    let (entry, e, h1) = >>=-eq-ok (singleton globals 0x03 false true) _ h in
    let (fallback, f, h2) = >>=-eq-ok (u32_or 0 entry) _ h1 in
    let (rs, r, h3) = >>=-eq-ok (requirements inputs) _ h2 in
    (entry, fallback, rs, e, f, r, choose_locktime-Chosen fallback rs h3)
