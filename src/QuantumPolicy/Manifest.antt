-- ===== src/QuantumPolicy/Manifest.antt =====
-- The order, the content and the totals of the manifest of `build_migration_manifest`.
use mathlib.Core.List.{Perm}
use mathlib.Core.List.Perm
use sara_pro.Prelude.{
  ℕ, ◌+◌, ◌≡◌, refl, sym, ap, ◌∙◌, subst, inl, inr, List, [], ◌∷◌, Bool, true, false, arith, length,
  if◌then◌else◌, Bool-cases, ok, >>=-eq-ok, ok-injective,
}
use sara_pro.Bytes.{CaseTables, text_eq_comm, text_ltb-asymm, text_eq→eq}
use sara_pro.QuantumPolicy.Types.{ExposureClass, UtxoRecord, UtxoAssessment}
use sara_pro.QuantumPolicy.Assess.{
  is_exposed, is_hidden, key_ltb, insert_by_key, sort_by_key, sum_where, assess_utxo, assess_all,
  MigrationManifest, manifest_of, build_migration_manifest,
}

key_ltb-asymm : (a b : UtxoAssessment) → key_ltb a b ≡ true → key_ltb b a ≡ false
unfolding key_ltb
key_ltb-asymm a b h = ground (
  arith,
  text_ltb-asymm a.txid b.txid,
  text_ltb-asymm b.txid a.txid,
  text_eq_comm a.txid b.txid,
  text_eq→eq a.txid b.txid,
)

-- No element has a smaller key than the one in front of it.
abbrev pub IsSorted : List UtxoAssessment → Type 0
IsSorted [] = Unit
IsSorted (a ∷ []) = Unit
IsSorted (a ∷ b ∷ l) = (key_ltb b a ≡ false) × IsSorted (b ∷ l)

-- An element that goes behind `b` leaves `b` in front.
insert_behind :
    (a b c : UtxoAssessment) (l : List UtxoAssessment)
    → key_ltb b a ≡ true
    → key_ltb c b ≡ false
    → IsSorted (insert_by_key a (c ∷ l))
    → IsSorted (b ∷ insert_by_key a (c ∷ l))
unfolding insert_by_key
insert_behind a b c l later bc h = elim (Bool-cases (key_ltb c a)) [
  | inl e ↦ rw e (bc, rw e at h)
  | inr e ↦ rw e (key_ltb-asymm b a later, rw e at h)
]

insert-IsSorted :
    (a : UtxoAssessment) (l : List UtxoAssessment) → IsSorted l → IsSorted (insert_by_key a l)
unfolding insert_by_key
insert-IsSorted a [] h = tt
insert-IsSorted a (b ∷ []) h = elim (Bool-cases (key_ltb b a)) [
  | inl later ↦ rw later (key_ltb-asymm b a later, tt)
  | inr first ↦ rw first (first, tt)
]
insert-IsSorted a (b ∷ c ∷ l) (bc, h) = elim (Bool-cases (key_ltb b a)) [
  | inl later ↦ rw later (insert_behind a b c l later bc (insert-IsSorted a (c ∷ l) h))
  | inr first ↦ rw first (first, (bc, h))
]

sort-IsSorted : (l : List UtxoAssessment) → IsSorted (sort_by_key l)
unfolding sort_by_key
sort-IsSorted [] = tt
sort-IsSorted (a ∷ l) = insert-IsSorted a (sort_by_key l) (sort-IsSorted l)

insert-perm : (a : UtxoAssessment) (l : List UtxoAssessment) → Perm (insert_by_key a l) (a ∷ l)
unfolding insert_by_key
insert-perm a [] = Perm.refl (a ∷ [])
insert-perm a (b ∷ l) = elim (Bool-cases (key_ltb b a)) [
  | inl later ↦ rw later (Perm.trans (Perm.cons b (insert-perm a l)) (Perm.swap a b l))
  | inr first ↦ rw first (Perm.refl (a ∷ b ∷ l))
]

sort-perm : (l : List UtxoAssessment) → Perm (sort_by_key l) l
unfolding sort_by_key
sort-perm [] = Perm.refl []
sort-perm (a ∷ l) = Perm.trans (insert-perm a (sort_by_key l)) (Perm.cons a (sort-perm l))

module _ (test : ExposureClass → Bool) where
  sum_where-insert :
      (a : UtxoAssessment) (l : List UtxoAssessment)
      → sum_where test (insert_by_key a l) ≡ sum_where test (a ∷ l)
  unfolding sum_where insert_by_key
  sum_where-insert a [] = refl
  sum_where-insert a (b ∷ l) = elim (Bool-cases (key_ltb b a)) [
    | inl later ↦ rw later (omega (arith, sum_where-insert a l))
    | inr first ↦ rw first
  ]

  sum_where-sort : (l : List UtxoAssessment) → sum_where test (sort_by_key l) ≡ sum_where test l
  unfolding sum_where sort_by_key
  sum_where-sort [] = refl
  sum_where-sort (a ∷ l) =
      sum_where-insert a (sort_by_key l)
      ∙ ap (λ (n : ℕ). (if test a.exposure then a.amount_sat else 0) + n) (sum_where-sort l)

length-insert :
    (a : UtxoAssessment) (l : List UtxoAssessment) → length (insert_by_key a l) ≡ length (a ∷ l)
unfolding insert_by_key
length-insert a [] = refl
length-insert a (b ∷ l) = ground (arith, length-insert a l)

length-sort : (l : List UtxoAssessment) → length (sort_by_key l) ≡ length l
unfolding sort_by_key
length-sort [] = refl
length-sort (a ∷ l) = length-insert a (sort_by_key l) ∙ ap (λ (n : ℕ). ℕ.suc n) (length-sort l)

length-assess_all :
    (tables : CaseTables) (rs : List UtxoRecord) {l : List UtxoAssessment}
    → assess_all tables rs ≡ ok l
    → length l ≡ length rs
unfolding assess_all
length-assess_all tables [] h = ap length (sym (ok-injective h))
length-assess_all tables (r ∷ rs) h =
    let (a, e1, h1) = >>=-eq-ok (assess_utxo tables r) _ h in
    let (rest, e2, h2) = >>=-eq-ok (assess_all tables rs) _ h1 in
    ap length (sym (ok-injective h2)) ∙ ap (λ (n : ℕ). ℕ.suc n) (length-assess_all tables rs e2)

-- What a manifest says of the assessments that it was made from.
pub record Reports (l : List UtxoAssessment) (m : MigrationManifest) : Type 0 where
  pub sorted : IsSorted m.utxos
  pub same : Perm m.utxos l
  pub exposed : m.long_or_reuse_exposed_sat ≡ sum_where is_exposed l
  pub hidden : m.hidden_until_spend_sat ≡ sum_where is_hidden l

module _ (tables : CaseTables) (rs : List UtxoRecord) (m : MigrationManifest) where
  -- A manifest that is built counts every record, lists the assessments of all of them, each as often
  -- as it was made, in the order of the sort key, and its two totals are the sums over those
  -- assessments.
  pub build_migration_manifest-Reports :
      build_migration_manifest tables rs ≡ ok m
      → (m.utxo_count ≡ length rs)
        × ((l : List UtxoAssessment) × (assess_all tables rs ≡ ok l) × Reports l m)
  unfolding build_migration_manifest manifest_of
  build_migration_manifest-Reports h =
      let (l, e, h1) = >>=-eq-ok (assess_all tables rs) _ h in
      subst
        (λ (m : MigrationManifest).
          (m.utxo_count ≡ length rs)
          × ((l : List UtxoAssessment) × (assess_all tables rs ≡ ok l) × Reports l m))
        (ok-injective h1)
        (
          length-sort l ∙ length-assess_all tables rs e,
          (
            l,
            e,
            record {
              sorted = sort-IsSorted l;
              same = sort-perm l;
              exposed = sum_where-sort is_exposed l;
              hidden = sum_where-sort is_hidden l;
            },
          ),
        )
