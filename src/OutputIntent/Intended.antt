-- ===== src/OutputIntent/Intended.antt =====
-- What an output intent that is satisfied says of the outputs.
use sara_pro.Prelude.{
  ℕ, zero, suc, ◌≤◌, ◌≡◌, ◌⊎◌, inl, inr, refl, sym, ap, ◌∙◌, subst, List, [], ◌∷◌, ◌++◌, Option,
  none, some, All, Bool, true, false, ◌&&◌, Bool-cases, both_true, arith, length, take, drop,
  ==_iff, ok, >>=-eq-ok, ok-injective, or_raise, or_raise-eq-ok, ◌==◌, for_each,
}
use mathlib.Core.Option.{some-injective}
use sara_pro.Prelude.Int.{ℤ, pos, negsuc}
use sara_pro.Bytes.{Bytes, Text, CaseTables, text_eq→eq, text_in, is_empty}
use sara_pro.BitcoinTx.Types.{TxOutput}
use sara_pro.OutputIntent.{
  IntentError, negative_maximum, OutputIntentPolicy, OutputIntentReport, Payment, Indexed,
  as_natural, resolve_script, allowed_change_scripts, indexed, pays, choose, match_payments,
  is_change, is_permitted, change_of, unauthorized_of, report_of, evaluate_output_intent,
}

-- Each payment takes one output of its own, with its script and amount, of those that the ones before
-- it have left.
unfoldable pub Consumed : List Payment → List Indexed → List Indexed → Type 0
Consumed [] l rest = l ≡ rest
Consumed (p ∷ ps) l rest =
    (before after : List Indexed) × (i : ℕ) × (o : TxOutput) × (l ≡ before ++ (i, o) ∷ after)
    × (o.script_pubkey ≡ p.script)
    × (o.value_sat ≡ p.amount)
    × Consumed ps (before ++ after) rest

-- An output that no payment takes.
pub record Unspendable (o : TxOutput) : Type 0 where
  pub worthless : o.value_sat ≡ 0
  pub op_return : take 1 o.script_pubkey ≡ 0x6a ∷ []

abbrev pub Explained : List Bytes → Bool → Indexed → Type 0
Explained scripts allow t =
    (text_in t.1.script_pubkey scripts ≡ true) ⊎ ((allow ≡ true) × Unspendable t.1)

-- The output that a payment takes, and what is left around it.
abbrev Taken : Payment → List Indexed → ℕ → List Indexed → Type 0
Taken p l i others =
    (before after : List Indexed) × (o : TxOutput) × (l ≡ before ++ (i, o) ∷ after)
    × (others ≡ before ++ after)
    × (pays p o ≡ true)

choose-takes :
    (p : Payment) (l : List Indexed) {i : ℕ} {others : List Indexed}
    → choose p l ≡ some (i, others)
    → Taken p l i others
unfolding choose
choose-takes p [] h = absurd (cc h)
choose-takes p ((j, o) ∷ l) {i} {others} h =
    by_test (pays p o) refl (choose p l) (λ q r e. choose-takes p l {i = q} {others = r} e) h
  where
    by_test :
        (b : Bool)
        → pays p o ≡ b
        → (c : Option (ℕ × List Indexed))
        → ((q : ℕ) (r : List Indexed) → c ≡ some (q, r) → Taken p l q r)
        → elim b as (λ _. Option (ℕ × List Indexed)) [
          | true ↦ some (j, l)
          | false ↦ elim c as (λ _. Option (ℕ × List Indexed)) [
            | none ↦ none
            | some t ↦ some (t.0, (j, o) ∷ t.1)
          ]
        ]
          ≡ some (i, others)
        → Taken p ((j, o) ∷ l) i others
    by_test true first c ih e =
        let same = some-injective _ _ e in
        ([], l, o, ap (λ t. (t.0, o) ∷ l) same, sym (ap (λ t. t.1) same), first)
    by_test false other none ih e = absurd (cc e)
    by_test false other (some (q, r)) ih e =
        let (before, after, o', at, left, good) = ih q r refl in
        let same = some-injective _ _ e in
        (
          (j, o) ∷ before,
          after,
          o',
          ap (λ u. (j, o) ∷ u) at ∙ ap (λ t. (j, o) ∷ before ++ (t.0, o') ∷ after) same,
          sym (ap (λ t. t.1) same) ∙ ap (λ u. (j, o) ∷ u) left,
          good,
        )

match_payments-Consumed :
    (ps : List Payment) (l : List Indexed) {matched : List ℕ} {rest : List Indexed}
    → match_payments ps l ≡ ok (matched, rest)
    → Consumed ps l rest
unfolding match_payments Consumed
match_payments-Consumed [] l h = ap (λ t. t.1) (ok-injective h)
match_payments-Consumed (p ∷ ps) l {matched} {rest} h =
    let (t, e, h1) = >>=-eq-ok (or_raise (choose p l) _) _ h in
    let (u, f, h2) = >>=-eq-ok (match_payments ps t.1) _ h1 in
    let (before, after, o, at, others, good) = choose-takes p l (or_raise-eq-ok (choose p l) _ e) in
    let (script, amount) = both_true _ _ good in
    (
      before,
      after,
      t.0,
      o,
      at,
      text_eq→eq _ _ script,
      (==_iff o.value_sat p.amount).0 amount,
      subst (λ (x : List Indexed). Consumed ps x rest) others
          (subst (λ (x : List Indexed). Consumed ps t.1 x) (ap (λ v. v.1) (ok-injective h2))
            (match_payments-Consumed ps t.1 f)),
    )

unlisted :
    (allow : Bool) (o : TxOutput) → is_permitted allow o ≡ true → (allow ≡ true) × Unspendable o
unlisted allow o h =
    let (both, first) = both_true (allow && o.value_sat == 0) _ h in
    let (on, zero_value) = both_true allow (o.value_sat == 0) both in
    (
      on,
      record { worthless = (==_iff o.value_sat 0).0 zero_value; op_return = text_eq→eq _ _ first },
    )

unauthorized_of-Explained :
    (scripts : List Bytes) (allow : Bool) (l : List Indexed)
    → unauthorized_of scripts allow l ≡ []
    → All (Explained scripts allow) l
unfolding unauthorized_of
unauthorized_of-Explained scripts allow [] h = tt
unauthorized_of-Explained scripts allow ((i, o) ∷ l) h = elim (Bool-cases (is_change scripts o)) [
  | inl change ↦ (inl change, unauthorized_of-Explained scripts allow l (rw change at h))
  | inr other ↦ elim (Bool-cases (is_permitted allow o)) [
    | inl permitted ↦ (
      inr (unlisted allow o permitted),
      unauthorized_of-Explained scripts allow l (rw (other, permitted) at h),
    )
    | inr refused ↦ absurd (cc (rw (other, refused) at h))
  ]
]

is_empty-eq-nil : {A : Type 0} (l : List A) → is_empty l ≡ true → l ≡ []
is_empty-eq-nil [] h = refl
is_empty-eq-nil (x ∷ l) h = absurd (cc h)

append-eq-nil : {A : Type 0} (xs ys : List A) → xs ++ ys ≡ [] → (xs ≡ []) × (ys ≡ [])
append-eq-nil [] ys h = (refl, h)
append-eq-nil (x ∷ xs) ys h = absurd (cc h)

drop-eq-nil : {A : Type 0} (n : ℕ) (l : List A) → drop n l ≡ [] → length l ≤ n
drop-eq-nil n [] h = omega arith
drop-eq-nil zero (x ∷ l) h = absurd (cc h)
drop-eq-nil (suc n) (x ∷ l) h = omega (arith, drop-eq-nil n l h)

pub record Intended (sha256 : Bytes → Bytes) (tables : CaseTables) (outputs : List TxOutput)
    (network : Text) (policy : OutputIntentPolicy) : Type 0 where
  pub payments : List Payment
  pub resolved :
      for_each (resolve_script sha256 tables network) policy.expected_payments ≡ ok payments
  pub scripts : List Bytes
  pub change : allowed_change_scripts sha256 tables network policy ≡ ok scripts
  pub maximum : ℕ
  pub limit : policy.max_change_outputs ≡ pos maximum
  pub rest : List Indexed
  pub consumed : Consumed payments (indexed 0 outputs) rest
  pub explained : All (Explained scripts policy.allow_unlisted_zero_value_op_return) rest
  pub few : length (change_of scripts rest) ≤ maximum

as_natural-eq-ok : (e : IntentError) (z : ℤ) {n : ℕ} → as_natural e z ≡ ok n → z ≡ pos n
as_natural-eq-ok e (pos n) h = ap pos (ok-injective h)
as_natural-eq-ok e (negsuc n) h = absurd (cc h)

-- If an output intent is satisfied, each expected payment has an output of its own with exactly its
-- script and amount, every other output has an allowed change script or is, where that is allowed, an
-- OP_RETURN of no value, and those with a change script are at most the maximum.
pub evaluate_output_intent-Intended :
    (sha256 : Bytes → Bytes) (tables : CaseTables) (outputs : List TxOutput) (network : Text)
    (policy : OutputIntentPolicy) {report : OutputIntentReport}
    → evaluate_output_intent sha256 tables outputs network policy ≡ ok report
    → report.satisfied ≡ true
    → Intended sha256 tables outputs network policy
unfolding evaluate_output_intent report_of
evaluate_output_intent-Intended sha256 tables outputs network policy h satisfied =
    let (maximum, m, h1) = >>=-eq-ok (as_natural negative_maximum policy.max_change_outputs) _ h in
    let (payments, resolved, h2) =
      >>=-eq-ok (for_each (resolve_script sha256 tables network) policy.expected_payments) _ h1 in
    let (t, e, h3) = >>=-eq-ok (match_payments payments (indexed 0 outputs)) _ h2 in
    let (scripts, change, h4) =
      >>=-eq-ok (allowed_change_scripts sha256 tables network policy) _ h3 in
    let changes = change_of scripts t.1 in
    let others = unauthorized_of scripts policy.allow_unlisted_zero_value_op_return t.1 in
    let none_left : is_empty (others ++ drop maximum changes) ≡ true =
      ap (λ r. r.satisfied) (ok-injective h4) ∙ satisfied in
    let (all, few) = append-eq-nil others _ (is_empty-eq-nil _ none_left) in
    record {
      payments = payments;
      resolved = resolved;
      scripts = scripts;
      change = change;
      maximum = maximum;
      limit = as_natural-eq-ok _ policy.max_change_outputs m;
      rest = t.1;
      consumed = match_payments-Consumed payments (indexed 0 outputs) e;
      explained = unauthorized_of-Explained scripts _ t.1 all;
      few = drop-eq-nil maximum changes few;
    }
