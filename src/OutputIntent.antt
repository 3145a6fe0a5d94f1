-- ===== src/OutputIntent.antt =====
-- The binding of outputs to recipients and change, research/qcrypto_tsv/v3_6/
-- worldshepherd_qcrypto_kms/output_intent.py. The texts of findings and the digest of the policy are left out.
pub mod Intended
use sara_pro.Prelude.{
  ℕ, suc, ◌+◌, List, [], ◌∷◌, ◌++◌, map, Option, none, some, Bool, true, false, ◌&&◌, ◌||◌, not,
  length, take, drop, ltb, ◌==◌, if◌then◌else◌, Result, ok, err, ◌>>=◌, ◌>>◌, raise_if, or_raise,
  map_err, for_each,
}
use sara_pro.Prelude.Int.{ℤ, pos, negsuc}
use sara_pro.Bytes.{Bytes, Text, CaseTables, text_eq, text_in, from_hex, is_empty}
use sara_pro.BitcoinTx.Types.{TxOutput}
use sara_pro.AddressCodec.{AddressError, address_to_scriptpubkey}

-- An OutputIntentError by its message.
pub data IntentError : Type 0 where
  negative_amount exactly_one bad_script empty_script : IntentError
  bad_address : AddressError → IntentError
  bad_change_address : AddressError → IntentError
  bad_change_script empty_change_script negative_maximum payment_absent : IntentError

pub record ExpectedPayment : Type 0 where
  pub amount_sat : ℤ
  pub address : Option Text
  pub script_pubkey_hex : Option Text

pub record OutputIntentPolicy : Type 0 where
  pub expected_payments : List ExpectedPayment
  pub allowed_change_addresses : List Text
  pub allowed_change_script_pubkeys_hex : List Text
  pub max_change_outputs : ℤ
  pub allow_unlisted_zero_value_op_return : Bool

pub record OutputIntentReport : Type 0 where
  pub satisfied : Bool
  pub matched_payment_indexes : List ℕ
  pub change_output_indexes : List ℕ
  pub unauthorized_output_indexes : List ℕ

-- A payment with its script.
pub record Payment : Type 0 where
  pub amount : ℕ
  pub script : Bytes

-- An output with its index in the transaction.
abbrev pub Indexed : Type 0
Indexed = ℕ × TxOutput

abbrev pub as_natural : IntentError → ℤ → Result IntentError ℕ
as_natural e (pos n) = ok n
as_natural e (negsuc n) = err e

-- `bytes.fromhex` of a script that is not empty
unfoldable pub script_of_hex : IntentError → IntentError → Text → Result IntentError Bytes
script_of_hex bad empty t = do
  script ← or_raise (from_hex t) bad
  raise_if (is_empty script) empty
  ok script

module _ (sha256 : Bytes → Bytes) (tables : CaseTables) (network : Text) where
  unfoldable pub destination : Option Text → Option Text → Result IntentError Bytes
  destination none none = err exactly_one
  destination (some a) (some h) = err exactly_one
  destination (some a) none = map_err bad_address (address_to_scriptpubkey sha256 tables a network)
  destination none (some h) = script_of_hex bad_script empty_script h

  -- `resolve_script`
  unfoldable pub resolve_script : ExpectedPayment → Result IntentError Payment
  resolve_script p = do
    amount ← as_natural negative_amount p.amount_sat
    script ← destination p.address p.script_pubkey_hex
    ok (record { amount = amount; script = script })

  -- `_allowed_change_scripts`, as a list of what the set holds
  unfoldable pub allowed_change_scripts : OutputIntentPolicy → Result IntentError (List Bytes)
  allowed_change_scripts policy = do
    a ←
        for_each (λ t. map_err bad_change_address (address_to_scriptpubkey sha256 tables t network))
          policy.allowed_change_addresses
    h ←
        for_each (script_of_hex bad_change_script empty_change_script)
          policy.allowed_change_script_pubkeys_hex
    ok (a ++ h)

unfoldable pub indexed : ℕ → List TxOutput → List Indexed
indexed i [] = []
indexed i (o ∷ os) = (i, o) ∷ indexed (suc i) os

abbrev pub pays : Payment → TxOutput → Bool
pays p o = text_eq o.script_pubkey p.script && o.value_sat == p.amount

-- The first available output that the payment is in, and the others.
unfoldable pub choose : Payment → List Indexed → Option (ℕ × List Indexed)
choose p [] = none
choose p ((i, o) ∷ l) = elim (pays p o) [
  | true ↦ some (i, l)
  | false ↦ elim (choose p l) [ none ↦ none | some t ↦ some (t.0, (i, o) ∷ t.1) ]
]

-- The loop over the payments: the indexes that they match, and what stays available.
unfoldable pub match_payments :
    List Payment → List Indexed → Result IntentError (List ℕ × List Indexed)
match_payments [] available = ok ([], available)
match_payments (p ∷ ps) available = do
  (i, others) ← or_raise (choose p available) payment_absent
  (matched, rest) ← match_payments ps others
  ok (i ∷ matched, rest)

abbrev pub is_change : List Bytes → TxOutput → Bool
is_change scripts o = text_in o.script_pubkey scripts

-- An output that may stand unlisted.
abbrev pub is_permitted : Bool → TxOutput → Bool
is_permitted allow o = allow && o.value_sat == 0 && text_eq (take 1 o.script_pubkey) (0x6a ∷ [])

-- The loop over what is left.
unfoldable pub change_of : List Bytes → List Indexed → List ℕ
change_of scripts [] = []
change_of scripts ((i, o) ∷ l) =
    let rest = change_of scripts l in if is_change scripts o then i ∷ rest else rest

unfoldable pub unauthorized_of : List Bytes → Bool → List Indexed → List ℕ
unauthorized_of scripts allow [] = []
unauthorized_of scripts allow ((i, o) ∷ l) =
    let rest = unauthorized_of scripts allow l in
    if is_change scripts o || is_permitted allow o then rest else i ∷ rest

-- `sorted(set(l))`
unfoldable pub insert_index : ℕ → List ℕ → List ℕ
insert_index i [] = i ∷ []
insert_index i (j ∷ l) =
    let rest = insert_index i l in if ltb i j then i ∷ j ∷ l else if i == j then j ∷ l else j ∷ rest

unfoldable pub sorted_indexes : List ℕ → List ℕ
sorted_indexes [] = []
sorted_indexes (i ∷ l) = insert_index i (sorted_indexes l)

unfoldable pub report_of : List ℕ → List ℕ → List ℕ → ℕ → OutputIntentReport
report_of matched change unauthorized maximum =
    let all = unauthorized ++ drop maximum change in
    record {
      satisfied = is_empty all;
      matched_payment_indexes = matched;
      change_output_indexes = take maximum change;
      unauthorized_output_indexes = sorted_indexes all;
    }

-- `evaluate_output_intent`
unfoldable pub evaluate_output_intent :
    (Bytes → Bytes)
    → CaseTables
    → List TxOutput
    → Text
    → OutputIntentPolicy
    → Result IntentError OutputIntentReport
evaluate_output_intent sha256 tables outputs network policy = do
  maximum ← as_natural negative_maximum policy.max_change_outputs
  payments ← for_each (resolve_script sha256 tables network) policy.expected_payments
  (matched, rest) ← match_payments payments (indexed 0 outputs)
  scripts ← allowed_change_scripts sha256 tables network policy
  ok (
      report_of matched (change_of scripts rest)
        (unauthorized_of scripts policy.allow_unlisted_zero_value_op_return rest) maximum)
