-- ===== src/PsbtGuard/Parse.antt =====
-- `parse_psbt`: the versions, the lock time and the transaction of version 2, and the maps.
use sara_pro.Prelude.{
  for_each, ℕ, List, [], ◌∷◌, reverse, Option, none, some, Bool, true, false, ◌&&◌, ◌||◌, not,
  length, ltb, leb, ◌==◌, if◌then◌else◌, Result, ok, err, ◌>>=◌, ◌>>◌, raise_if, map_err, or_raise,
}
use sara_pro.Bytes.{is_empty, le_value, signed_value, to_hex}
use sara_pro.BitcoinTx.Types.{TxInput, TxOutput, BitcoinTransaction}
use sara_pro.BitcoinTx.Serialize.{serialize}
use sara_pro.PsbtGuard.{
  PsbtError, not_four_bytes, missing_field, unknown_version, bad_time_locktime, bad_height_locktime,
  incompatible_locktimes, bad_previous_txid, bad_amount, negative_amount, tx_error, PsbtEntry,
  singleton,
}

-- The maps of a PSBT, with the transaction of either version.
pub record ParsedPsbt : Type 0 where
  pub version : ℕ
  pub global_map : List PsbtEntry
  pub input_maps : List (List PsbtEntry)
  pub output_maps : List (List PsbtEntry)
  pub transaction : BitcoinTransaction

-- `_u32` of an unsigned field
unfoldable pub u32 : PsbtEntry → Result PsbtError ℕ
u32 e = do raise_if (not (length e.value == 4)) not_four_bytes; ok (le_value e.value)

-- A field that `required=True` has found.
unfoldable pub required : List PsbtEntry → ℕ → Result PsbtError PsbtEntry
required m key_type = do found ← singleton m key_type true true; or_raise found missing_field

-- `_u32(entry, ...) if entry else default`
unfoldable pub u32_or : ℕ → Option PsbtEntry → Result PsbtError ℕ
u32_or default none = ok default
u32_or default (some e) = u32 e

-- `_parse_version`
unfoldable pub parse_version : List PsbtEntry → Result PsbtError ℕ
parse_version globals = do
  entry ← singleton globals 0xFB false true
  version ← u32_or 0 entry
  raise_if (not (version == 0) && not (version == 2)) unknown_version
  ok version

-- `_u32` of a time or a height, if there is the field
unfoldable pub required_time : Option PsbtEntry → Result PsbtError (Option ℕ)
required_time none = ok none
required_time (some e) = do
  tv ← u32 e
  raise_if (ltb tv 500_000_000) bad_time_locktime
  ok (some tv)

unfoldable pub required_height : Option PsbtEntry → Result PsbtError (Option ℕ)
required_height none = ok none
required_height (some e) = do
  hv ← u32 e
  raise_if (hv == 0 || leb 500_000_000 hv) bad_height_locktime
  ok (some hv)

-- The requirement of an input: a time, a height, both or none.
pub record Requirement : Type 0 where
  pub time : Option ℕ
  pub height : Option ℕ

unfoldable pub requirement_of : List PsbtEntry → Result PsbtError Requirement
requirement_of m = do
  t ← singleton m 0x11 false true
  h ← singleton m 0x12 false true
  time ← required_time t
  height ← required_height h
  ok (record { time = time; height = height })

unfoldable pub requirements : List (List PsbtEntry) → Result PsbtError (List Requirement)
requirements [] = ok []
requirements (m ∷ l) = do r ← requirement_of m; rest ← requirements l; ok (r ∷ rest)

abbrev pub collect : Option ℕ → List ℕ → List ℕ
collect none l = l
collect (some n) l = n ∷ l

unfoldable pub time_values : List Requirement → List ℕ
time_values [] = []
time_values (r ∷ l) = collect r.time (time_values l)

unfoldable pub height_values : List Requirement → List ℕ
height_values [] = []
height_values (r ∷ l) = collect r.height (height_values l)

abbrev pub is_some : Option ℕ → Bool
is_some none = false
is_some (some n) = true

-- No input has a height and no time.
unfoldable pub time_supported_by_all : List Requirement → Bool
time_supported_by_all [] = true
time_supported_by_all (r ∷ l) =
    (is_some r.time || not (is_some r.height)) && time_supported_by_all l

unfoldable pub height_supported_by_all : List Requirement → Bool
height_supported_by_all [] = true
height_supported_by_all (r ∷ l) =
    (is_some r.height || not (is_some r.time)) && height_supported_by_all l

-- `max(l)` of a list that is not empty
unfoldable pub maximum : List ℕ → ℕ
maximum [] = 0
maximum (n ∷ l) = let m = maximum l in if ltb m n then n else m

unfoldable pub choose_locktime : ℕ → List Requirement → Result PsbtError ℕ
choose_locktime fallback rs =
    if is_empty (time_values rs) && is_empty (height_values rs)
    then ok fallback
    else if height_supported_by_all rs && not (is_empty (height_values rs))
    then ok (maximum (height_values rs))
    else if time_supported_by_all rs && not (is_empty (time_values rs))
    then ok (maximum (time_values rs))
    else err incompatible_locktimes

-- `_determine_v2_locktime`
unfoldable pub determine_v2_locktime : List PsbtEntry → List (List PsbtEntry) → Result PsbtError ℕ
determine_v2_locktime globals inputs = do
  entry ← singleton globals 0x03 false true
  fallback ← u32_or 0 entry
  rs ← requirements inputs
  choose_locktime fallback rs

-- The body of the loop over the inputs of `_reconstruct_v2`.
unfoldable pub v2_input : List PsbtEntry → Result PsbtError TxInput
v2_input m = do
  prev ← required m 0x0E
  out_index ← required m 0x0F
  raise_if (not (length prev.value == 32)) bad_previous_txid
  vout ← u32 out_index
  seq_entry ← singleton m 0x10 false true
  sequence ← u32_or 0xFFFFFFFF seq_entry
  ok (record {
    prev_txid = to_hex (reverse prev.value);
    vout = vout;
    script_sig = [];
    sequence = sequence;
    witness = [];
  })

-- `int.from_bytes(value, "little", signed=True)` of 8 bytes is negative from 2 ^ 63 on.
unfoldable pub v2_output : List PsbtEntry → Result PsbtError TxOutput
v2_output m = do
  amount ← required m 0x03
  script ← required m 0x04
  raise_if (not (length amount.value == 8)) bad_amount
  raise_if (leb 9_223_372_036_854_775_808 (le_value amount.value)) negative_amount
  ok (record { value_sat = le_value amount.value; script_pubkey = script.value })

-- `_reconstruct_v2`; the txid is computed for what the serializer refuses.
unfoldable pub reconstruct_v2 :
    List PsbtEntry
    → List (List PsbtEntry)
    → List (List PsbtEntry)
    → Result PsbtError BitcoinTransaction
reconstruct_v2 globals inputs outputs = do
  version_entry ← required globals 0x02
  raise_if (not (length version_entry.value == 4)) not_four_bytes
  locktime ← determine_v2_locktime globals inputs
  txins ← for_each v2_input inputs
  txouts ← for_each v2_output outputs
  let tx : BitcoinTransaction = record {
    version = signed_value 4 (le_value version_entry.value);
    inputs = txins;
    outputs = txouts;
    locktime = locktime;
    segwit = false;
  }
  stripped ← map_err tx_error (serialize false tx)
  ok tx
