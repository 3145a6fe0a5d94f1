-- ===== src/Tests/Psbt.antt =====
-- A map of one field, the sighash type, with a byte behind it.
use sara_pro.Prelude.{
  ℕ, List, Option, ◌++◌, true, false, ◌+◌, ◌≤◌, ◌≡◌, refl, [], ◌∷◌, some, length, ok,
}
use sara_pro.Bytes.{Bytes, IsBytes, le_value, text_in, text_eq}
use sara_pro.BitcoinTx.CompactSize.{read_compact_size}
use sara_pro.PsbtGuard.{
  max_map_entries, PsbtEntry, read_entry, read_entries, read_map, entries_of, single_of, singleton,
  sighash_of, declared_sighash,
}
use sara_pro.PsbtGuard.Maps.{EntriesRead, read_map-EntriesRead}
use sara_pro.BitcoinTx.Evaluate.{any_input}
use sara_pro.PsbtGuard.Fields.{Hashes}
use sara_pro.PsbtGuard.Parse.{ParsedPsbt, determine_v2_locktime, requirements, u32_or, Requirement}
use sara_pro.PsbtGuard.Whole.{max_psbt_bytes, psbt_magic, parse_psbt_bytes, parse_maps}
use sara_pro.PsbtGuard.Accepted.{Accepted, parse_psbt_bytes-Accepted}
use sara_pro.PsbtGuard.Locktime.{Chosen, determine_v2_locktime-Chosen}
use sara_pro.Tests.Transactions.{raw, tx, parses}
use sara_pro.Tests.{all_bytes, all_bytes→IsBytes}

abbrev bytes : Bytes
bytes = 1 ∷ 3 ∷ 4 ∷ 129 ∷ 0 ∷ 0 ∷ 0 ∷ 0 ∷ 9 ∷ []

abbrev field : PsbtEntry
field = record { key_type = 3; key_data = []; value = 129 ∷ 0 ∷ 0 ∷ 0 ∷ []; raw_key = 3 ∷ [] }

bytes-IsBytes : IsBytes bytes
unfolding all_bytes
bytes-IsBytes = all_bytes→IsBytes bytes refl

is_read : read_map bytes ≡ ok (field ∷ [], 9 ∷ [])
unfolding read_map read_entries read_entry read_compact_size text_in text_eq
is_read = refl

declared : declared_sighash (field ∷ []) ≡ ok (some 129)
unfolding declared_sighash singleton single_of entries_of sighash_of le_value
declared = refl

read_map-EntriesRead_example :
    (length (field ∷ []) ≤ max_map_entries)
    × EntriesRead (max_map_entries + 1) [] bytes (field ∷ []) (9 ∷ [])
read_map-EntriesRead_example = read_map-EntriesRead bytes bytes-IsBytes is_read

abbrev pub no_hashes : Hashes
no_hashes = record { ripemd160 = λ b. []; sha256 = λ b. [] }

-- Version 0 with a transaction of one input and one output, and no fields in their maps.
abbrev pub psbt_bytes : Bytes
psbt_bytes = psbt_magic ++ (1 ∷ 0 ∷ length raw ∷ []) ++ raw ++ (0 ∷ 0 ∷ 0 ∷ [])

abbrev pub psbt : ParsedPsbt
psbt = record {
  version = 0;
  global_map = record { key_type = 0; key_data = []; value = raw; raw_key = 0 ∷ [] } ∷ [];
  input_maps = [] ∷ [];
  output_maps = [] ∷ [];
  transaction = tx;
}

psbt_bytes-IsBytes : IsBytes psbt_bytes
unfolding all_bytes
psbt_bytes-IsBytes = all_bytes→IsBytes psbt_bytes refl

pub psbt_parses : parse_psbt_bytes no_hashes psbt_bytes ≡ ok psbt
unfolding parse_psbt_bytes parse_maps sara_pro.PsbtGuard.Parse.parse_version
    sara_pro.PsbtGuard.Parse.required sara_pro.PsbtGuard.Parse.u32_or
    sara_pro.PsbtGuard.Whole.has_any sara_pro.PsbtGuard.Whole.counts_v0
    sara_pro.PsbtGuard.Whole.read_maps sara_pro.PsbtGuard.Whole.transaction_of
    sara_pro.PsbtGuard.Metadata.validate_common_metadata sara_pro.PsbtGuard.Metadata.check_input_map
    sara_pro.PsbtGuard.Metadata.check_output_map sara_pro.PsbtGuard.Fields.validate_hash_preimages
    sara_pro.PsbtGuard.Fields.validate_partial_signatures
    sara_pro.PsbtGuard.Fields.validate_taproot_fields
    sara_pro.PsbtGuard.Fields.validate_musig2_input_fields
    sara_pro.PsbtGuard.Fields.validate_finalization_exclusivity sara_pro.Prelude.each_of any_input
    read_map read_entries read_entry read_compact_size text_in text_eq singleton single_of
    entries_of sighash_of declared_sighash sara_pro.PsbtGuard.Fields.any_of_types
psbt_parses = rw parses refl

parse_psbt_bytes-Accepted_example :
    (length psbt_bytes ≤ max_psbt_bytes)
    × (xs : Bytes) × (psbt_bytes ≡ psbt_magic ++ xs)
    × Accepted no_hashes xs psbt
parse_psbt_bytes-Accepted_example =
    parse_psbt_bytes-Accepted no_hashes psbt_bytes psbt_bytes-IsBytes psbt_parses

abbrev height_field : PsbtEntry
height_field = record {
  key_type = 0x12;
  key_data = [];
  value = 7 ∷ 0 ∷ 0 ∷ 0 ∷ [];
  raw_key = 0x12 ∷ [];
}

height_chosen : determine_v2_locktime [] ((height_field ∷ []) ∷ [] ∷ []) ≡ ok 7
unfolding determine_v2_locktime requirements u32_or sara_pro.PsbtGuard.Parse.requirement_of
    sara_pro.PsbtGuard.Parse.required_time sara_pro.PsbtGuard.Parse.required_height
    sara_pro.PsbtGuard.Parse.time_values sara_pro.PsbtGuard.Parse.height_values
    sara_pro.PsbtGuard.Parse.time_supported_by_all sara_pro.PsbtGuard.Parse.height_supported_by_all
    sara_pro.PsbtGuard.Parse.maximum sara_pro.PsbtGuard.Parse.choose_locktime
    sara_pro.PsbtGuard.Parse.u32 singleton single_of entries_of le_value
height_chosen = refl

determine_v2_locktime-Chosen_example :
    (entry : Option PsbtEntry) × (fallback : ℕ) × (rs : List Requirement) × (singleton [] 0x03 false
        true
      ≡ ok entry)
    × (u32_or 0 entry ≡ ok fallback)
    × (requirements ((height_field ∷ []) ∷ [] ∷ []) ≡ ok rs)
    × Chosen fallback rs 7
determine_v2_locktime-Chosen_example =
    determine_v2_locktime-Chosen [] ((height_field ∷ []) ∷ [] ∷ []) height_chosen
