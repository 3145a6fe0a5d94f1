-- ===== src/AddressCodec.antt =====
-- Addresses to scripts, research/qcrypto_tsv/v3_6/worldshepherd_qcrypto_kms/address_codec.py, in the
-- direction of decoding. SHA-256 and Python's case tables are parameters.
pub mod Networks
pub mod Kinds
pub mod Encode
pub mod Base58
pub mod Forms
pub mod Restores
use sara_pro.Prelude.{
  ℕ, zero, suc, ◌+◌, ◌-◌, ◌*◌, ◌/◌, ◌%◌, ◌^◌, ◌<◌, ◌≡◌, List, [], ◌∷◌, ◌++◌, map, Option, none,
  some, Bool, true, false, ◌&&◌, ◌||◌, not, arith, length, take, drop, ltb, leb, ◌==◌,
  if◌then◌else◌, Bool-cases, inl, inr, Result, ok, err, ◌>>=◌, ◌>>◌, raise_if, or_raise,
}
use sara_pro.Bytes.{
  Bytes, Text, CaseTables, text, text_eq, text_in, char_in, is_empty, lower, upper, cut_at,
}
use sara_pro.QuantumPolicy.Types.{normalized_network}
use sara_pro.QuantumPolicy.Outputs.{is_mainnet}

-- An AddressCodecError by its message.
pub data AddressError : Type 0 where
  unsupported_network bad_length mixed_case bad_separator bad_character bad_checksum : AddressError
  bad_padding wrong_hrp no_version bad_version bad_program_length : AddressError
  not_bech32 not_bech32m empty_address bad_base58 too_short bad_base58_checksum : AddressError
  bad_payload wrong_prefix unsupported_script bad_v0_length : AddressError

abbrev pub charset : Text
charset = text "qpzry9x8gf2tvdw0s3jn54khce6mua7l"

abbrev pub base58_alphabet : Text
base58_alphabet = text "123456789ABCDEFGHJKLMNPQRSTUVWXYZabcdefghijkmnopqrstuvwxyz"

abbrev pub bech32m_const : ℕ
bech32m_const = 0x2BC830A3

pub record NetworkParams : Type 0 where
  pub hrp : Text
  pub p2pkh_prefix : ℕ
  pub p2sh_prefix : ℕ

-- `_network_params` of the normalized name
unfoldable pub network_params : Text → Result AddressError NetworkParams
network_params n =
    if is_mainnet n
    then ok (record { hrp = text "bc"; p2pkh_prefix = 0x00; p2sh_prefix = 0x05 })
    else if text_in n (text "TESTNET" ∷ text "TESTNET3" ∷ text "TESTNET4" ∷ text "SIGNET" ∷ [])
    then ok (record { hrp = text "tb"; p2pkh_prefix = 0x6F; p2sh_prefix = 0xC4 })
    else if text_eq n (text "REGTEST")
    then ok (record { hrp = text "bcrt"; p2pkh_prefix = 0x6F; p2sh_prefix = 0xC4 })
    else err unsupported_network

-- `a ^ b` of numbers below 2 ^ width
unfoldable pub xor_bits : ℕ → ℕ → ℕ → ℕ
xor_bits zero a b = 0
xor_bits (suc width) a b = 2 * xor_bits width (a / 2) (b / 2) + (a % 2 + b % 2) % 2

-- The inner loop of `_polymod`, on the bits of `top`.
unfoldable pub add_generators : ℕ → List ℕ → ℕ → ℕ
add_generators top [] chk = chk
add_generators top (g ∷ l) chk =
    add_generators (top / 2) l (if top % 2 == 1 then xor_bits 32 chk g else chk)

abbrev pub generators : List ℕ
generators = 0x3B6A57B2 ∷ 0x26508E6D ∷ 0x1EA119FA ∷ 0x3D4233DD ∷ 0x2A1462B3 ∷ []

unfoldable pub polymod_onto : ℕ → List ℕ → ℕ
polymod_onto chk [] = chk
polymod_onto chk (v ∷ l) =
    polymod_onto (add_generators (chk / 2 ^ 25) generators (xor_bits 32 (chk % 2 ^ 25 * 32) v)) l

-- `_hrp_expand`
abbrev pub hrp_expand : Text → List ℕ
hrp_expand hrp = map (λ c. c / 32) hrp ++ 0 ∷ map (λ c. c % 32) hrp

-- `_CHARSET_REV[c]`, `_BASE58.index(c)`
unfoldable pub index_of : ℕ → Text → Option ℕ
index_of c [] = none
index_of c (d ∷ s) =
    let rest = elim (index_of c s) as (λ _. Option ℕ) [ none ↦ none | some i ↦ some (suc i) ] in
    if c == d then some 0 else rest

unfoldable pub indexes_of : Text → Text → Option (List ℕ)
indexes_of alphabet [] = some []
indexes_of alphabet (c ∷ s) = elim (index_of c alphabet) [
  | none ↦ none
  | some i ↦ elim (indexes_of alphabet s) [ none ↦ none | some l ↦ some (i ∷ l) ]
]

-- What stands before and behind the last `1`.
unfoldable pub cut_last : Text → Option (Text × Text)
cut_last [] = none
cut_last (c ∷ s) = elim (cut_last s) [
  | some t ↦ some (c ∷ t.0, t.1)
  | none ↦ if c == 49 then some ([], s) else none
]

-- `_convertbits(values, 5, 8, False)`: fewer than 8 bits wait in `acc`, so that each value gives at most
-- one byte.
unfoldable pub bits_to_bytes : ℕ → ℕ → List ℕ → Result AddressError Bytes
bits_to_bytes acc bits [] = do
  raise_if (leb 5 bits || not (acc * 2 ^ (8 - bits) % 256 == 0)) bad_padding
  ok []
bits_to_bytes acc bits (v ∷ l) =
    let next = (acc * 32 + v) % 4096 in
    let short = bits_to_bytes next (bits + 5) l in
    let long = bits_to_bytes next (bits - 3) l in
    if ltb (bits + 5) 8 then short else (do rest ← long; ok (next / 2 ^ (bits - 3) % 256 ∷ rest))

-- The bytes of `n` in front of `rest`, most significant first, of a number below 256 ^ fuel.
unfoldable pub big_bytes : ℕ → ℕ → Bytes → Bytes
big_bytes zero n rest = rest
big_bytes (suc fuel) n rest =
    let more = big_bytes fuel (n / 256) (n % 256 ∷ rest) in if n == 0 then rest else more

unfoldable pub base58_value : ℕ → List ℕ → ℕ
base58_value acc [] = acc
base58_value acc (d ∷ l) = base58_value (acc * 58 + d) l

-- A zero byte for each leading `1`.
unfoldable pub leading_zeros : Text → Bytes
leading_zeros [] = []
leading_zeros (c ∷ s) = let rest = leading_zeros s in if c == 49 then 0 ∷ rest else []

module _ (sha256 : Bytes → Bytes) where
  -- `_b58decode_check`; n digits of base 58 are less than 256 ^ n.
  unfoldable pub b58decode_check : Text → Result AddressError Bytes
  b58decode_check address = do
    raise_if (is_empty address) empty_address
    digits ← or_raise (indexes_of base58_alphabet address) bad_base58
    let raw = leading_zeros address ++ big_bytes (length address) (base58_value 0 digits) []
    raise_if (ltb (length raw) 5) too_short
    let payload = take (length raw - 4) raw
    raise_if (not (text_eq (drop (length raw - 4) raw) (take 4 (sha256 (sha256 payload)))))
        bad_base58_checksum
    ok payload

  unfoldable pub base58_script : NetworkParams → Bytes → Result AddressError Bytes
  base58_script params [] = err bad_payload
  base58_script params (prefix ∷ h160) = do
    raise_if (not (length h160 == 20)) bad_payload
    if prefix == params.p2pkh_prefix
        then ok (0x76 ∷ 0xa9 ∷ 0x14 ∷ (h160 ++ 0x88 ∷ 0xac ∷ []))
        else if prefix == params.p2sh_prefix
        then ok (0xa9 ∷ 0x14 ∷ (h160 ++ 0x87 ∷ []))
        else err wrong_prefix

  module _ (tables : CaseTables) where
    unfoldable pub split_bech32 : Option (Text × Text) → Result AddressError (Text × Text)
    split_bech32 none = err bad_separator
    split_bech32 (some (hrp, rest)) = do
      raise_if (is_empty hrp || ltb (length rest) 6) bad_separator
      ok (hrp, rest)

    -- `_bech32_decode`
    unfoldable pub bech32_decode : Text → Result AddressError (Text × List ℕ × ℕ)
    bech32_decode address = do
      raise_if (ltb (length address) 8 || ltb 90 (length address)) bad_length
      raise_if
          (not (text_eq (lower tables address) address)
            && not (text_eq (upper tables address) address))
          mixed_case
      (hrp, rest) ← split_bech32 (cut_last (lower tables address))
      values ← or_raise (indexes_of charset rest) bad_character
      let pm = polymod_onto 1 (hrp_expand hrp ++ values)
      raise_if (not (pm == 1) && not (pm == bech32m_const)) bad_checksum
      ok (hrp, take (length values - 6) values, pm)

    unfoldable pub witness_script : ℕ → ℕ → Bytes → Result AddressError Bytes
    witness_script version encoding program = do
      raise_if (ltb (length program) 2 || ltb 40 (length program)) bad_program_length
      if version == 0
          then raise_if (not (encoding == 1) || not (length program == 20 || length program == 32))
              not_bech32
          else raise_if (not (encoding == bech32m_const)) not_bech32m
      ok ((if version == 0 then 0 else 0x50 + version) ∷ length program ∷ program)

    unfoldable pub segwit_script : ℕ → List ℕ → Result AddressError Bytes
    segwit_script encoding [] = err no_version
    segwit_script encoding (version ∷ values) = do
      raise_if (ltb 16 version) bad_version
      program ← bits_to_bytes 0 0 values
      witness_script version encoding program

    -- `address.lower().split("1", 1)[0]` is a prefix of SegWit addresses.
    abbrev pub has_hrp : Option (Text × Text) → Bool
    has_hrp none = false
    has_hrp (some (hrp, rest)) = text_in hrp (text "bc" ∷ text "tb" ∷ text "bcrt" ∷ [])

    unfoldable pub decode_address : Text → NetworkParams → Result AddressError Bytes
    decode_address address params =
        if char_in 49 address && has_hrp (cut_at 49 (lower tables address))
        then (do
          (hrp, values, encoding) ← bech32_decode address
          raise_if (not (text_eq hrp params.hrp)) wrong_hrp
          segwit_script encoding values)
        else (do payload ← b58decode_check address; base58_script params payload)

    -- `address_to_scriptpubkey`
    unfoldable pub address_to_scriptpubkey : Text → Text → Result AddressError Bytes
    address_to_scriptpubkey address network = do
      params ← network_params (normalized_network tables network)
      decode_address address params
