-- ===== src/AddressCodec/Encode.antt =====
-- Scripts to addresses: `scriptpubkey_to_address` of address_codec.py and what it calls.
use sara_pro.Prelude.{
  ℕ, zero, suc, ◌+◌, ◌-◌, ◌*◌, ◌/◌, ◌%◌, ◌^◌, List, [], ◌∷◌, ◌++◌, map, ◌&&◌, ◌||◌, not, length,
  take, drop, ltb, leb, ◌==◌, if◌then◌else◌, Result, ok, err, ◌>>=◌, ◌>>◌, raise_if,
}
use sara_pro.Bytes.{Bytes, Text, CaseTables}
use sara_pro.SignaturePolicy.{big_onto}
use sara_pro.QuantumPolicy.Types.{normalized_network}
use sara_pro.BitcoinTx.Script.{is_p2pkh, is_p2sh}
use sara_pro.AddressCodec.{
  AddressError, unsupported_script, bad_v0_length, charset, base58_alphabet, bech32m_const,
  NetworkParams, network_params, xor_bits, polymod_onto, hrp_expand,
}

-- `alphabet[d]` of a digit below its length
unfoldable pub symbol : ℕ → Text → ℕ
symbol d [] = 0
symbol zero (c ∷ s) = c
symbol (suc d) (c ∷ s) = symbol d s

-- `_convertbits(program, 8, 5, True)`: fewer than 5 bits wait in `acc`, so that each byte gives one value
-- or two.
unfoldable pub bytes_to_bits : ℕ → ℕ → Bytes → List ℕ
bytes_to_bits acc bits [] = if bits == 0 then [] else acc * 2 ^ (5 - bits) % 32 ∷ []
bytes_to_bits acc bits (b ∷ l) =
    let next = (acc * 256 + b) % 4096 in
    let one = bytes_to_bits next (bits + 3) l in
    let two = bytes_to_bits next (bits - 2) l in
    if ltb (bits + 8) 10
    then next / 2 ^ (bits + 3) % 32 ∷ one
    else next / 2 ^ (bits + 3) % 32 ∷ next / 2 ^ (bits - 2) % 32 ∷ two

-- `_bech32_encode`
unfoldable pub bech32_encode : Text → List ℕ → ℕ → Text
bech32_encode hrp data_values const =
    let zeros = 0 ∷ 0 ∷ 0 ∷ 0 ∷ 0 ∷ 0 ∷ [] in
    let pm = xor_bits 32 (polymod_onto 1 (hrp_expand hrp ++ data_values ++ zeros)) const in
    let checksum =
      pm / 2 ^ 25 % 32
      ∷ pm / 2 ^ 20 % 32
      ∷ pm / 2 ^ 15 % 32
      ∷ pm / 2 ^ 10 % 32
      ∷ pm / 2 ^ 5 % 32
      ∷ pm % 32
      ∷ [] in
    hrp ++ 49 ∷ map (λ d. symbol d charset) (data_values ++ checksum)

-- The digits of `n` in front of `rest`, most significant first, of a number below 58 ^ fuel.
unfoldable pub base58_chars : ℕ → ℕ → Text → Text
base58_chars zero n rest = rest
base58_chars (suc fuel) n rest =
    let more = base58_chars fuel (n / 58) (symbol (n % 58) base58_alphabet ∷ rest) in
    if n == 0 then rest else more

-- A `1` for each leading zero byte.
unfoldable pub leading_ones : Bytes → Text
leading_ones [] = []
leading_ones (b ∷ bs) = let rest = leading_ones bs in if b == 0 then 49 ∷ rest else []

module _ (sha256 : Bytes → Bytes) where
  -- `_b58encode_check`; a byte has at most two digits of base 58.
  unfoldable pub b58encode_check : Bytes → Text
  b58encode_check payload =
      let raw = payload ++ take 4 (sha256 (sha256 payload)) in
      leading_ones raw ++ base58_chars (2 * length raw) (big_onto 0 raw) []

  -- The branch of a witness program of the version that `s[0]` stands for.
  unfoldable pub witness_address : NetworkParams → ℕ → Bytes → Result AddressError Text
  witness_address params version program = do
    raise_if (version == 0 && not (length program == 20 || length program == 32)) bad_v0_length
    ok (
        bech32_encode params.hrp (version ∷ bytes_to_bits 0 0 program)
          (if version == 0 then 1 else bech32m_const))

  unfoldable pub program_address : NetworkParams → Bytes → Result AddressError Text
  program_address params (opcode ∷ size ∷ program) = do
    raise_if (not (leb 2 size && leb size 40 && length program == size)) unsupported_script
    if opcode == 0
        then witness_address params 0 program
        else if leb 0x51 opcode && leb opcode 0x60
        then witness_address params (opcode - 0x50) program
        else err unsupported_script
  program_address params _ = err unsupported_script

  -- `scriptpubkey_to_address`
  unfoldable pub scriptpubkey_to_address : CaseTables → Bytes → Text → Result AddressError Text
  scriptpubkey_to_address tables script network = do
    params ← network_params (normalized_network tables network)
    if is_p2pkh script
        then ok (b58encode_check (params.p2pkh_prefix ∷ take 20 (drop 3 script)))
        else if is_p2sh script
        then ok (b58encode_check (params.p2sh_prefix ∷ take 20 (drop 2 script)))
        else program_address params script
