-- ===== src/AddressCodec/Restores.antt =====
-- A script with a hash, its address, and the script of that.
use sara_pro.Prelude.{
  ℕ, ◌≡◌, ◌⊎◌, inl, inr, refl, sym, ap, ◌∙◌, subst, [], ◌∷◌, ◌++◌, All-left, All-right, Bool, true,
  false, ◌&&◌, not, arith, length, Option, none, some, if◌then◌else◌, take, take-append-drop, drop,
  ==_iff, Result, ok, ◌>>=◌, ◌>>◌, raise_if,
}
use sara_pro.Bytes.{
  Bytes, IsByte, IsBytes, Text, CaseTables, text, text_eq, text_in, lower, char_in, cut_at,
}
use sara_pro.QuantumPolicy.Types.{normalized_network}
use sara_pro.QuantumPolicy.Outputs.{is_mainnet}
use sara_pro.BitcoinTx.Script.{is_p2pkh, is_p2sh}
use sara_pro.AddressCodec.{
  AddressError, wrong_hrp, has_hrp, bech32_decode, segwit_script, NetworkParams, network_params,
  b58decode_check, base58_script, decode_address, address_to_scriptpubkey,
}
use sara_pro.AddressCodec.Encode.{leading_ones, b58encode_check, scriptpubkey_to_address}
use sara_pro.AddressCodec.Base58.{b58decode_check-b58encode_check, b58encode_check-three}
use sara_pro.AddressCodec.Forms.{key_hash, script_hash, is_p2pkh-spelled, is_p2sh-spelled}

part-IsBytes : (n m : ℕ) (bs : Bytes) → IsBytes bs → IsBytes (take n (drop m bs))
part-IsBytes n m bs h = All-left IsByte (take n (drop m bs)) (drop n (drop m bs)) (
    subst IsBytes (sym (take-append-drop n (drop m bs)))
      (All-right IsByte (take m bs) (drop m bs) (subst IsBytes (sym (take-append-drop m bs)) h)))

abbrev mainnet : NetworkParams
mainnet = record { hrp = text "bc"; p2pkh_prefix = 0; p2sh_prefix = 5 }

module _ (sha256 : Bytes → Bytes) (tables : CaseTables) where
  -- An address that begins with `1` or `3` is one of Base58.
  decode_address-one :
      (s : Text) (params : NetworkParams)
      → decode_address sha256 tables (49 ∷ s) params
        ≡ (b58decode_check sha256 (49 ∷ s) >>= base58_script sha256 params)
  unfolding decode_address char_in cut_at lower text_in text_eq
  decode_address-one s params = refl

  has_hrp-three :
      (o : Option (Text × Text))
      → has_hrp sha256 tables
          (elim o as (λ _. Option (Text × Text)) [ none ↦ none | some t ↦ some (51 ∷ t.0, t.1) ])
        ≡ false
  unfolding text_in text_eq
  has_hrp-three none = refl
  has_hrp-three (some t) = refl

  is_segwit-three : (s : Text) → has_hrp sha256 tables (cut_at 49 (lower tables (51 ∷ s))) ≡ false
  unfolding cut_at lower
  is_segwit-three s = has_hrp-three (cut_at 49 (lower tables s))

  decode_address-three :
      (s : Text) (params : NetworkParams)
      → decode_address sha256 tables (51 ∷ s) params
        ≡ (b58decode_check sha256 (51 ∷ s) >>= base58_script sha256 params)
  unfolding decode_address
  decode_address-three s params =
      by_test (char_in 49 (51 ∷ s)) (has_hrp sha256 tables (cut_at 49 (lower tables (51 ∷ s))))
        (is_segwit-three s)
    where
      segwit : Result AddressError Bytes
      segwit = do
        (hrp, values, encoding) ← bech32_decode sha256 tables (51 ∷ s)
        raise_if (not (text_eq hrp params.hrp)) wrong_hrp
        segwit_script sha256 tables encoding values

      by_test :
          (a b : Bool)
          → b ≡ false
          → (if a && b
              then segwit
              else (b58decode_check sha256 (51 ∷ s) >>= base58_script sha256 params))
            ≡ (b58decode_check sha256 (51 ∷ s) >>= base58_script sha256 params)
      by_test a true e = absurd (cc e)
      by_test true false e = refl
      by_test false false e = refl

  base58_script-key_hash :
      (params : NetworkParams) (h160 : Bytes)
      → length h160 ≡ 20
      → base58_script sha256 params (params.p2pkh_prefix ∷ h160)
        ≡ ok (0x76 ∷ 0xa9 ∷ 0x14 ∷ (h160 ++ 0x88 ∷ 0xac ∷ []))
  unfolding base58_script
  base58_script-key_hash params h160 size =
      rw ((==_iff (length h160) 20).1 size, (==_iff params.p2pkh_prefix params.p2pkh_prefix).1 refl)
        refl

  base58_script-script_hash :
      (h160 : Bytes)
      → length h160 ≡ 20
      → base58_script sha256 mainnet (5 ∷ h160) ≡ ok (0xa9 ∷ 0x14 ∷ (h160 ++ 0x87 ∷ []))
  unfolding base58_script
  base58_script-script_hash h160 size = rw ((==_iff (length h160) 20).1 size) refl

  -- Decoding of an address that was encoded, by its first character.
  decoded_address :
      (first : ℕ) (s address : Text) (payload script : Bytes)
      → address ≡ first ∷ s
      → b58decode_check sha256 address ≡ ok payload
      → decode_address sha256 tables (first ∷ s) mainnet
        ≡ (b58decode_check sha256 (first ∷ s) >>= base58_script sha256 mainnet)
      → base58_script sha256 mainnet payload ≡ ok script
      → decode_address sha256 tables address mainnet ≡ ok script
  decoded_address first s address payload script e h base58 k =
      ap (λ a. decode_address sha256 tables a mainnet) e
      ∙ base58
      ∙ ap (λ a. b58decode_check sha256 a >>= base58_script sha256 mainnet) (sym e)
      ∙ ap (λ r. r >>= base58_script sha256 mainnet) h
      ∙ k

  -- The address of a script and the script of the address.
  abbrev Restored : Bytes → Text → Type 0
  Restored script network =
      (address : Text) × (scriptpubkey_to_address sha256 tables script network ≡ ok address)
      × (address_to_scriptpubkey sha256 tables address network ≡ ok script)

  b58encode_check-one : (h160 : Bytes) → (s : Text) × (b58encode_check sha256 (0 ∷ h160) ≡ 49 ∷ s)
  unfolding b58encode_check leading_ones
  b58encode_check-one h160 = (_, refl)

  module _ (digest : (b : Bytes) → IsBytes (sha256 b) × (length (sha256 b) ≡ 32)) where
    key_hash-Restored :
        (script : Bytes) (network : Text)
        → IsBytes script
        → is_p2pkh script ≡ true
        → is_mainnet (normalized_network tables network) ≡ true
        → Restored script network
    unfolding scriptpubkey_to_address address_to_scriptpubkey network_params
    key_hash-Restored script network bytes form main =
        let (size, spelled) = is_p2pkh-spelled script form in
        let zero_byte : IsByte 0 = omega arith in
        let (s, one) = b58encode_check-one (key_hash script) in
        let decoded =
          b58decode_check-b58encode_check sha256 (0 ∷ key_hash script) digest
            (zero_byte, part-IsBytes 20 3 script bytes) (omega arith) in
        (
          b58encode_check sha256 (0 ∷ key_hash script),
          rw (main, form) refl,
          rw main (
              decoded_address 49 s _ (0 ∷ key_hash script) script one decoded
                (decode_address-one s mainnet)
                (base58_script-key_hash mainnet (key_hash script) size ∙ ap ok spelled)),
        )

    script_hash-Restored :
        (script : Bytes) (network : Text)
        → IsBytes script
        → is_p2sh script ≡ true
        → is_mainnet (normalized_network tables network) ≡ true
        → Restored script network
    unfolding scriptpubkey_to_address address_to_scriptpubkey network_params
    script_hash-Restored script network bytes form main =
        let (size, other_form, spelled) = is_p2sh-spelled script form in
        let five : IsByte 5 = omega arith in
        let hash_bytes = part-IsBytes 20 2 script bytes in
        let (s, three) = b58encode_check-three sha256 (script_hash script) digest hash_bytes size in
        let decoded =
          b58decode_check-b58encode_check sha256 (5 ∷ script_hash script) digest (five, hash_bytes)
            (omega arith) in
        (
          b58encode_check sha256 (5 ∷ script_hash script),
          rw (main, other_form, form) refl,
          rw main (
              decoded_address 51 s _ (5 ∷ script_hash script) script three decoded
                (decode_address-three s mainnet)
                (base58_script-script_hash (script_hash script) size ∙ ap ok spelled)),
        )

  -- If SHA-256 returns 32 bytes, a script that has the form P2PKH or P2SH has an address for every
  -- mainnet name, and that address stands for the script.
  pub address_to_scriptpubkey-scriptpubkey_to_address :
      (script : Bytes) (network : Text)
      → ((b : Bytes) → IsBytes (sha256 b) × (length (sha256 b) ≡ 32))
      → IsBytes script
      → (is_p2pkh script ≡ true) ⊎ (is_p2sh script ≡ true)
      → is_mainnet (normalized_network tables network) ≡ true
      → (address : Text) × (scriptpubkey_to_address sha256 tables script network ≡ ok address)
        × (address_to_scriptpubkey sha256 tables address network ≡ ok script)
  address_to_scriptpubkey-scriptpubkey_to_address script network digest bytes (inl form) main =
      key_hash-Restored digest script network bytes form main
  address_to_scriptpubkey-scriptpubkey_to_address script network digest bytes (inr form) main =
      script_hash-Restored digest script network bytes form main
