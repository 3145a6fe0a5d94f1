-- ===== src/BitcoinTx/Script.antt =====
-- `classify_script_pubkey`: the type of a scriptPubKey, by its length and its fixed bytes.
use sara_pro.Prelude.{
  ℕ, ◌-◌, [], ◌∷◌, Bool, false, ◌&&◌, ◌||◌, length, take, drop, leb, ◌==◌, if◌then◌else◌,
}
use sara_pro.Bytes.{Bytes, Text, text, text_eq}

-- `s[i] == b`; out of range is an IndexError, which the length tests before it exclude
unfoldable pub byte_is : Bytes → ℕ → (ℕ → Bool) → Bool
byte_is [] i test = false
byte_is (b ∷ s) ℕ.zero test = test b
byte_is (b ∷ s) (ℕ.suc i) test = byte_is s i test

-- `s[:len(prefix)] == prefix`
abbrev pub starts : Bytes → Bytes → Bool
starts prefix s = text_eq (take (length prefix) s) prefix

-- `s[-len(suffix):] == suffix`
abbrev pub ends : Bytes → Bytes → Bool
ends suffix s = text_eq (drop (length s - length suffix) s) suffix

abbrev pub is_p2pkh : Bytes → Bool
is_p2pkh s = length s == 25 && starts (0x76 ∷ 0xa9 ∷ 0x14 ∷ []) s && ends (0x88 ∷ 0xac ∷ []) s

abbrev pub is_p2sh : Bytes → Bool
is_p2sh s = length s == 23 && starts (0xa9 ∷ 0x14 ∷ []) s && ends (0x87 ∷ []) s

abbrev pub is_compressed_p2pk : Bytes → Bool
is_compressed_p2pk s =
    length s == 35
    && byte_is s 0 (λ b. b == 33)
    && byte_is s (length s - 1) (λ b. b == 0xAC)
    && byte_is s 1 (λ b. b == 2 || b == 3)

abbrev pub is_uncompressed_p2pk : Bytes → Bool
is_uncompressed_p2pk s =
    length s == 67
    && byte_is s 0 (λ b. b == 65)
    && byte_is s (length s - 1) (λ b. b == 0xAC)
    && byte_is s 1 (λ b. b == 4)

abbrev pub is_multisig : Bytes → Bool
is_multisig s =
    leb 3 (length s)
    && byte_is s (length s - 1) (λ b. b == 0xAE)
    && byte_is s 0 (λ b. leb 0x51 b && leb b 0x60)

unfoldable pub classify_script_pubkey : Bytes → Text
classify_script_pubkey s =
    if is_p2pkh s
    then text "P2PKH"
    else if is_p2sh s
    then text "P2SH"
    else if length s == 22 && starts (0x00 ∷ 0x14 ∷ []) s
    then text "P2WPKH"
    else if length s == 34 && starts (0x00 ∷ 0x20 ∷ []) s
    then text "P2WSH"
    else if length s == 34 && starts (0x51 ∷ 0x20 ∷ []) s
    then text "P2TR"
    else if length s == 34 && starts (0x52 ∷ 0x20 ∷ []) s
    then text "P2MR"
    else if is_compressed_p2pk s
    then text "P2PK"
    else if is_uncompressed_p2pk s
    then text "P2PK"
    else if starts (0x6a ∷ []) s
    then text "OP_RETURN"
    else if is_multisig s
    then text "P2MS"
    else text "UNKNOWN"
