-- ===== src/AddressCodec/Kinds.antt =====
-- The scripts that addresses stand for, and their types in bitcoin_tx.py.
use sara_pro.Prelude.{
  ℕ, ◌+◌, ◌≤◌, ◌≡◌, inl, inr, refl, sym, ap, ◌∙◌, subst, List, [], ◌∷◌, ◌++◌, Bool, true, false,
  ◌&&◌, ◌||◌, not, arith, length, length-append, drop, drop-append_length, ltb, ==_iff, ◌==◌,
  if◌then◌else◌, Bool-cases, negated, either_false, ok, err, ◌>>=◌, ◌>>◌, raise_if, >>=-eq-ok,
  >>-eq-ok, ok-injective, ltb_false→le,
}
use sara_pro.Bytes.{Bytes, Text, CaseTables, text, text_eq, char_in, lower, cut_at}
use sara_pro.QuantumPolicy.Types.{normalized_network}
use sara_pro.BitcoinTx.Script.{classify_script_pubkey}
use sara_pro.AddressCodec.{
  not_bech32, not_bech32m, bech32m_const, wrong_hrp, wrong_prefix, NetworkParams, network_params,
  bits_to_bytes, b58decode_check, base58_script, bech32_decode, witness_script, segwit_script,
  has_hrp, decode_address, address_to_scriptpubkey,
}

-- A witness program of a version from 1 to 16.
pub record WitnessProgram (s : Bytes) : Type 0 where
  pub version : ℕ
  pub program : Bytes
  pub spelled : s ≡ (0x50 + version) ∷ length program ∷ program
  pub version_from : 1 ≤ version
  pub version_to : version ≤ 16
  pub size_from : 2 ≤ length program
  pub size_to : length program ≤ 40

pub data Kind (s : Bytes) : Type 0 where
  pay_to_key_hash : classify_script_pubkey s ≡ text "P2PKH" → Kind s
  pay_to_script_hash : classify_script_pubkey s ≡ text "P2SH" → Kind s
  pay_to_witness_key_hash : classify_script_pubkey s ≡ text "P2WPKH" → Kind s
  pay_to_witness_script_hash : classify_script_pubkey s ≡ text "P2WSH" → Kind s
  pay_to_witness_program : WitnessProgram s → Kind s

-- What stands behind a hash.
drop_hash : (h160 tail : Bytes) (n : ℕ) → length h160 ≡ n → drop n (h160 ++ tail) ≡ tail
drop_hash h160 tail n e =
    ap (λ (k : ℕ). drop k (h160 ++ tail)) (sym e) ∙ drop-append_length h160 tail

classify_key_hash :
    (h160 : Bytes)
    → length h160 ≡ 20
    → classify_script_pubkey (0x76 ∷ 0xa9 ∷ 0x14 ∷ (h160 ++ 0x88 ∷ 0xac ∷ [])) ≡ text "P2PKH"
unfolding classify_script_pubkey text_eq
classify_key_hash h160 e =
    let size : length (h160 ++ 0x88 ∷ 0xac ∷ []) ≡ 22 =
      omega (arith, e, length-append h160 (0x88 ∷ 0xac ∷ [])) in
    rw (size, drop_hash h160 (0x88 ∷ 0xac ∷ []) 20 e) refl

classify_script_hash :
    (h160 : Bytes)
    → length h160 ≡ 20
    → classify_script_pubkey (0xa9 ∷ 0x14 ∷ (h160 ++ 0x87 ∷ [])) ≡ text "P2SH"
unfolding classify_script_pubkey text_eq
classify_script_hash h160 e =
    let size : length (h160 ++ 0x87 ∷ []) ≡ 21 = omega (arith, e, length-append h160 (0x87 ∷ [])) in
    rw (size, drop_hash h160 (0x87 ∷ []) 20 e) refl

classify_witness_key_hash :
    (program : Bytes)
    → length program ≡ 20
    → classify_script_pubkey (0 ∷ length program ∷ program) ≡ text "P2WPKH"
unfolding classify_script_pubkey text_eq
classify_witness_key_hash program e = rw e refl

classify_witness_script_hash :
    (program : Bytes)
    → length program ≡ 32
    → classify_script_pubkey (0 ∷ length program ∷ program) ≡ text "P2WSH"
unfolding classify_script_pubkey text_eq
classify_witness_script_hash program e = rw e refl

module _ (sha256 : Bytes → Bytes) where
  base58_script-Kind :
      (params : NetworkParams) (payload : Bytes) {s : Bytes}
      → base58_script sha256 params payload ≡ ok s
      → Kind s
  unfolding base58_script
  base58_script-Kind params [] h = absurd (cc h)
  base58_script-Kind params (b ∷ h160) h =
      let (size, h1) = >>-eq-ok (not (length h160 == 20)) _ _ h in
      by_prefix (b == params.p2pkh_prefix) (b == params.p2sh_prefix)
        ((==_iff (length h160) 20).0 (negated _ size)) h1
    where
      by_prefix :
          (key script : Bool) {s : Bytes}
          → length h160 ≡ 20
          → (if key
              then ok (0x76 ∷ 0xa9 ∷ 0x14 ∷ (h160 ++ 0x88 ∷ 0xac ∷ []))
              else if script
              then ok (0xa9 ∷ 0x14 ∷ (h160 ++ 0x87 ∷ []))
              else err wrong_prefix)
            ≡ ok s
          → Kind s
      by_prefix true script size e =
          subst Kind (ok-injective e) (pay_to_key_hash (classify_key_hash h160 size))
      by_prefix false true size e =
          subst Kind (ok-injective e) (pay_to_script_hash (classify_script_hash h160 size))
      by_prefix false false size e = absurd (cc e)

  module _ (tables : CaseTables) where
    witness_script-Kind :
        (version encoding : ℕ) (program : Bytes) {s : Bytes}
        → version ≤ 16
        → witness_script sha256 tables version encoding program ≡ ok s
        → Kind s
    unfolding witness_script
    witness_script-Kind version encoding program to h =
        let (size, h1) = >>-eq-ok (ltb (length program) 2 || ltb 40 (length program)) _ _ h in
        let (from, till) = either_false (ltb (length program) 2) (ltb 40 (length program)) size in
        by_version (version == 0) refl (ltb_false→le _ _ from) (ltb_false→le _ _ till) h1
      where
        by_length :
            {s : Bytes}
            → (length program == 20 || length program == 32) ≡ true
            → 0 ∷ length program ∷ program ≡ s
            → Kind s
        by_length sizes e = elim (Bool-cases (length program == 20)) [
          | inl short ↦ subst Kind e (
              pay_to_witness_key_hash
                (classify_witness_key_hash program ((==_iff (length program) 20).0 short)))
          | inr other ↦ subst Kind e (
              pay_to_witness_script_hash (
                classify_witness_script_hash program
                  ((==_iff (length program) 32).0 (rw other at sizes))))
        ]

        by_version :
            (zeroth : Bool) {s : Bytes}
            → (version == 0) ≡ zeroth
            → 2 ≤ length program
            → length program ≤ 40
            → ((if zeroth
                  then raise_if
                      (not (encoding == 1) || not (length program == 20 || length program == 32))
                      not_bech32
                  else raise_if (not (encoding == bech32m_const)) not_bech32m)
                >> ok ((if zeroth then 0 else 0x50 + version) ∷ length program ∷ program))
              ≡ ok s
            → Kind s
        by_version true z from till e =
            let (test, e1) =
              >>-eq-ok (not (encoding == 1) || not (length program == 20 || length program == 32)) _
                _ e in
            let (_, sizes) = either_false (not (encoding == 1)) _ test in
            by_length (negated (length program == 20 || length program == 32) sizes)
              (ok-injective e1)
        by_version false z from till e =
            let (_, e1) = >>-eq-ok (not (encoding == bech32m_const)) _ _ e in
            pay_to_witness_program (record {
              version = version;
              program = program;
              spelled = sym (ok-injective e1);
              version_from = ground (arith, z);
              version_to = to;
              size_from = from;
              size_to = till;
            })

    segwit_script-Kind :
        (encoding : ℕ) (values : List ℕ) {s : Bytes}
        → segwit_script sha256 tables encoding values ≡ ok s
        → Kind s
    unfolding segwit_script
    segwit_script-Kind encoding [] h = absurd (cc h)
    segwit_script-Kind encoding (version ∷ values) h =
        let (to, h1) = >>-eq-ok (ltb 16 version) _ _ h in
        let (program, _, h2) = >>=-eq-ok (bits_to_bytes 0 0 values) _ h1 in
        witness_script-Kind version encoding program (ltb_false→le 16 version to) h2

    decode_address-Kind :
        (address : Text) (params : NetworkParams) {s : Bytes}
        → decode_address sha256 tables address params ≡ ok s
        → Kind s
    unfolding decode_address
    decode_address-Kind address params {s} =
        by_kind (char_in 49 address && has_hrp sha256 tables (cut_at 49 (lower tables address)))
      where
        by_kind :
            (b : Bool)
            → (if b
                then (do
                  (hrp, values, encoding) ← bech32_decode sha256 tables address
                  raise_if (not (text_eq hrp params.hrp)) wrong_hrp
                  segwit_script sha256 tables encoding values)
                else (do
                  payload ← b58decode_check sha256 address
                  base58_script sha256 params payload))
              ≡ ok s
            → Kind s
        by_kind true h =
            let (t, _, h1) = >>=-eq-ok (bech32_decode sha256 tables address) _ h in
            let (_, h2) = >>-eq-ok (not (text_eq t.0 params.hrp)) _ _ h1 in
            segwit_script-Kind t.2 t.1 h2
        by_kind false h =
            let (payload, _, h1) = >>=-eq-ok (b58decode_check sha256 address) _ h in
            base58_script-Kind params payload h1

    -- The script of an accepted address is one that classify_script_pubkey calls P2PKH, P2SH, P2WPKH or
    -- P2WSH, or a witness program of 2 to 40 bytes and of a version from 1 to 16.
    pub address_to_scriptpubkey-Kind :
        (address network : Text) {s : Bytes}
        → address_to_scriptpubkey sha256 tables address network ≡ ok s
        → Kind s
    unfolding address_to_scriptpubkey
    address_to_scriptpubkey-Kind address network h =
        let (params, _, h1) = >>=-eq-ok (network_params (normalized_network tables network)) _ h in
        decode_address-Kind address params h1
