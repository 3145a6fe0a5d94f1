-- ===== src/AddressCodec/Networks.antt =====
-- Addresses belong to one kind of network.
use sara_pro.Prelude.{
  ℕ, ◌≡◌, ◌⊎◌, refl, sym, ap, ◌∙◌, subst, [], ◌∷◌, Bool, true, false, ◌&&◌, not, arith, length,
  ◌==◌, ==_iff, if◌then◌else◌, Bool-cases, inl, inr, negated, Result, ok, ◌>>=◌, ◌>>◌, raise_if,
  >>=-eq-ok, >>-eq-ok, ok-injective,
}
use sara_pro.Bytes.{
  Bytes, Text, CaseTables, text, text_eq, text_eq→eq, text_in, char_in, lower, cut_at,
}
use sara_pro.QuantumPolicy.Types.{normalized_network}
use sara_pro.QuantumPolicy.Outputs.{is_mainnet}
use sara_pro.AddressCodec.{
  AddressError, wrong_hrp, NetworkParams, network_params, b58decode_check, base58_script,
  bech32_decode, segwit_script, has_hrp, decode_address, address_to_scriptpubkey,
}

-- Parameters that no address fits both of.
record Apart (p q : NetworkParams) : Type 0 where
  hrps : (t : Text) → t ≡ p.hrp → ¬ (t ≡ q.hrp)
  prefixes :
      (b : ℕ)
      → (b ≡ p.p2pkh_prefix) ⊎ (b ≡ p.p2sh_prefix)
      → ¬ ((b ≡ q.p2pkh_prefix) ⊎ (b ≡ q.p2sh_prefix))

base58_script-prefix :
    (sha256 : Bytes → Bytes) (params : NetworkParams) (payload : Bytes) {s : Bytes}
    → base58_script sha256 params payload ≡ ok s
    → (b : ℕ) × (rest : Bytes) × (payload ≡ b ∷ rest)
      × ((b ≡ params.p2pkh_prefix) ⊎ (b ≡ params.p2sh_prefix))
unfolding base58_script
base58_script-prefix sha256 params [] h = absurd (cc h)
base58_script-prefix sha256 params (b ∷ rest) h =
    let (_, h1) = >>-eq-ok (not (length rest == 20)) _ _ h in
    elim (Bool-cases (b == params.p2pkh_prefix)) [
      | inl first ↦ (b, rest, refl, inl ((==_iff b params.p2pkh_prefix).0 first))
      | inr other ↦ elim (Bool-cases (b == params.p2sh_prefix)) [
        | inl second ↦ (b, rest, refl, inr ((==_iff b params.p2sh_prefix).0 second))
        | inr neither ↦ absurd (cc (rw (other, neither) at h1))
      ]
    ]

module _ (sha256 : Bytes → Bytes) (tables : CaseTables) where
  decode_address-Apart :
      (address : Text) (p q : NetworkParams) {s t : Bytes}
      → Apart p q
      → decode_address sha256 tables address p ≡ ok s
      → ¬ (decode_address sha256 tables address q ≡ ok t)
  unfolding decode_address
  decode_address-Apart address p q {s} {t} apart =
      by_kind (char_in 49 address && has_hrp sha256 tables (cut_at 49 (lower tables address)))
    where
      segwit : NetworkParams → Result AddressError Bytes
      segwit params = do
        (hrp, values, encoding) ← bech32_decode sha256 tables address
        raise_if (not (text_eq hrp params.hrp)) wrong_hrp
        segwit_script sha256 tables encoding values

      base58 : NetworkParams → Result AddressError Bytes
      base58 params = do
        payload ← b58decode_check sha256 address
        base58_script sha256 params payload

      by_kind :
          (b : Bool)
          → (if b then segwit p else base58 p) ≡ ok s
          → ¬ ((if b then segwit q else base58 q) ≡ ok t)
      by_kind true h k =
          let (c, e, h1) = >>=-eq-ok (bech32_decode sha256 tables address) _ h in
          let (f, _) = >>-eq-ok (not (text_eq c.0 p.hrp)) _ _ h1 in
          let (d, e', k1) = >>=-eq-ok (bech32_decode sha256 tables address) _ k in
          let (g, _) = >>-eq-ok (not (text_eq d.0 q.hrp)) _ _ k1 in
          let same = ap (λ u. u.0) (ok-injective (sym e ∙ e')) in
          apart.hrps c.0 (text_eq→eq c.0 p.hrp (negated _ f))
            (same ∙ text_eq→eq d.0 q.hrp (negated _ g))
      by_kind false h k =
          let (x, e, h1) = >>=-eq-ok (b58decode_check sha256 address) _ h in
          let (y, e', k1) = >>=-eq-ok (b58decode_check sha256 address) _ k in
          let (b, bs, u, m) = base58_script-prefix sha256 p x h1 in
          let (c, cs, v, n) = base58_script-prefix sha256 q y k1 in
          let same : b ≡ c = heads (sym u ∙ ok-injective (sym e ∙ e') ∙ v) in
          apart.prefixes b m
            (subst (λ (z : ℕ). (z ≡ q.p2pkh_prefix) ⊎ (z ≡ q.p2sh_prefix)) (sym same) n)
        where
          heads : {b c : ℕ} {bs cs : Bytes} → ◌≡◌ {A = Bytes} (b ∷ bs) (c ∷ cs) → b ≡ c
          heads e = cc e

  foreign_params :
      (n : Text) {q : NetworkParams}
      → is_mainnet n ≡ false
      → network_params n ≡ ok q
      → (q.p2pkh_prefix ≡ 0x6F)
        × (q.p2sh_prefix ≡ 0xC4)
        × ((q.hrp ≡ text "tb") ⊎ (q.hrp ≡ text "bcrt"))
  unfolding network_params
  foreign_params n {q} m h =
      elim (Bool-cases
        (text_in n (text "TESTNET" ∷ text "TESTNET3" ∷ text "TESTNET4" ∷ text "SIGNET" ∷ []))) [
          | inl test ↦ subst Kind (ok-injective (rw (m, test) at h)) (refl, refl, inl refl)
          | inr other ↦ elim (Bool-cases (text_eq n (text "REGTEST"))) [
            | inl regtest ↦
                subst Kind (ok-injective (rw (m, other, regtest) at h)) (refl, refl, inr refl)
            | inr unknown ↦ absurd (cc (rw (m, other, unknown) at h))
          ]
        ]
    where
      Kind : NetworkParams → Type 0
      Kind t =
          (t.p2pkh_prefix ≡ 0x6F)
          × (t.p2sh_prefix ≡ 0xC4)
          × ((t.hrp ≡ text "tb") ⊎ (t.hrp ≡ text "bcrt"))

  abbrev mainnet_params : NetworkParams
  mainnet_params = record { hrp = text "bc"; p2pkh_prefix = 0x00; p2sh_prefix = 0x05 }

  foreign-Apart :
      (q : NetworkParams)
      → q.p2pkh_prefix ≡ 0x6F
      → q.p2sh_prefix ≡ 0xC4
      → (q.hrp ≡ text "tb") ⊎ (q.hrp ≡ text "bcrt")
      → Apart mainnet_params q
  unfolding text_eq
  foreign-Apart q a b c = record {
    hrps = λ t e f. other_hrp (sym e ∙ f) c;
    prefixes = λ x m n. other_prefix x m n;
  }
    where
      other_hrp : text "bc" ≡ q.hrp → ¬ ((q.hrp ≡ text "tb") ⊎ (q.hrp ≡ text "bcrt"))
      other_hrp e (inl f) = cc (ap (text_eq (text "bc")) (e ∙ f))
      other_hrp e (inr f) = cc (ap (text_eq (text "bc")) (e ∙ f))

      other_prefix :
          (x : ℕ) → (x ≡ 0x00) ⊎ (x ≡ 0x05) → ¬ ((x ≡ q.p2pkh_prefix) ⊎ (x ≡ q.p2sh_prefix))
      other_prefix x (inl e) (inl f) = omega (arith, e, f, a)
      other_prefix x (inl e) (inr f) = omega (arith, e, f, b)
      other_prefix x (inr e) (inl f) = omega (arith, e, f, a)
      other_prefix x (inr e) (inr f) = omega (arith, e, f, b)

  -- An address that is accepted for a mainnet name is refused for every name that is not one.
  pub address_to_scriptpubkey-mainnet :
      (address main other : Text) {s t : Bytes}
      → is_mainnet (normalized_network tables main) ≡ true
      → is_mainnet (normalized_network tables other) ≡ false
      → address_to_scriptpubkey sha256 tables address main ≡ ok s
      → ¬ (address_to_scriptpubkey sha256 tables address other ≡ ok t)
  unfolding address_to_scriptpubkey network_params
  address_to_scriptpubkey-mainnet address main other {s} m n h k =
      let (p, e, h1) = >>=-eq-ok (network_params (normalized_network tables main)) _ h in
      let (q, f, k1) = >>=-eq-ok (network_params (normalized_network tables other)) _ k in
      let (a, b, c) = foreign_params (normalized_network tables other) n f in
      let same : mainnet_params ≡ p = ok-injective (rw m at e) in
      decode_address-Apart address mainnet_params q (foreign-Apart q a b c)
        (subst (λ (u : NetworkParams). decode_address sha256 tables address u ≡ ok s) (sym same) h1)
        k1
