-- ===== src/AddressCodec/Forms.antt =====
-- The parts of scripts of the forms P2PKH and P2SH.
use sara_pro.Prelude.{
  ℕ, ◌-◌, ◌≡◌, refl, sym, ap, ◌∙◌, [], ◌∷◌, ◌++◌, true, false, arith, length, length-append,
  length-take, take, take-append-drop, drop, ◌==◌, ==_iff, both_true,
}
use sara_pro.Bytes.{Bytes, text_eq→eq}
use sara_pro.BitcoinTx.Script.{ends, is_p2pkh, is_p2sh}

-- `script[3:23]`, `script[2:22]`
abbrev pub key_hash : Bytes → Bytes
key_hash script = take 20 (drop 3 script)

abbrev pub script_hash : Bytes → Bytes
script_hash script = take 20 (drop 2 script)

past_key_hash : (s : Bytes) → drop 20 (drop 3 s) ≡ drop 23 s
past_key_hash [] = refl
past_key_hash (a ∷ []) = refl
past_key_hash (a ∷ b ∷ []) = refl
past_key_hash (a ∷ b ∷ c ∷ s) = refl

past_script_hash : (s : Bytes) → drop 20 (drop 2 s) ≡ drop 22 s
past_script_hash [] = refl
past_script_hash (a ∷ []) = refl
past_script_hash (a ∷ b ∷ s) = refl

pub is_p2pkh-spelled :
    (script : Bytes)
    → is_p2pkh script ≡ true
    → (length (key_hash script) ≡ 20)
      × (0x76 ∷ 0xa9 ∷ 0x14 ∷ (key_hash script ++ 0x88 ∷ 0xac ∷ []) ≡ script)
is_p2pkh-spelled script h =
    let (front, last) = both_true _ (ends (0x88 ∷ 0xac ∷ []) script) h in
    let (sized, first) = both_true (length script == 25) _ front in
    let size = (==_iff (length script) 25).0 sized in
    let head : take 3 script ≡ 0x76 ∷ 0xa9 ∷ 0x14 ∷ [] = text_eq→eq _ _ first in
    let tail : drop (length script - 2) script ≡ 0x88 ∷ 0xac ∷ [] = text_eq→eq _ _ last in
    let split = take-append-drop 3 script in
    let others : length (drop 3 script) ≡ 22 = omega (
      arith,
      size,
      ap length split,
      length-append (take 3 script) (drop 3 script),
      ap length head,
    ) in
    let at : length script - 2 ≡ 23 = omega (arith, size) in
    let behind : drop 20 (drop 3 script) ≡ 0x88 ∷ 0xac ∷ [] =
      past_key_hash script ∙ ap (λ (k : ℕ). drop k script) (sym at) ∙ tail in
    (
      length-take 20 (drop 3 script) (omega (arith, others)),
      sym (
          sym split
          ∙ ap (λ l. l ++ drop 3 script) head
          ∙ ap (λ l. 0x76 ∷ 0xa9 ∷ 0x14 ∷ l)
              (sym (take-append-drop 20 (drop 3 script)) ∙ ap (λ l. key_hash script ++ l) behind)),
    )

pub is_p2sh-spelled :
    (script : Bytes)
    → is_p2sh script ≡ true
    → (length (script_hash script) ≡ 20)
      × (is_p2pkh script ≡ false)
      × (0xa9 ∷ 0x14 ∷ (script_hash script ++ 0x87 ∷ []) ≡ script)
is_p2sh-spelled script h =
    let (front, last) = both_true _ (ends (0x87 ∷ []) script) h in
    let (sized, first) = both_true (length script == 23) _ front in
    let size = (==_iff (length script) 23).0 sized in
    let head : take 2 script ≡ 0xa9 ∷ 0x14 ∷ [] = text_eq→eq _ _ first in
    let tail : drop (length script - 1) script ≡ 0x87 ∷ [] = text_eq→eq _ _ last in
    let split = take-append-drop 2 script in
    let others : length (drop 2 script) ≡ 21 = omega (
      arith,
      size,
      ap length split,
      length-append (take 2 script) (drop 2 script),
      ap length head,
    ) in
    let at : length script - 1 ≡ 22 = omega (arith, size) in
    let behind : drop 20 (drop 2 script) ≡ 0x87 ∷ [] =
      past_script_hash script ∙ ap (λ (k : ℕ). drop k script) (sym at) ∙ tail in
    (
      length-take 20 (drop 2 script) (omega (arith, others)),
      rw size refl,
      sym (
          sym split
          ∙ ap (λ l. l ++ drop 2 script) head
          ∙ ap (λ l. 0xa9 ∷ 0x14 ∷ l)
              (sym (take-append-drop 20 (drop 2 script))
                ∙ ap (λ l. script_hash script ++ l) behind)),
    )
