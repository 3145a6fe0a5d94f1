-- ===== src/BitcoinTx/RoundTrip/Witnesses.antt =====
-- The witness stacks: one stack, and the loop that attaches a stack to each input.
use sara_pro.Prelude.{
  suc, ◌≤◌, ◌≡◌, refl, sym, ap, subst, List, [], ◌∷◌, ◌++◌, append_assoc, length, map, All, ltb,
  ltb_false→le, le→ltb_false, ok, >>=-eq-ok, >>-eq-ok, ok-injective,
}
use sara_pro.Bytes.{Bytes, IsBytes}
use sara_pro.BitcoinTx.Types.{TxInput, max_vector_items, witness_element_exceeds_bound}
use sara_pro.BitcoinTx.CompactSize.{read_compact_size, encode_compact_size}
use sara_pro.BitcoinTx.CompactSize.Laws.{read_compact_size_sound, read_compact_size-append}
use sara_pro.BitcoinTx.Serialize.{
  emit_all, serialize_input, serialize_counted, serialize_witness, with_length,
}
use sara_pro.BitcoinTx.Parse.{parse_witness, parse_witnesses}
use sara_pro.BitcoinTx.RoundTrip.Codec.{
  Spelled, IsShort, counted-Spelled, rest-IsBytes, read_bounded-IsCodec, read_many_sound,
  read_many-append,
}

-- A stack within the parser's bounds.
pub record IsStack (stack : List Bytes) : Type 0 where
  pub items : All IsShort stack
  pub count : length stack ≤ max_vector_items

parse_witness_sound :
    (xs : Bytes) (p : List Bytes × Bytes)
    → IsBytes xs
    → parse_witness xs ≡ ok p
    → Spelled (serialize_counted with_length) IsStack xs p.0 p.1
unfolding parse_witness
parse_witness_sound xs p bytes h =
    let (q, e1, h1) = >>=-eq-ok (read_compact_size xs) _ h in
    let (few, h2) = >>-eq-ok (ltb max_vector_items q.0) _ _ h1 in
    let (b, printed, split) = read_compact_size_sound xs bytes e1 in
    counted-Spelled with_length (λ l. All IsShort l × (length l ≡ q.0)) IsStack p.0 p.1 q.0 printed
      split
      (read_many_sound (read_bounded-IsCodec witness_element_exceeds_bound) q.0 q.1 p
        (rest-IsBytes b q.1 split bytes) h2)
      (λ (items, len). (len, record { items = items; count = rw len (ltb_false→le _ _ few) }))

parse_witness-append :
    (stack : List Bytes) (bs ys : Bytes)
    → IsStack stack
    → serialize_counted with_length stack ≡ ok bs
    → parse_witness (bs ++ ys) ≡ ok (stack, ys)
unfolding parse_witness serialize_counted
parse_witness-append stack bs ys good h =
    let (b, e1, h1) = >>=-eq-ok (encode_compact_size (length stack)) _ h in
    let (rest, e2, h2) = >>=-eq-ok (emit_all with_length stack) _ h1 in
    rw
      (
        ← ok-injective h2,
        append_assoc b rest ys,
        read_compact_size-append (length stack) (rest ++ ys) e1,
        le→ltb_false _ _ good.count,
      )
      (read_many-append (read_bounded-IsCodec witness_element_exceeds_bound) stack rest ys
        good.items e2)

-- An input before its stack is attached.
abbrev pub bare : TxInput → TxInput
bare t = record t { witness = [] }

abbrev pub HasStack : TxInput → Type 0
HasStack t = IsStack t.witness

-- Inputs with a stack each, over the given inputs.
pub record Witnessed (ins l : List TxInput) : Type 0 where
  pub stacks : All HasStack l
  pub same : map bare l ≡ map bare ins

module _ (t : TxInput) (ins : List TxInput) {xs : Bytes} (stack : List Bytes) (l : List TxInput)
    (ys zs : Bytes) where
  witnesses_round :
      Spelled (serialize_counted with_length) IsStack xs stack ys
      → Spelled (emit_all serialize_witness) (Witnessed ins) ys l zs
      → Spelled
          (emit_all serialize_witness)
          (Witnessed (t ∷ ins))
          xs
          (record t { witness = stack } ∷ l)
          zs
  unfolding emit_all
  witnesses_round (b, printed, split, good) (bs, printed', split', goods) = (
    b ++ bs,
    rw (printed, printed'),
    rw (split, split') (sym (append_assoc b bs zs)),
    record {
      stacks = (good, goods.stacks);
      same = ap (λ (r : List TxInput). bare t ∷ r) goods.same;
    },
  )

pub parse_witnesses_sound :
    (ins : List TxInput) (xs : Bytes) (p : List TxInput × Bytes)
    → IsBytes xs
    → parse_witnesses ins xs ≡ ok p
    → Spelled (emit_all serialize_witness) (Witnessed ins) xs p.0 p.1
unfolding parse_witnesses emit_all
parse_witnesses_sound [] xs p bytes h =
    subst
      (λ (u : List TxInput × Bytes). Spelled (emit_all serialize_witness) (Witnessed []) xs u.0 u.1)
      (ok-injective h) ([], refl, refl, record { stacks = tt; same = refl })
parse_witnesses_sound (t ∷ ins) xs p bytes h =
    let (q, e1, h1) = >>=-eq-ok (parse_witness xs) _ h in
    let (r, e2, h2) = >>=-eq-ok (parse_witnesses ins q.1) _ h1 in
    let first = parse_witness_sound xs q bytes e1 in
    subst
      (λ (u : List TxInput × Bytes).
        Spelled (emit_all serialize_witness) (Witnessed (t ∷ ins)) xs u.0 u.1)
      (ok-injective h2)
      (witnesses_round t ins q.0 r.0 q.1 r.1 first
        (parse_witnesses_sound ins q.1 r (rest-IsBytes first.0 q.1 first.2 bytes) e2))

-- The loop restores the stacks that were printed.
pub parse_witnesses-append :
    (l : List TxInput) (bs ys : Bytes)
    → All HasStack l
    → emit_all serialize_witness l ≡ ok bs
    → parse_witnesses (map bare l) (bs ++ ys) ≡ ok (l, ys)
unfolding parse_witnesses emit_all
parse_witnesses-append [] bs ys good h = rw (← ok-injective h)
parse_witnesses-append (t ∷ l) bs ys good h =
    let (b, e1, h1) = >>=-eq-ok (serialize_counted with_length t.witness) _ h in
    let (rest, e2, h2) = >>=-eq-ok (emit_all serialize_witness l) _ h1 in
    rw (
      ← ok-injective h2,
      append_assoc b rest ys,
      parse_witness-append t.witness b (rest ++ ys) good.0 e1,
      parse_witnesses-append l rest ys good.1 e2,
    )

-- `serialize_input` does not look at the witness.
emit_all-bare :
    (l : List TxInput) → emit_all serialize_input (map bare l) ≡ emit_all serialize_input l
unfolding emit_all serialize_input
emit_all-bare [] = refl
emit_all-bare (t ∷ l) = rw (emit_all-bare l)

pub length-bare : (l : List TxInput) → length (map bare l) ≡ length l
length-bare [] = refl
length-bare (t ∷ l) = ap suc (length-bare l)

pub serialize_counted-bare :
    (l : List TxInput)
    → serialize_counted serialize_input (map bare l) ≡ serialize_counted serialize_input l
unfolding serialize_counted
serialize_counted-bare l = rw (length-bare l, emit_all-bare l)
