-- ===== src/BitcoinTx/RoundTrip/Codec.antt =====
-- What it means that a reader and a printer belong together, and that loops keep it.
use sara_pro.Prelude.{
  ℕ, zero, suc, ◌≤◌, ◌≡◌, refl, sym, ap, subst, List, [], ◌∷◌, ◌++◌, append_assoc, false, length,
  All, All-right, All-left, ltb, ltb_false→le, le→ltb_false, Result, ok, >>=-eq-ok, >>-eq-ok,
  ok-injective, or_raise-eq-ok,
}
use sara_pro.Bytes.{Bytes, IsBytes, le_value, to_bytes-le_value, to_bytes-eq-some}
use sara_pro.BitcoinTx.Types.{TxError, max_script_bytes}
use sara_pro.BitcoinTx.CompactSize.{read_compact_size, encode_compact_size, read_slice}
use sara_pro.BitcoinTx.CompactSize.Laws.{
  read_compact_size_sound, read_compact_size-append, read_slice_sound, read_slice-append,
}
use sara_pro.BitcoinTx.Serialize.{emit_all, serialize_counted, with_length, int_bytes}
use sara_pro.BitcoinTx.Parse.{Reader, read_many, read_bounded}

-- The bytes in front of `ys` are those that `emit a` prints, and `a` is as `IsOk` says.
abbrev pub Spelled :
    {A : Type 0} → (A → Result TxError Bytes) → (A → Type 0) → Bytes → A → Bytes → Type 0
Spelled emit IsOk xs a ys = (bs : Bytes) × (emit a ≡ ok bs) × (xs ≡ bs ++ ys) × IsOk a

pub record IsCodec {A : Type 0} (read : Reader A) (emit : A → Result TxError Bytes)
    (IsOk : A → Type 0) : Type 0 where
  pub sound :
      (xs : Bytes) (p : A × Bytes) → IsBytes xs → read xs ≡ ok p → Spelled emit IsOk xs p.0 p.1
  pub complete : (a : A) (bs ys : Bytes) → IsOk a → emit a ≡ ok bs → read (bs ++ ys) ≡ ok (a, ys)

pub rest-IsBytes : {xs : Bytes} (bs ys : Bytes) → xs ≡ bs ++ ys → IsBytes xs → IsBytes ys
rest-IsBytes bs ys e h = All-right _ bs ys (subst IsBytes e h)

pub front-IsBytes : {xs : Bytes} (bs ys : Bytes) → xs ≡ bs ++ ys → IsBytes xs → IsBytes bs
front-IsBytes bs ys e h = All-left _ bs ys (subst IsBytes e h)

-- The loops: `n` rounds of a reader belong with the printing of `n` elements.
module _ {A : Type 0} {read : Reader A} {emit : A → Result TxError Bytes} {IsOk : A → Type 0}
    (codec : IsCodec read emit IsOk) where
  -- One round and the rounds behind it.
  round :
      (n : ℕ) {xs : Bytes} {a : A} (l : List A) (ys zs : Bytes)
      → Spelled emit IsOk xs a ys
      → Spelled (emit_all emit) (λ l. All IsOk l × (length l ≡ n)) ys l zs
      → Spelled (emit_all emit) (λ l. All IsOk l × (length l ≡ suc n)) xs (a ∷ l) zs
  unfolding emit_all
  round n l ys zs (b, printed, split, good) (bs, printed', split', (goods, len)) = (
    b ++ bs,
    rw (printed, printed'),
    rw (split, split') (sym (append_assoc b bs zs)),
    ((good, goods), ap suc len),
  )

  pub read_many_sound :
      (n : ℕ) (xs : Bytes) (p : List A × Bytes)
      → IsBytes xs
      → read_many read n xs ≡ ok p
      → Spelled (emit_all emit) (λ l. All IsOk l × (length l ≡ n)) xs p.0 p.1
  unfolding read_many emit_all
  read_many_sound zero xs p bytes h =
      subst
        (λ (u : List A × Bytes).
          Spelled (emit_all emit) (λ l. All IsOk l × (length l ≡ 0)) xs u.0 u.1)
        (ok-injective h) ([], refl, refl, (tt, refl))
  read_many_sound (suc n) xs p bytes h =
      let (q, e1, h1) = >>=-eq-ok (read xs) _ h in
      let (r, e2, h2) = >>=-eq-ok (read_many read n q.1) _ h1 in
      let first = codec.sound xs q bytes e1 in
      subst
        (λ (u : List A × Bytes).
          Spelled (emit_all emit) (λ l. All IsOk l × (length l ≡ suc n)) xs u.0 u.1)
        (ok-injective h2)
        (round n r.0 q.1 r.1 first
          (read_many_sound n q.1 r (rest-IsBytes first.0 q.1 first.2 bytes) e2))

  pub read_many-append :
      (l : List A) (bs ys : Bytes)
      → All IsOk l
      → emit_all emit l ≡ ok bs
      → read_many read (length l) (bs ++ ys) ≡ ok (l, ys)
  unfolding read_many emit_all
  read_many-append [] bs ys good h = rw (← ok-injective h)
  read_many-append (a ∷ l) bs ys good h =
      let (b, e1, h) = >>=-eq-ok (emit a) _ h in
      let (rest, e2, h) = >>=-eq-ok (emit_all emit l) _ h in
      rw (
        ← ok-injective h,
        append_assoc b rest ys,
        codec.complete a b (rest ++ ys) good.0 e1,
        read_many-append l rest ys good.1 e2,
      )

-- A count in front of the elements.
module _ {A : Type 0} (emit : A → Result TxError Bytes) (P Q : List A → Type 0)
    {xs x1 b : Bytes} where
  pub counted-Spelled :
      (l : List A) (ys : Bytes) (n : ℕ)
      → encode_compact_size n ≡ ok b
      → xs ≡ b ++ x1
      → Spelled (emit_all emit) P x1 l ys
      → (P l → (length l ≡ n) × Q l)
      → Spelled (serialize_counted emit) Q xs l ys
  unfolding serialize_counted
  counted-Spelled l ys n printed split (bs, items, split', good) keep = (
    b ++ bs,
    rw ((keep good).0, printed, items),
    rw (split, split') (sym (append_assoc b bs ys)),
    (keep good).1,
  )

abbrev pub IsShort : Bytes → Type 0
IsShort item = length item ≤ max_script_bytes

-- A length and that many bytes.
read_bounded_sound :
    (e : TxError) (xs : Bytes) (p : Bytes × Bytes)
    → IsBytes xs
    → read_bounded e xs ≡ ok p
    → Spelled with_length IsShort xs p.0 p.1
unfolding read_bounded
read_bounded_sound e xs p bytes h =
    let (q, e1, h1) = >>=-eq-ok (read_compact_size xs) _ h in
    let (short, h2) = >>-eq-ok (ltb max_script_bytes q.0) _ _ h1 in
    let (b, printed, split) = read_compact_size_sound xs bytes e1 in
    let (split', n) = read_slice_sound q.1 q.0 h2 in bounded q.0 q.1 printed split short split' n
  where
    bounded :
        (k : ℕ) (x1 : Bytes) {b : Bytes}
        → encode_compact_size k ≡ ok b
        → xs ≡ b ++ x1
        → ltb max_script_bytes k ≡ false
        → x1 ≡ p.0 ++ p.1
        → length p.0 ≡ k
        → Spelled with_length IsShort xs p.0 p.1
    bounded k x1 {b} printed split short split' n = (
      b ++ p.0,
      unfold with_length in rw (n, printed),
      rw (split, split') (sym (append_assoc b p.0 p.1)),
      rw n (ltb_false→le _ _ short),
    )

read_bounded-append :
    (e : TxError) (a bs ys : Bytes)
    → IsShort a
    → with_length a ≡ ok bs
    → read_bounded e (bs ++ ys) ≡ ok (a, ys)
unfolding read_bounded with_length
read_bounded-append e a bs ys good h =
    let (b, printed, h1) = >>=-eq-ok (encode_compact_size (length a)) _ h in
    rw (
      ← ok-injective h1,
      append_assoc b a ys,
      read_compact_size-append (length a) (a ++ ys) printed,
      le→ltb_false _ _ good,
      read_slice-append a ys,
    )

pub read_bounded-IsCodec : (e : TxError) → IsCodec (read_bounded e) with_length IsShort
read_bounded-IsCodec e = record { sound = read_bounded_sound e; complete = read_bounded-append e }

-- A fixed number of bytes, read as an unsigned integer.
pub slice_int_sound :
    (w : ℕ) (xs : Bytes) {raw ys : Bytes}
    → IsBytes xs
    → read_slice xs w ≡ ok (raw, ys)
    → (int_bytes w (le_value raw) ≡ ok raw) × (xs ≡ raw ++ ys) × IsBytes ys
slice_int_sound w xs bytes h =
    let (split, n) = read_slice_sound xs w h in
    (
      rw (to_bytes-le_value w _ (front-IsBytes _ _ split bytes) n),
      split,
      rest-IsBytes _ _ split bytes,
    )

pub slice_int-append :
    (w v : ℕ) {bs : Bytes} (ys : Bytes)
    → int_bytes w v ≡ ok bs
    → (read_slice (bs ++ ys) w ≡ ok (bs, ys)) × (le_value bs ≡ v)
slice_int-append w v {bs} ys h =
    let (n, e) = to_bytes-eq-some w v (or_raise-eq-ok _ _ h) in
    (subst (λ (k : ℕ). read_slice (bs ++ ys) k ≡ ok (bs, ys)) n (read_slice-append bs ys), e)
