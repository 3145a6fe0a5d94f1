-- ===== src/PsbtGuard/Maps.antt =====
-- The well-formedness of the maps that `_read_map` reads, and their spelling in the bytes.
use sara_pro.Prelude.{
  map_err-eq-ok, either_false, ℕ, zero, suc, ◌+◌, ◌≤◌, ◌≡◌, refl, sym, ap, ◌∙◌, subst, List, [],
  ◌∷◌, ◌++◌, append_assoc, Bool, true, false, ◌||◌, arith, All-left, All-right, length, take, drop,
  take-append-drop, length-take, ltb, ltb_false→le, ◌==◌, ==_iff, map, Result, ok, ◌>>=◌, map_err,
  >>=-eq-ok, >>-eq-ok, ok-injective,
}
use sara_pro.Bytes.{Bytes, IsByte, IsBytes, text_in}
use sara_pro.ApprovalQuorum.Quorum.{Fresh}
use sara_pro.BitcoinTx.CompactSize.{read_compact_size, encode_compact_size}
use sara_pro.BitcoinTx.CompactSize.Laws.{read_compact_size_sound}
use sara_pro.PsbtGuard.{
  PsbtError, bad_key_type, compact_size, max_map_entries, max_field_bytes, PsbtEntry, read_entry,
  read_entries, read_map,
}

-- An entry with its bytes: the key behind its length, the value behind its length; the key starts with
-- its type, and neither is longer than a field may be.
pub record EntrySpelled (e : PsbtEntry) (bs : Bytes) : Type 0 where
  pub key_type_bytes : Bytes
  pub key_type_spelled : encode_compact_size e.key_type ≡ ok key_type_bytes
  pub key_parts : e.raw_key ≡ key_type_bytes ++ e.key_data
  pub key_short : length e.raw_key ≤ max_field_bytes
  pub value_short : length e.value ≤ max_field_bytes
  pub key_length : Bytes
  pub key_length_spelled : encode_compact_size (length e.raw_key) ≡ ok key_length
  pub value_length : Bytes
  pub value_length_spelled : encode_compact_size (length e.value) ≡ ok value_length
  pub whole : bs ≡ key_length ++ (e.raw_key ++ (value_length ++ e.value))

-- A map with its bytes: its entries, and the empty key that ends it.
unfoldable pub MapSpelled : List PsbtEntry → Bytes → Type 0
MapSpelled [] bs = encode_compact_size 0 ≡ ok bs
MapSpelled (e ∷ l) bs =
    (first : Bytes) × (others : Bytes) × EntrySpelled e first
    × MapSpelled l others
    × (bs ≡ first ++ others)

-- What one entry takes of the bytes behind the length of its key.
record EntryRead (seen : List Bytes) (key_len : ℕ) (xs : Bytes) (e : PsbtEntry) (rest : Bytes)
    : Type 0 where
  pub unseen : text_in e.raw_key seen ≡ false
  pub key_len_is : length e.raw_key ≡ key_len
  pub spelled :
      (key_length : Bytes)
      → encode_compact_size key_len ≡ ok key_length
      → (bs : Bytes) × EntrySpelled e bs × (key_length ++ xs ≡ bs ++ rest)
  pub rest_bytes : IsBytes rest

module _ (seen : List Bytes) (key_len : ℕ) (xs : Bytes) (key_type value_len : ℕ)
    (key_data ys : Bytes) where
  abbrev entry : PsbtEntry
  entry = record {
    key_type = key_type;
    key_data = key_data;
    value = take value_len ys;
    raw_key = take key_len xs;
  }

  entry_read :
      IsBytes xs
      → (ltb max_field_bytes key_len || ltb (length xs) key_len) ≡ false
      → text_in (take key_len xs) seen ≡ false
      → read_compact_size (take key_len xs) ≡ ok (key_type, key_data)
      → read_compact_size (drop key_len xs) ≡ ok (value_len, ys)
      → (ltb max_field_bytes value_len || ltb (length ys) value_len) ≡ false
      → EntryRead seen key_len xs entry (drop value_len ys)
  entry_read good fits new typed valued fits' =
      let (short, held) =
        either_false (ltb max_field_bytes key_len) (ltb (length xs) key_len) fits in
      let (short', held') =
        either_false (ltb max_field_bytes value_len) (ltb (length ys) value_len) fits' in
      let split = take-append-drop key_len xs in
      let split' = take-append-drop value_len ys in
      let both = subst IsBytes (sym split) good in
      let key_bytes = All-left IsByte (take key_len xs) (drop key_len xs) both in
      let rest_bytes = All-right IsByte (take key_len xs) (drop key_len xs) both in
      let (tb, te, tw) = read_compact_size_sound (take key_len xs) key_bytes typed in
      let (vb, ve, vw) = read_compact_size_sound (drop key_len xs) rest_bytes valued in
      let ys_bytes = All-right IsByte vb ys (subst IsBytes vw rest_bytes) in
      let ends =
        All-right IsByte (take value_len ys) (drop value_len ys)
          (subst IsBytes (sym split') ys_bytes) in
      let len = length-take key_len xs (ltb_false→le _ _ held) in
      let len' = length-take value_len ys (ltb_false→le _ _ held') in
      record {
        unseen = new;
        key_len_is = len;
        spelled = λ kb ke. (
          kb ++ (take key_len xs ++ (vb ++ take value_len ys)),
          record {
            key_type_bytes = tb;
            key_type_spelled = te;
            key_parts = tw;
            key_short = subst (λ (n : ℕ). n ≤ max_field_bytes) (sym len) (ltb_false→le _ _ short);
            value_short =
                subst (λ (n : ℕ). n ≤ max_field_bytes) (sym len') (ltb_false→le _ _ short');
            key_length = kb;
            key_length_spelled = ap encode_compact_size len ∙ ke;
            value_length = vb;
            value_length_spelled = ap encode_compact_size len' ∙ ve;
            whole = refl;
          },
          joined kb (take key_len xs) vb (take value_len ys) (drop value_len ys) xs
              (sym split ∙ ap (λ t. take key_len xs ++ t) (vw ∙ ap (λ t. vb ++ t) (sym split'))),
        );
        rest_bytes = ends;
      }
    where
      joined :
          (k a v b r whole : Bytes)
          → whole ≡ a ++ (v ++ (b ++ r))
          → k ++ whole ≡ (k ++ (a ++ (v ++ b))) ++ r
      joined k a v b r whole h = rw h (simp append_assoc)

read_entry-EntryRead :
    (seen : List Bytes) (key_len : ℕ) (xs : Bytes) {e : PsbtEntry} {rest : Bytes}
    → IsBytes xs
    → read_entry seen key_len xs ≡ ok (e, rest)
    → EntryRead seen key_len xs e rest
unfolding read_entry
read_entry-EntryRead seen key_len xs {e} {rest} good h =
    let (fits, h1) = >>-eq-ok (ltb max_field_bytes key_len || ltb (length xs) key_len) _ _ h in
    let (new, h2) = >>-eq-ok (text_in (take key_len xs) seen) _ _ h1 in
    let ((key_type, key_data), e1, h3) =
      >>=-eq-ok (map_err bad_key_type (read_compact_size (take key_len xs))) _ h2 in
    let ((value_len, ys), e2, h4) =
      >>=-eq-ok (map_err compact_size (read_compact_size (drop key_len xs))) _ h3 in
    let (fits', h5) =
      >>-eq-ok (ltb max_field_bytes value_len || ltb (length ys) value_len) _ _ h4 in
    subst (λ (t : PsbtEntry × Bytes). EntryRead seen key_len xs t.0 t.1) (ok-injective h5)
      (entry_read seen key_len xs key_type value_len key_data ys good fits new
        (map_err-eq-ok _ _ e1) (map_err-eq-ok _ _ e2) fits')

-- What the loop has read: entries with keys that differ from each other and from those seen, fewer than
-- may still be read, and spelled in the bytes up to what is left.
pub record EntriesRead (n : ℕ) (seen : List Bytes) (xs : Bytes) (entries : List PsbtEntry)
    (rest : Bytes) : Type 0 where
  pub distinct : Fresh seen (map (λ e. e.raw_key) entries)
  pub bounded : suc (length entries) ≤ n
  pub bytes : Bytes
  pub spelled : MapSpelled entries bytes
  pub whole : xs ≡ bytes ++ rest

module _ (n : ℕ) (seen : List Bytes) (xs kb ys : Bytes) (key_len : ℕ) where
  -- The round that reads the empty key.
  ended :
      (key_len == 0) ≡ true
      → encode_compact_size key_len ≡ ok kb
      → xs ≡ kb ++ ys
      → EntriesRead (suc n) seen xs [] ys
  unfolding Fresh MapSpelled
  ended zero_len ke kw = record {
    distinct = tt;
    bounded = omega arith;
    bytes = kb;
    spelled = ap encode_compact_size (sym ((==_iff key_len 0).0 zero_len)) ∙ ke;
    whole = kw;
  }

  -- A round that reads an entry, before the rounds that read the others.
  extended :
      (e : PsbtEntry) (zs : Bytes) (entries : List PsbtEntry) (rest : Bytes)
      → encode_compact_size key_len ≡ ok kb
      → xs ≡ kb ++ ys
      → EntryRead seen key_len ys e zs
      → EntriesRead n (e.raw_key ∷ seen) zs entries rest
      → EntriesRead (suc n) seen xs (e ∷ entries) rest
  unfolding Fresh MapSpelled
  extended e zs entries rest ke kw first others =
      let (bs, spelled, joined) = first.spelled kb ke in
      let more = others.bounded in
      record {
        distinct = (first.unseen, others.distinct);
        bounded = omega arith;
        bytes = bs ++ others.bytes;
        spelled = (bs, others.bytes, spelled, others.spelled, refl);
        whole =
            kw ∙ joined ∙ ap (λ t. bs ++ t) others.whole ∙ sym (append_assoc bs others.bytes rest);
      }

read_entries-EntriesRead :
    (n : ℕ) (seen : List Bytes) (xs : Bytes) {entries : List PsbtEntry} {rest : Bytes}
    → IsBytes xs
    → read_entries n seen xs ≡ ok (entries, rest)
    → EntriesRead n seen xs entries rest
unfolding read_entries
read_entries-EntriesRead zero seen xs good h = absurd (cc h)
read_entries-EntriesRead (suc n) seen xs {entries} {rest} good h =
    let ((key_len, ys), e, h1) = >>=-eq-ok (map_err compact_size (read_compact_size xs)) _ h in
    let (kb, ke, kw) = read_compact_size_sound xs good (map_err-eq-ok _ _ e) in
    round key_len kb ys ke kw (key_len == 0) refl h1
      (λ s t es r. read_entries-EntriesRead n s t {entries = es} {rest = r})
  where
    round :
        (key_len : ℕ) (kb ys : Bytes)
        → encode_compact_size key_len ≡ ok kb
        → xs ≡ kb ++ ys
        → (b : Bool) → (key_len == 0) ≡ b
        → ◌≡◌ {A = Result PsbtError (List PsbtEntry × Bytes)}
            (elim b [
              | true ↦ ok ([], ys)
              | false ↦ read_entry seen key_len ys >>= λ t.
                  read_entries n (t.0.raw_key ∷ seen) t.1 >>= λ u. ok (t.0 ∷ u.0, u.1)
            ])
            (ok (entries, rest))
        → ((s : List Bytes) (t : Bytes) (es : List PsbtEntry) (r : Bytes)
            → IsBytes t
            → read_entries n s t ≡ ok (es, r)
            → EntriesRead n s t es r)
        → EntriesRead (suc n) seen xs entries rest
    round key_len kb ys ke kw true z h ih =
        subst (λ (t : List PsbtEntry × Bytes). EntriesRead (suc n) seen xs t.0 t.1) (ok-injective h)
          (ended n seen xs kb ys key_len z ke kw)
    round key_len kb ys ke kw false z h ih =
        let ((e, zs), e1, h1) = >>=-eq-ok (read_entry seen key_len ys) _ h in
        let ((others, left), e2, h2) = >>=-eq-ok (read_entries n (e.raw_key ∷ seen) zs) _ h1 in
        let first =
          read_entry-EntryRead seen key_len ys (All-right IsByte kb ys (subst IsBytes kw good))
            e1 in
        subst (λ (t : List PsbtEntry × Bytes). EntriesRead (suc n) seen xs t.0 t.1)
          (ok-injective h2)
          (extended n seen xs kb ys key_len e zs others left ke kw first
            (ih (e.raw_key ∷ seen) zs others left first.rest_bytes e2))

-- A map that `_read_map` reads from bytes has at most the limit of entries, no key twice, and no key or
-- value longer than a field may be; and the bytes it was read from are exactly its canonical spelling,
-- each length and key type as `encode_compact_size` writes it, ended by the empty key.
pub read_map-EntriesRead :
    (xs : Bytes) {entries : List PsbtEntry} {rest : Bytes}
    → IsBytes xs
    → read_map xs ≡ ok (entries, rest)
    → (length entries ≤ max_map_entries) × EntriesRead (max_map_entries + 1) [] xs entries rest
unfolding read_map
read_map-EntriesRead xs {entries} good h =
    let read = read_entries-EntriesRead (max_map_entries + 1) [] xs good h in
    let more = read.bounded in (omega arith, read)
