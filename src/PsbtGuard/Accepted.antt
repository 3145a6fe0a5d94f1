-- ===== src/PsbtGuard/Accepted.antt =====
-- `parse_psbt` as a whole, over the readings of its maps.
use sara_pro.Prelude.{
  ℕ, ◌≤◌, ◌≡◌, refl, sym, ap, ◌∙◌, subst, inl, inr, All-right, List, [], ◌∷◌, ◌++◌, append-nil,
  Option, none, some, false, ◌||◌, not, length, take, drop, ltb, ltb_false→le, ◌==◌, if◌then◌else◌,
  Bool-cases, negated, ok, >>=-eq-ok, >>-eq-ok, ok-injective, take-append-drop,
}
use sara_pro.Bytes.{Bytes, IsByte, IsBytes, text_eq, text_eq→eq, is_empty}
use sara_pro.BitcoinTx.Types.{BitcoinTransaction}
use sara_pro.PsbtGuard.{PsbtEntry, read_map}
use sara_pro.PsbtGuard.Maps.{MapSpelled, read_map-EntriesRead}
use sara_pro.PsbtGuard.Fields.{Hashes}
use sara_pro.PsbtGuard.Metadata.{validate_common_metadata}
use sara_pro.PsbtGuard.Parse.{ParsedPsbt, parse_version}
use sara_pro.PsbtGuard.Whole.{
  max_psbt_bytes, psbt_magic, Counts, counts_v0, counts_v2, read_maps, transaction_of, parse_maps,
  parse_psbt_bytes,
}
use sara_pro.PsbtGuard.Parsed.{
  MapsSpelled, read_maps-MapsRead, left_over, Unsigned, reconstruct_v2-Unsigned, Counted,
  counts_v0-Counted, counts_v2-Counted,
}

-- The maps of a PSBT in the bytes behind its magic, and its transaction.
pub record Accepted (h : Hashes) (xs : Bytes) (p : ParsedPsbt) : Type 0 where
  pub global_bytes : Bytes
  pub input_bytes : Bytes
  pub output_bytes : Bytes
  pub global_spelled : MapSpelled p.global_map global_bytes
  pub inputs_spelled : MapsSpelled p.input_maps input_bytes
  pub outputs_spelled : MapsSpelled p.output_maps output_bytes
  pub whole : xs ≡ global_bytes ++ (input_bytes ++ output_bytes)
  pub checked : validate_common_metadata h p.global_map p.input_maps p.output_maps ≡ ok tt
  pub unsigned : Unsigned p.transaction p.input_maps p.output_maps

counts-Counted :
    (version : ℕ) (globals : List PsbtEntry) {c : Counts}
    → (if version == 0 then counts_v0 globals else counts_v2 globals) ≡ ok c
    → Counted c
counts-Counted version globals h = elim (Bool-cases (version == 0)) [
  | inl zeroth ↦ counts_v0-Counted globals (rw zeroth at h)
  | inr second ↦ counts_v2-Counted globals (rw second at h)
]

transaction-Unsigned :
    (o : Option BitcoinTransaction) (c : Counts) (globals : List PsbtEntry)
    (inputs outputs : List (List PsbtEntry)) {tx : BitcoinTransaction}
    → c.unsigned_tx ≡ o
    → Counted c
    → length inputs ≡ c.input_count
    → length outputs ≡ c.output_count
    → transaction_of o globals inputs outputs ≡ ok tx
    → Unsigned tx inputs outputs
unfolding transaction_of
transaction-Unsigned none c globals inputs outputs e k a b h =
    reconstruct_v2-Unsigned globals inputs outputs h
transaction-Unsigned (some t) c globals inputs outputs e k a b h =
    let (i, o, f, g) = k t e in
    subst (λ (u : BitcoinTransaction). Unsigned u inputs outputs) (ok-injective h)
      (record { input_count = a ∙ i; output_count = b ∙ o; no_signatures = f; no_segwit = g })

ended : (rest : Bytes) → not (is_empty rest) ≡ false → rest ≡ []
ended [] h = refl
ended (b ∷ rest) h = absurd (cc h)

parse_maps-Accepted :
    (h : Hashes) (xs : Bytes) {p : ParsedPsbt}
    → IsBytes xs
    → parse_maps h xs ≡ ok p
    → Accepted h xs p
unfolding parse_maps
parse_maps-Accepted h xs {p} good e =
    let ((globals, ys), e0, e1) = >>=-eq-ok (read_map xs) _ e in
    let (version, _, e2) = >>=-eq-ok (parse_version globals) _ e1 in
    let (c, counts, e3) =
      >>=-eq-ok (if version == 0 then counts_v0 globals else counts_v2 globals) _ e2 in
    let (_, e4) = >>-eq-ok (ltb 100_000 c.input_count || ltb 100_000 c.output_count) _ _ e3 in
    let ((inputs, zs), e5, e6) = >>=-eq-ok (read_maps c.input_count ys) _ e4 in
    let ((outputs, rest), e7, e8) = >>=-eq-ok (read_maps c.output_count zs) _ e6 in
    let (left, e9) = >>-eq-ok (not (is_empty rest)) _ _ e8 in
    let (u, metadata, e10) = >>=-eq-ok (validate_common_metadata h globals inputs outputs) _ e9 in
    let (tx, found, e11) = >>=-eq-ok (transaction_of c.unsigned_tx globals inputs outputs) _ e10 in
    let (_, g) = read_map-EntriesRead xs good e0 in
    let i = read_maps-MapsRead c.input_count ys (left_over xs g.bytes ys good g.whole) e5 in
    let o = read_maps-MapsRead c.output_count zs i.rest_bytes e7 in
    subst (Accepted h xs) (ok-injective e11) (record {
      global_bytes = g.bytes;
      input_bytes = i.bytes;
      output_bytes = o.bytes;
      global_spelled = g.spelled;
      inputs_spelled = i.spelled;
      outputs_spelled = o.spelled;
      whole =
          g.whole
          ∙ ap (λ t. g.bytes ++ t)
              (i.whole
                ∙ ap (λ t. i.bytes ++ t)
                    (o.whole ∙ ap (λ t. o.bytes ++ t) (ended rest left) ∙ append-nil o.bytes));
      checked = metadata;
      unsigned =
          transaction-Unsigned c.unsigned_tx c globals inputs outputs refl
            (counts-Counted version globals counts) i.count o.count found;
    })

-- A PSBT that is accepted has at most 16 MiB, and its bytes are exactly the magic and the canonical
-- spelling of its global map, its input maps and its output maps; the maps pass the checks of their
-- fields, and its transaction has no signature, is not in segwit form, and has an input for each input
-- map and an output for each output map.
pub parse_psbt_bytes-Accepted :
    (h : Hashes) (raw : Bytes) {p : ParsedPsbt}
    → IsBytes raw
    → parse_psbt_bytes h raw ≡ ok p
    → (length raw ≤ max_psbt_bytes) × (xs : Bytes) × (raw ≡ psbt_magic ++ xs) × Accepted h xs p
unfolding parse_psbt_bytes
parse_psbt_bytes-Accepted h raw {p} good e =
    let (small, e1) = >>-eq-ok (ltb max_psbt_bytes (length raw)) _ _ e in
    let (magic, e2) = >>-eq-ok (not (text_eq (take 5 raw) psbt_magic)) _ _ e1 in
    let start =
      text_eq→eq (take 5 raw) psbt_magic (negated (text_eq (take 5 raw) psbt_magic) magic) in
    let parts = sym (take-append-drop 5 raw) in
    let good' = All-right IsByte (take 5 raw) (drop 5 raw) (subst IsBytes parts good) in
    (
      ltb_false→le max_psbt_bytes (length raw) small,
      drop 5 raw,
      parts ∙ ap (λ t. t ++ drop 5 raw) start,
      parse_maps-Accepted h (drop 5 raw) good' e2,
    )
