-- ===== src/AuthorizationLedger/Tamper.antt =====
-- Appending to a ledger of receipts, and what its count and tip hash commit to.
use sara_pro.Prelude.{
  ◌+◌, ◌≡◌, refl, ◌∙◌, subst, ◌⊎◌, List, [], ◌∷◌, ◌++◌, false, length, length-append, map, reverse,
  Result, ok, err, ◌>>=◌, fold_result, fold_result-append, fold_result_inv, >>=-eq-ok, ok-injective,
}
use sara_pro.Bytes.{Text, text, text_eq}
use sara_pro.Ledger.{
  Json, str, Object, Line, malformed, blank, object, get, remove, LedgerFile, absent, unsafe, lines,
  unended, append_line,
}
use sara_pro.Ledger.Chain.{Chain, no_rows, link, link-built}
use sara_pro.Ledger.Tamper.{Backed, link-Backed, chains_same, Collision}
use sara_pro.AuthorizationLedger.{
  AuthorizationError, LedgerState, receipts, verify_line, verify_lines, verify_unlocked,
  receipt_base, append_authorization_receipt,
}

keys_differ : text_eq (text "previous_hash") (text "record_hash") ≡ false
unfolding text_eq
keys_differ = refl

module _ (digest : Object → Text) where
  bind-ok : {A : Type 0} (r : Result AuthorizationError A) → (r >>= λ a. ok a) ≡ r
  bind-ok (ok a) = refl
  bind-ok (err e) = refl

  verify_lines-append :
      (file : LedgerFile) (row : Object) (s : Chain)
      → verify_lines digest file ≡ ok s
      → verify_lines digest (append_line file row) ≡ link (receipts digest) s row
  unfolding verify_lines append_line fold_result verify_line
  verify_lines-append absent row s h =
      subst
        (λ (t : Chain).
          fold_result (verify_line digest) no_rows (object row ∷ []) ≡ link (receipts digest) t row)
        (ok-injective h) (bind-ok (link (receipts digest) no_rows row))
  verify_lines-append unsafe row s h = absurd (cc h)
  verify_lines-append (lines l) row s h =
      fold_result-append (verify_line digest) no_rows l (object row) ∙ rw h
  verify_lines-append (unended l x) row s h =
      let (t, _, h1) = >>=-eq-ok (fold_result (verify_line digest) no_rows l) _ h in absurd (cc h1)

  abbrev pub state_of : Chain → LedgerState
  state_of s = record { records = length s.rows; tip_hash = s.prev }

  abbrev pub hash_of : (Json → Text) → Json → LedgerState → Text
  hash_of payload_digest payload state =
      digest (receipt_base digest state (payload_digest payload) payload)

  abbrev pub receipt : (Json → Text) → Json → LedgerState → Object
  receipt payload_digest payload state =
      receipt_base digest state (payload_digest payload) payload
      ++ (text "record_hash", str (hash_of payload_digest payload state)) ∷ []

  receipt_linked :
      (payload_digest : Json → Text) (payload : Json) (s : Chain)
      → link (receipts digest) s (receipt payload_digest payload (state_of s))
        ≡ ok (record {
          rows = s.rows ++ receipt payload_digest payload (state_of s) ∷ [];
          prev = hash_of payload_digest payload (state_of s);
        })
  unfolding get text_eq
  receipt_linked payload_digest payload s =
      link-built (receipts digest) s
        (receipt_base digest (state_of s) (payload_digest payload) payload) refl refl refl

  -- On a ledger that verifies, `append_authorization_receipt` succeeds with any payload: it appends one
  -- line to the file, and the new file verifies with one more record and the hash of the appended record
  -- as its tip.
  pub append_authorization_receipt-verify :
      (payload_digest : Json → Text) (payload : Json) (file : LedgerFile) (state : LedgerState)
      → verify_unlocked digest file ≡ ok state
      → (let row = receipt payload_digest payload state in
          (append_authorization_receipt digest payload_digest payload file
            ≡ ok (row, append_line file row))
          × (verify_unlocked digest (append_line file row)
              ≡ ok (record {
                records = state.records + 1;
                tip_hash = hash_of payload_digest payload state;
              })))
  unfolding append_authorization_receipt verify_unlocked
  append_authorization_receipt-verify payload_digest payload file state h =
      let (s, e, h1) = >>=-eq-ok (verify_lines digest file) _ h in
      (rw h, later s e (ok-injective h1))
    where
      later :
          (s : Chain)
          → verify_lines digest file ≡ ok s
          → state_of s ≡ state
          → verify_unlocked digest (append_line file (receipt payload_digest payload state))
            ≡ ok (record {
              records = state.records + 1;
              tip_hash = hash_of payload_digest payload state;
            })
      later s e same =
          subst
            (λ (st : LedgerState).
              verify_unlocked digest (append_line file (receipt payload_digest payload st))
              ≡ ok (record {
                records = st.records + 1;
                tip_hash = hash_of payload_digest payload st;
              }))
            same
            (rw (
              verify_lines-append file (receipt payload_digest payload (state_of s)) s e,
              receipt_linked payload_digest payload s,
              length-append s.rows (receipt payload_digest payload (state_of s) ∷ []),
            ))

  -- The records in the order of the file, without their own hashes.
  abbrev pub bodies : Chain → List Object
  bodies s = map (remove (text "record_hash")) s.rows

  line-Backed :
      (s : Chain) (l : Line) (s' : Chain)
      → Backed (receipts digest) keys_differ (reverse s.rows) s.prev
      → verify_line digest s l ≡ ok s'
      → Backed (receipts digest) keys_differ (reverse s'.rows) s'.prev
  unfolding verify_line
  line-Backed s malformed s' b h = absurd (cc h)
  line-Backed s blank s' b h = absurd (cc h)
  line-Backed s (object rec) s' b h = link-Backed (receipts digest) keys_differ s rec b h

  lines-Backed :
      (file : LedgerFile) {s : Chain}
      → verify_lines digest file ≡ ok s
      → Backed (receipts digest) keys_differ (reverse s.rows) s.prev
  unfolding verify_lines Backed
  lines-Backed absent h =
      subst (λ (t : Chain). Backed (receipts digest) keys_differ (reverse t.rows) t.prev)
        (ok-injective h) tt
  lines-Backed unsafe h = absurd (cc h)
  lines-Backed (lines l) {s} h =
      fold_result_inv (verify_line digest)
        (λ t. Backed (receipts digest) keys_differ (reverse t.rows) t.prev)
        (λ t x t' b e. line-Backed t x t' b e) no_rows l s tt h
  lines-Backed (unended l x) h =
      let (t, _, h1) = >>=-eq-ok (fold_result (verify_line digest) no_rows l) _ h in absurd (cc h1)

  -- Two ledger files that both verify, with the same number of records and the same tip hash, hold the
  -- same records in the same order (each without the hash that it carries of itself), or two objects
  -- that differ have the same digest.
  pub verify_lines-same :
      (file file' : LedgerFile) {s t : Chain}
      → verify_lines digest file ≡ ok s
      → verify_lines digest file' ≡ ok t
      → length s.rows ≡ length t.rows
      → s.prev ≡ t.prev
      → (bodies s ≡ bodies t) ⊎ Collision digest
  verify_lines-same file file' {s} {t} h h' n e =
      chains_same (receipts digest) keys_differ s t (lines-Backed file h) (lines-Backed file' h') n
        e
