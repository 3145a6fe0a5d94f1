-- ===== src/KeyLifecycle/Distinct.antt =====
-- The fingerprints of a registry that `__post_init__` accepts.
use sara_pro.Prelude.{
  ◌≡◌, refl, sym, subst, List, [], ◌∷◌, ok, fold_result, >>=-eq-ok, >>-eq-ok, ok-injective,
}
use sara_pro.Bytes.{Text, text_in}
use sara_pro.ApprovalQuorum.Quorum.{Fresh}
use sara_pro.KeyLifecycle.{
  KeyRecord, CanonicalKey, Clock, canonical_key, Registering, register, post_init,
}

module _ (clock : Clock) where
  -- Every record is valid, and the texts are the fingerprints of the records, in their order.
  unfoldable pub FingerprintsOf : List KeyRecord → List Text → Type 0
  FingerprintsOf [] [] = Unit
  FingerprintsOf (r ∷ l) (fp ∷ fps) =
      ((d : CanonicalKey) × (canonical_key clock r ≡ ok d) × (d.fingerprint ≡ fp))
      × FingerprintsOf l fps
  FingerprintsOf _ _ = ⊥

  register-Fresh :
      (s : Registering clock) (records : List KeyRecord) {s' : Registering clock}
      → fold_result (register clock) s records ≡ ok s'
      → (fps : List Text) × FingerprintsOf records fps × Fresh s.seen_fp fps
  unfolding fold_result register FingerprintsOf Fresh
  register-Fresh s [] h = ([], tt, tt)
  register-Fresh s (r ∷ records) h =
      let (t, e, h1) = >>=-eq-ok (register clock s r) _ h in
      let (d, valid, e1) = >>=-eq-ok (canonical_key clock r) _ e in
      let (new, e2) = >>-eq-ok (text_in d.fingerprint s.seen_fp) _ _ e1 in
      let (fps, names, fresh) = register-Fresh t records h1 in
      (
        d.fingerprint ∷ fps,
        ((d, valid, refl), names),
        (new, subst (λ (u : Registering clock). Fresh u.seen_fp fps) (sym (ok-injective e2)) fresh),
      )

  -- A registry that `__post_init__` accepts has only valid records, and no fingerprint, in lower case,
  -- occurs twice among them.
  pub post_init-Fresh :
      (records : List KeyRecord)
      → post_init clock records ≡ ok tt
      → (fps : List Text) × FingerprintsOf records fps × Fresh [] fps
  unfolding post_init
  post_init-Fresh records h =
      let (s, e, _) =
        >>=-eq-ok (fold_result (register clock) (record { seen_fp = []; groups = [] }) records) _
          h in
      register-Fresh (record { seen_fp = []; groups = [] }) records e
