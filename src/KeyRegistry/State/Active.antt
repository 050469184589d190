-- ===== src/KeyRegistry/State/Active.antt =====
-- The active snapshot of a state file (internal/keyregistry/state.go) is normal, active, and under
-- the active key_id.
use openbao_kubernetes_kms.Base.{
  ◌≡◌, refl, sym, ◌∙◌, ap, subst, inl, inr, true, false, List, [], ◌∷◌, ◌++◌, Option, none, some,
  arith, Text, ok, >>=-eq-ok,
}
use openbao_kubernetes_kms.Crypto.{Crypto, CryptoLaws}
use openbao_kubernetes_kms.Clock.{to_unix}
use openbao_kubernetes_kms.KeyRegistry.Snapshot.{
  KeySnapshot, active, state_eq, is_empty, key_id_prefix, key_id_parts, append_parts, derive_key_id,
  normalize, validate_snapshot_identity, normalize_created_at,
}
use openbao_kubernetes_kms.KeyRegistry.Normal.{normalize-IsNormalOf, normalize_idem}
use openbao_kubernetes_kms.KeyRegistry.Records.{
  StateRecord, snapshot_of_record, raw_snapshot, validate_observation_metadata,
}
use openbao_kubernetes_kms.KeyRegistry.State.{
  StateFile, Gathered, gather, gather_all, state_snapshots, state_active,
}
use openbao_kubernetes_kms.KeyRegistry.State.Gathering.{gather_parts, state_snapshots-parts}

module _ (c : Crypto) (laws : CryptoLaws c) where
  abbrev ActiveNormal : Option KeySnapshot → Type 0
  ActiveNormal none = Unit {0}
  ActiveNormal (some a) = (normalize c a ≡ ok a) × (state_eq a.state active ≡ true)

  snapshot_normal :
      (r : StateRecord) (s : KeySnapshot) → snapshot_of_record c r ≡ ok s → normalize c s ≡ ok s
  unfolding snapshot_of_record
  snapshot_normal r s h =
      let (_, _, p) = >>=-eq-ok (validate_observation_metadata r) _ h in
      normalize_idem c laws (raw_snapshot r) s p

  gather-ActiveNormal :
      (k : Text) (g h : Gathered) (r : StateRecord)
      → gather c k g r ≡ ok h
      → ActiveNormal g.active_seen
      → ActiveNormal h.active_seen
  gather-ActiveNormal k g h r e v =
      let (s, p, parts) = gather_parts c k g h r e in
      elim parts [
        | inl (a, _, b, _) ↦ subst ActiveNormal (sym b) (snapshot_normal r s p, a)
        | inr (_, b, _) ↦ subst ActiveNormal (sym b) v
      ]

  gather_all-ActiveNormal :
      (k : Text) (g h : Gathered) (rs : List StateRecord)
      → gather_all c k g rs ≡ ok h
      → ActiveNormal g.active_seen
      → ActiveNormal h.active_seen
  unfolding gather_all
  gather_all-ActiveNormal k g h [] e v =
      let same : g ≡ h = ground (arith, e) in
      subst (λ (y : Gathered). ActiveNormal y.active_seen) same v
  gather_all-ActiveNormal k g h (r ∷ rs) e v =
      let (g1, p, e1) = >>=-eq-ok (gather c k g r) _ e in
      gather_all-ActiveNormal k g1 h rs e1 (gather-ActiveNormal k g g1 r p v)

  pub state_active-parts :
      (t : StateFile) (a : KeySnapshot)
      → state_active c t ≡ ok a
      → (normalize c a ≡ ok a) × (state_eq a.state active ≡ true)
  unfolding state_active
  state_active-parts t a h =
      let ((b, hs), p, h1) = >>=-eq-ok (state_snapshots c t) _ h in
      let (g, u, seen, _) = state_snapshots-parts c t b hs p in
      let same : b ≡ a = ground (arith, h1) in
      subst ActiveNormal (seen ∙ ap some same)
        (gather_all-ActiveNormal t.active_key_id _ g t.snapshots u tt)

  derived_not_empty : (s : KeySnapshot) (k : Text) → derive_key_id c s ≡ ok k → is_empty k ≡ false
  unfolding derive_key_id
  derived_not_empty s k h =
      let (_, _, h1) = >>=-eq-ok (validate_snapshot_identity s) _ h in
      let (t, _, h2) = >>=-eq-ok (normalize_created_at s.created_at) _ h1 in
      let input = append_parts [] (key_id_parts s (to_unix t)) in
      let e : key_id_prefix ++ c.raw_url_encode (c.sha256 input) ≡ k = ground (arith, h2) in
      subst (λ y. is_empty y ≡ false) e refl

  -- A normal snapshot has a key_id.
  pub normal_has_key_id :
      (a : KeySnapshot) → normalize c a ≡ ok a → is_empty a.kubernetes_key_id ≡ false
  normal_has_key_id a h =
      derived_not_empty a a.kubernetes_key_id (normalize-IsNormalOf c a a h).derived
