-- ===== src/KeyRegistry/Retirement/Kept.antt =====
-- What internal/keyregistry/retirement.go keeps and what it drops.
use openbao_kubernetes_kms.Base.{
  ◌≡◌, refl, ◌∙◌, ap, subst, inl, inr, true, false, not, ◌||◌, List, [], ◌∷◌, any, arith, ℤ, pos,
  lt_int, le_int, length, ◌==◌, Text, Result, ok, fail_if-eq-ok, >>=-eq-ok, Bool-cases,
}
use openbao_kubernetes_kms.Crypto.{Crypto, CryptoLaws}
use openbao_kubernetes_kms.KeyRegistry.Snapshot.{
  SnapshotState, active, retired, removed, state_eq, is_empty,
}
use openbao_kubernetes_kms.KeyRegistry.Records.{
  StateRecord, snapshot_of_record, normalize_state_record,
}
use openbao_kubernetes_kms.KeyRegistry.State.{
  StateFile, HashBody, next_generation, state_active, validate_state, normalize_records,
}
use openbao_kubernetes_kms.KeyRegistry.State.Built.{new_state_file_from_records-IsBuilt}
use openbao_kubernetes_kms.KeyRegistry.State.Gathering.{Member, is_live, snapshot_of_record-parts}
use openbao_kubernetes_kms.KeyRegistry.State.Progress.{Found, valid_state_finds}
use openbao_kubernetes_kms.KeyRegistry.Retirement.{
  is_retirable, retire_records, selects, delete, select_versions, restore_records, successor,
  retire_versions, restore_versions,
}

-- A record that the boundary does not concern is left as it is.
retire_records_keeps :
    (before : ℤ) (rs : List StateRecord) (r : StateRecord)
    → is_retirable before r ≡ false
    → Member r rs
    → Member r (retire_records before rs)
unfolding retire_records
retire_records_keeps before [] r q m = absurd m
retire_records_keeps before (x ∷ rs) r q (inl e) =
    inl (rw (subst (λ y. is_retirable before y ≡ false) e q) e)
retire_records_keeps before (x ∷ rs) r q (inr m) = inr (retire_records_keeps before rs r q m)

-- Restoring leaves every record that is not removed as it is.
restore_records_keeps :
    (selected left : List ℤ) (rs ns : List StateRecord) (r : StateRecord)
    → restore_records selected rs ≡ ok (ns, left)
    → state_eq r.state removed ≡ false
    → Member r rs
    → Member r ns
unfolding restore_records
restore_records_keeps selected left [] ns r h q m = absurd m
restore_records_keeps selected left (x ∷ rs) ns r h q m =
    elim (Bool-cases (selects selected x.transit_version)) [
      | inl e ↦
          let (removed_x, h1) =
            fail_if-eq-ok (not (state_eq x.state removed)) _ _ (rw (e, restore_records) at h) in
          let ((rest, l), p, h2) =
            >>=-eq-ok (restore_records (delete x.transit_version selected) rs) _ h1 in
          let same : record x { state = retired } ∷ rest ≡ ns = ground (arith, h2) in
          subst (Member r) same (elim m [
            | inl i ↦ absurd (ground (arith, removed_x, ap (λ y. state_eq y.state removed) i))
            | inr i ↦
                inr (restore_records_keeps (delete x.transit_version selected) l rs rest r p q i)
          ])
      | inr e ↦
          let ((rest, l), p, h1) =
            >>=-eq-ok (restore_records selected rs) _ (rw (e, restore_records) at h) in
          let same : x ∷ rest ≡ ns = ground (arith, h1) in
          subst (Member r) same (elim m [
            | inl i ↦ inl i
            | inr i ↦ inr (restore_records_keeps selected l rs rest r p q i)
          ])
    ]

live_not_removed : (s : SnapshotState) → is_live s ≡ true → state_eq s removed ≡ false
unfolding state_eq
live_not_removed active l = refl
live_not_removed SnapshotState.pending l = refl
live_not_removed retired l = refl
live_not_removed SnapshotState.rejected l = refl
live_not_removed removed l = absurd (cc)
live_not_removed (SnapshotState.other t) l = refl

module _ (c : Crypto) (marshal : HashBody → Result Text) where
  normalize_records_keeps :
      (rs ns : List StateRecord) (r : StateRecord)
      → normalize_records c rs ≡ ok ns
      → is_empty r.kubernetes_key_id ≡ false
      → Member r rs
      → (n : StateRecord) × Member n ns
        × (n.kubernetes_key_id ≡ r.kubernetes_key_id)
        × (n.state ≡ r.state)
  unfolding normalize_records normalize_state_record
  normalize_records_keeps [] ns r h e m = absurd m
  normalize_records_keeps (x ∷ rs) ns r h e (inl i) =
      let (n, p, h1) = >>=-eq-ok (normalize_state_record c x) _ h in
      let (rest, _, h2) = >>=-eq-ok (normalize_records c rs) _ h1 in
      let (s, q, h3) = >>=-eq-ok (snapshot_of_record c x) _ p in
      let (_, key, state, _) =
        snapshot_of_record-parts c x s q (subst (λ y. is_empty y.kubernetes_key_id ≡ false) i e) in
      let same : n ∷ rest ≡ ns = ground (arith, h2) in
      (
        n,
        subst (Member n) same (inl refl),
        ground (arith, h3, key, ap (λ y. y.kubernetes_key_id) i),
        ground (arith, h3, state, ap (λ y. y.state) i),
      )
  normalize_records_keeps (x ∷ rs) ns r h e (inr m) =
      let (n, p, h1) = >>=-eq-ok (normalize_state_record c x) _ h in
      let (rest, q, h2) = >>=-eq-ok (normalize_records c rs) _ h1 in
      let (k, there, key, state) = normalize_records_keeps rs rest r q e m in
      let same : n ∷ rest ≡ ns = ground (arith, h2) in
      (k, subst (Member k) same (inr there), key, state)

  -- A successor keeps the active key, links to the hash before, and finds every live record that it
  -- was built from.
  successor_finds :
      CryptoLaws c
      → (p n : StateFile) (rs : List StateRecord) (r : StateRecord)
      → successor c marshal p rs ≡ ok n
      → Member r rs
      → is_live r.state ≡ true
      → is_empty r.kubernetes_key_id ≡ false
      → Found c r.kubernetes_key_id n
  unfolding successor
  successor_finds laws p n rs r h m l e =
      let b =
        new_state_file_from_records-IsBuilt c marshal p.active_key_id rs
          (next_generation p.generation) p.current_hash p.identity_fingerprint n h in
      let (k, there, key, state) = normalize_records_keeps rs n.snapshots r b.normalized e m in
      subst (λ y. Found c y n) key
        (valid_state_finds c marshal laws n k b.valid there (ap is_live state ∙ l)
          (ap is_empty key ∙ e))

  successor_active :
      (p n : StateFile) (rs : List StateRecord)
      → successor c marshal p rs ≡ ok n
      → (n.active_key_id ≡ p.active_key_id)
        × (n.previous_hash ≡ p.current_hash)
        × (n.generation ≡ next_generation p.generation)
  unfolding successor
  successor_active p n rs h =
      let b =
        new_state_file_from_records-IsBuilt c marshal p.active_key_id rs
          (next_generation p.generation) p.current_hash p.identity_fingerprint n h in
      (b.active_key_id_eq, b.previous_hash_eq, b.generation_eq)

  -- Retiring the versions below a boundary keeps the active key, and the registry of the result
  -- still finds every active, pending or retired record with a key_id that is not a retired one
  -- below the boundary.
  pub retire_versions-keeps :
      CryptoLaws c
      → (p n : StateFile) (before : ℤ) (r : StateRecord) → retire_versions c marshal p before ≡ ok n
      → Member r p.snapshots
      → is_live r.state ≡ true
      → is_retirable before r ≡ false
      → is_empty r.kubernetes_key_id ≡ false
      → (n.active_key_id ≡ p.active_key_id) × Found c r.kubernetes_key_id n
  unfolding retire_versions
  retire_versions-keeps laws p n before r h m l q e =
      let (_, v, h1) = >>=-eq-ok (validate_state c marshal p) _ h in
      let (a, _, h2) = >>=-eq-ok (state_active c p) _ h1 in
      let (_, h3) =
        fail_if-eq-ok (le_int before (pos 1) || lt_int a.transit_version before) _ _ h2 in
      elim (Bool-cases (any (is_retirable before) p.snapshots)) [
        | inr u ↦
            let same : p ≡ n = ground arith in
            subst (λ y. (y.active_key_id ≡ p.active_key_id) × Found c r.kubernetes_key_id y) same
              (refl, valid_state_finds c marshal laws p r v m l e)
        | inl u ↦
            let h4 = rw u at h3 in
            (
              (successor_active p n _ h4).0,
              successor_finds laws p n _ r h4 (retire_records_keeps before p.snapshots r q m) l e,
            )
      ]

  -- Restoring versions keeps the active key, and the registry of the result still finds every
  -- active, pending or retired record with a key_id.
  pub restore_versions-keeps :
      CryptoLaws c
      → (p n : StateFile) (versions : List ℤ) (r : StateRecord)
      → restore_versions c marshal p versions ≡ ok n
      → Member r p.snapshots
      → is_live r.state ≡ true
      → is_empty r.kubernetes_key_id ≡ false
      → (n.active_key_id ≡ p.active_key_id) × Found c r.kubernetes_key_id n
  unfolding restore_versions
  restore_versions-keeps laws p n versions r h m l e =
      let (_, v, h1) = >>=-eq-ok (validate_state c marshal p) _ h in
      let (a, _, h2) = >>=-eq-ok (state_active c p) _ h1 in
      let (vs, _, h3) = >>=-eq-ok (select_versions a.transit_version [] versions) _ h2 in
      let (_, h4) = fail_if-eq-ok (length vs == 0) _ _ h3 in
      let ((rs, left), q, h5) = >>=-eq-ok (restore_records vs p.snapshots) _ h4 in
      let (_, h6) = fail_if-eq-ok (not (length left == 0)) _ _ h5 in
      (
        (successor_active p n rs h6).0,
        successor_finds laws p n rs r h6
            (restore_records_keeps vs left p.snapshots rs r q (live_not_removed r.state l) m) l e,
      )
