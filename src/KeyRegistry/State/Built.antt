-- ===== src/KeyRegistry/State/Built.antt =====
-- What NewStateFileFromRecords (internal/keyregistry/state.go) returns.
use openbao_kubernetes_kms.Base.{
  ℕ, ◌≡◌, refl, subst, List, arith, length, ◌==◌, Text, Result, ok, fail_if-eq-ok, >>=-eq-ok,
}
use openbao_kubernetes_kms.Crypto.{Crypto}
use openbao_kubernetes_kms.KeyRegistry.Snapshot.{is_empty}
use openbao_kubernetes_kms.KeyRegistry.Records.{StateRecord}
use openbao_kubernetes_kms.KeyRegistry.State.{
  StateFile, HashBody, state_file_version, normalize_records, compute_hash, validate_state,
  new_state_file_from_records,
}

module _ (c : Crypto) (marshal : HashBody → Result Text) where
  -- The fields of a state that was built, with its validity.
  pub record IsBuilt (active_key_id : Text) (records : List StateRecord) (generation : ℕ)
      (previous_hash fingerprint : Text) (t : StateFile) : Type 0 where
    pub active_key_id_eq : t.active_key_id ≡ active_key_id
    pub generation_eq : t.generation ≡ generation
    pub previous_hash_eq : t.previous_hash ≡ previous_hash
    pub fingerprint_eq : t.identity_fingerprint ≡ fingerprint
    pub normalized : normalize_records c records ≡ ok t.snapshots
    pub valid : validate_state c marshal t ≡ ok tt

  pub new_state_file_from_records-IsBuilt :
      (k : Text) (rs : List StateRecord) (g : ℕ) (ph fp : Text) (t : StateFile)
      → new_state_file_from_records c marshal k rs g ph fp ≡ ok t
      → IsBuilt k rs g ph fp t
  unfolding new_state_file_from_records
  new_state_file_from_records-IsBuilt k rs g ph fp t h =
      let (_, h1) = fail_if-eq-ok (g == 0) _ _ h in
      let (_, h2) = fail_if-eq-ok (is_empty k) _ _ h1 in
      let (_, h3) = fail_if-eq-ok (length rs == 0) _ _ h2 in
      let (ns, p, h4) = >>=-eq-ok (normalize_records c rs) _ h3 in
      let (hash, q, h5) = >>=-eq-ok (compute_hash c marshal _) _ h4 in
      let (u, v, h6) = >>=-eq-ok (validate_state c marshal _) _ h5 in
      done ns hash p (cc v) (ground (arith, h6))
    where
      done :
          (ns : List StateRecord) (hash : Text)
          → normalize_records c rs ≡ ok ns
          → validate_state c marshal (record {
            schema_version = state_file_version;
            identity_fingerprint = fp;
            generation = g;
            previous_hash = ph;
            current_hash = hash;
            active_key_id = k;
            snapshots = ns;
          })
            ≡ ok tt
          → record {
            schema_version = state_file_version;
            identity_fingerprint = fp;
            generation = g;
            previous_hash = ph;
            current_hash = hash;
            active_key_id = k;
            snapshots = ns;
          }
            ≡ t
          → IsBuilt k rs g ph fp t
      done ns hash p v e = subst (IsBuilt k rs g ph fp) e (record {
        active_key_id_eq = refl;
        generation_eq = refl;
        previous_hash_eq = refl;
        fingerprint_eq = refl;
        normalized = p;
        valid = v;
      })
