-- ===== src/KeyRegistry/Records.antt =====
-- internal/keyregistry/state.go: the persisted record of a snapshot and its way into a snapshot.
use openbao_kubernetes_kms.Base.{
  Bool, not, ◌&&◌, [], ◌∷◌, Text, text_eq, ℤ, pos, lt_int, eq_int, Result, ok, Error, fail_if,
  ◌>>=◌, ◌>>◌, err_state_corrupt,
}
use openbao_kubernetes_kms.Crypto.{Crypto}
use openbao_kubernetes_kms.Clock.{to_unix, of_unix}
use openbao_kubernetes_kms.KeyRegistry.Snapshot.{
  KeySnapshot, SnapshotState, AadMode, state_eq, mode_eq, normalize,
}

-- SnapshotStateRecord. The state and the mode are the strings that the snapshot's types stand for.
pub record StateRecord : Type 0 where
  pub provider_name : Text
  pub cluster_id : Text
  pub instance_id : Text
  pub namespace : Text
  pub mount_id : Text
  pub lineage_id : Text
  pub transit_version : ℤ
  pub created_at_unix : ℤ
  pub kubernetes_key_id : Text
  pub state : SnapshotState
  pub aad_mode : AadMode
  pub observed_at_unix : ℤ
  pub stable_observation_count : ℤ
  pub stable_at_unix : ℤ
  pub promoted_at_unix : ℤ

abbrev pub corrupt : Error
corrupt = err_state_corrupt ∷ []

abbrev pub is_zero_int : ℤ → Bool
is_zero_int v = eq_int v (pos 0)

-- Go's == on two records.
unfoldable pub record_eq : StateRecord → StateRecord → Bool
record_eq r s =
    text_eq r.provider_name s.provider_name
    && (text_eq r.cluster_id s.cluster_id
        && (text_eq r.instance_id s.instance_id
            && (text_eq r.namespace s.namespace
                && (text_eq r.mount_id s.mount_id
                    && (text_eq r.lineage_id s.lineage_id
                        && (eq_int r.transit_version s.transit_version
                            && (eq_int r.created_at_unix s.created_at_unix
                                && (text_eq r.kubernetes_key_id s.kubernetes_key_id
                                    && (state_eq r.state s.state
                                        && (mode_eq r.aad_mode s.aad_mode
                                            && (eq_int r.observed_at_unix s.observed_at_unix
                                                && (eq_int r.stable_observation_count
                                                      s.stable_observation_count
                                                    && (eq_int r.stable_at_unix s.stable_at_unix
                                                        && eq_int r.promoted_at_unix
                                                            s.promoted_at_unix)))))))))))))

-- validateObservationMetadata
unfoldable pub validate_observation_metadata : StateRecord → Result (Unit {0})
validate_observation_metadata r = do
  fail_if (lt_int r.observed_at_unix (pos 0)) corrupt
  fail_if (lt_int r.stable_observation_count (pos 0)) corrupt
  fail_if (lt_int r.stable_at_unix (pos 0)) corrupt
  fail_if (lt_int r.promoted_at_unix (pos 0)) corrupt
  fail_if (lt_int (pos 0) r.stable_observation_count && is_zero_int r.observed_at_unix) corrupt
  fail_if (not (is_zero_int r.stable_at_unix) && is_zero_int r.stable_observation_count) corrupt
  fail_if
      (not (is_zero_int r.stable_at_unix)
        && (not (is_zero_int r.observed_at_unix) && lt_int r.stable_at_unix r.observed_at_unix))
      corrupt
  fail_if
      (not (is_zero_int r.promoted_at_unix)
        && (not (is_zero_int r.observed_at_unix) && lt_int r.promoted_at_unix r.observed_at_unix))
      corrupt

-- SnapshotStateRecordFromSnapshot
unfoldable pub record_of_snapshot : KeySnapshot → StateRecord
record_of_snapshot s = record {
  provider_name = s.provider_name;
  cluster_id = s.cluster_id;
  instance_id = s.instance_id;
  namespace = s.namespace;
  mount_id = s.mount_id;
  lineage_id = s.lineage_id;
  transit_version = s.transit_version;
  created_at_unix = to_unix s.created_at;
  kubernetes_key_id = s.kubernetes_key_id;
  state = s.state;
  aad_mode = s.aad_mode;
  observed_at_unix = pos 0;
  stable_observation_count = pos 0;
  stable_at_unix = pos 0;
  promoted_at_unix = pos 0;
}

-- The snapshot that SnapshotStateRecord.Snapshot assembles before it normalizes it.
unfoldable pub raw_snapshot : StateRecord → KeySnapshot
raw_snapshot r = record {
  provider_name = r.provider_name;
  cluster_id = r.cluster_id;
  instance_id = r.instance_id;
  namespace = r.namespace;
  mount_id = r.mount_id;
  lineage_id = r.lineage_id;
  transit_version = r.transit_version;
  created_at = of_unix r.created_at_unix;
  kubernetes_key_id = r.kubernetes_key_id;
  state = r.state;
  aad_mode = r.aad_mode;
}

module _ (c : Crypto) where
  -- SnapshotStateRecord.Snapshot
  unfoldable pub snapshot_of_record : StateRecord → Result KeySnapshot
  unfolding raw_snapshot
  snapshot_of_record r = do validate_observation_metadata r; normalize c (raw_snapshot r)

  -- normalizeStateRecord
  unfoldable pub normalize_state_record : StateRecord → Result StateRecord
  normalize_state_record r = do
    s ← snapshot_of_record r
    ok (record r {
      provider_name = s.provider_name;
      cluster_id = s.cluster_id;
      instance_id = s.instance_id;
      namespace = s.namespace;
      mount_id = s.mount_id;
      lineage_id = s.lineage_id;
      transit_version = s.transit_version;
      created_at_unix = to_unix s.created_at;
      kubernetes_key_id = s.kubernetes_key_id;
      state = s.state;
      aad_mode = s.aad_mode;
    })
