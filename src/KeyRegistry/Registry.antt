-- ===== src/KeyRegistry/Registry.antt =====
-- internal/keyregistry/keyregistry.go: the in-memory registry of decryptable snapshots. A Go map
-- is an association list with one entry for each key.
pub mod Lookup
use openbao_kubernetes_kms.Base.{
  Bool, true, false, not, ◌&&◌, List, [], ◌∷◌, Option, none, some, ◌==◌, if◌then◌else◌, Text,
  text_eq, eq_int, Result, ok, err, untyped, fail_if, ◌>>=◌, ◌>>◌, err_unknown_key_id,
}
use openbao_kubernetes_kms.Crypto.{Crypto}
use openbao_kubernetes_kms.KeyRegistry.Snapshot.{
  KeySnapshot, active, removed, state_eq, mode_eq, parse_key_id, normalize,
}

-- Go's == on two KeySnapshot values.
unfoldable pub snapshot_eq : KeySnapshot → KeySnapshot → Bool
snapshot_eq s t =
    text_eq s.provider_name t.provider_name
    && (text_eq s.cluster_id t.cluster_id
        && (text_eq s.instance_id t.instance_id
            && (text_eq s.namespace t.namespace
                && (text_eq s.mount_id t.mount_id
                    && (text_eq s.lineage_id t.lineage_id
                        && (eq_int s.transit_version t.transit_version
                            && (s.created_at == t.created_at
                                && (text_eq s.kubernetes_key_id t.kubernetes_key_id
                                    && (state_eq s.state t.state
                                        && mode_eq s.aad_mode t.aad_mode)))))))))

-- m[k] and m[k] = v
module _ {ℓ} {V : Type ℓ} where
  unfoldable pub get : Text → List (Text × V) → Option V
  get k [] = none
  get k ((j, v) ∷ m) = if text_eq j k then some v else get k m

  unfoldable pub put : Text → V → List (Text × V) → List (Text × V)
  put k v [] = (k, v) ∷ []
  put k v ((j, w) ∷ m) = if text_eq j k then (k, v) ∷ m else (j, w) ∷ put k v m

pub record Registry : Type 0 where
  pub active_key_id : Text
  pub snapshots : List (Text × KeySnapshot)

-- Registry.insert
unfoldable pub insert : Registry → KeySnapshot → Result Registry
insert r s = elim (get s.kubernetes_key_id r.snapshots) [
  | none ↦ ok (record r { snapshots = put s.kubernetes_key_id s r.snapshots })
  | some existing ↦
      if not (snapshot_eq existing s)
      then err untyped
      else ok (record r { snapshots = put s.kubernetes_key_id s r.snapshots })
]

module _ (c : Crypto) where
  -- The loop of NewRegistry over the historical snapshots.
  unfoldable pub insert_all : Registry → List KeySnapshot → Result Registry
  insert_all r [] = ok r
  insert_all r (x ∷ xs) = elim (normalize c x) [
    | err e ↦ err e
    | ok s ↦ elim (state_eq s.state removed) [
      | true ↦ insert_all r xs
      | false ↦ elim (insert r s) [ err e ↦ err e | ok r' ↦ insert_all r' xs ]
    ]
  ]

  -- NewRegistry
  unfoldable pub new_registry : KeySnapshot → List KeySnapshot → Result Registry
  new_registry a historical = do
    s ← normalize c a
    fail_if (not (state_eq s.state active)) untyped
    r ← insert (record { active_key_id = s.kubernetes_key_id; snapshots = [] }) s
    insert_all r historical

  -- Registry.Lookup
  unfoldable pub lookup : Registry → Text → Result KeySnapshot
  lookup r key_id = do
    parsed ← parse_key_id c key_id
    elim (get parsed r.snapshots) [ none ↦ err (err_unknown_key_id ∷ []) | some s ↦ ok s ]

-- Registry.Active
unfoldable pub active_snapshot : Registry → Option KeySnapshot
active_snapshot r = get r.active_key_id r.snapshots
