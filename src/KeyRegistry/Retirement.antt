-- ===== src/KeyRegistry/Retirement.antt =====
-- internal/keyregistry/retirement.go: the operator's decisions to stop and to resume accepting
-- historical keys.
pub mod Kept
use openbao_kubernetes_kms.Base.{
  ℕ, ◌≡◌, Bool, true, false, not, ◌&&◌, ◌||◌, List, [], ◌∷◌, any, ℤ, pos, lt_int, le_int, eq_int,
  length, ◌==◌, if◌then◌else◌, Text, Result, ok, untyped, fail_if, ◌>>=◌, ◌>>◌,
}
use openbao_kubernetes_kms.Crypto.{Crypto}
use openbao_kubernetes_kms.KeyRegistry.Snapshot.{SnapshotState, retired, removed, state_eq}
use openbao_kubernetes_kms.KeyRegistry.Records.{StateRecord}
use openbao_kubernetes_kms.KeyRegistry.State.{
  StateFile, HashBody, next_generation, state_active, validate_state, new_state_file_from_records,
}

abbrev pub is_retirable : ℤ → StateRecord → Bool
is_retirable before r = state_eq r.state retired && lt_int r.transit_version before

-- The loop of RetireVersions.
unfoldable pub retire_records : ℤ → List StateRecord → List StateRecord
retire_records before [] = []
retire_records before (r ∷ rs) =
    (if is_retirable before r then record r { state = removed } else r) ∷ retire_records before rs

abbrev pub selects : List ℤ → ℤ → Bool
selects vs v = any (eq_int v) vs

-- `delete(selected, v)`
unfoldable pub delete : ℤ → List ℤ → List ℤ
delete v [] = []
delete v (w ∷ ws) = let rest = delete v ws in if eq_int v w then rest else w ∷ rest

-- The first loop of RestoreVersions, with what is selected so far.
unfoldable pub select_versions : ℤ → List ℤ → List ℤ → Result (List ℤ)
select_versions active_version selected [] = ok selected
select_versions active_version selected (v ∷ vs) = do
  fail_if (le_int v (pos 0) || (le_int active_version v || selects selected v)) untyped
  select_versions active_version (v ∷ selected) vs

-- The second loop of RestoreVersions: the records, and what is still selected.
unfoldable pub restore_records : List ℤ → List StateRecord → Result (List StateRecord × List ℤ)
restore_records selected [] = ok ([], selected)
restore_records selected (r ∷ rs) = elim (selects selected r.transit_version) [
  | false ↦ do (rest, left) ← restore_records selected rs; ok (r ∷ rest, left)
  | true ↦ do
    fail_if (not (state_eq r.state removed)) untyped
    (rest, left) ← restore_records (delete r.transit_version selected) rs
    ok (record r { state = retired } ∷ rest, left)
]

module _ (c : Crypto) (marshal : HashBody → Result Text) where
  -- The next generation of a state, with other records under the same active key.
  unfoldable pub successor : StateFile → List StateRecord → Result StateFile
  successor previous records =
      new_state_file_from_records c marshal previous.active_key_id records
        (next_generation previous.generation) previous.current_hash previous.identity_fingerprint

  -- RetireVersions
  unfoldable pub retire_versions : StateFile → ℤ → Result StateFile
  unfolding successor
  retire_versions previous before = do
    validate_state c marshal previous
    a ← state_active c previous
    fail_if (le_int before (pos 1) || lt_int a.transit_version before) untyped
    elim (any (is_retirable before) previous.snapshots) [
      | false ↦ ok previous
      | true ↦ successor previous (retire_records before previous.snapshots)
    ]

  -- RestoreVersions
  unfoldable pub restore_versions : StateFile → List ℤ → Result StateFile
  unfolding successor
  restore_versions previous versions = do
    validate_state c marshal previous
    a ← state_active c previous
    selected ← select_versions a.transit_version [] versions
    fail_if (length selected == 0) untyped
    (records, left) ← restore_records selected previous.snapshots
    fail_if (not (length left == 0)) untyped
    successor previous records
