-- ===== src/KeyRegistry/State.antt =====
-- internal/keyregistry/state.go and identity.go: the registry state that is persisted, its
-- integrity hash and its validation. `marshal` stands for encoding/json on the hashed body.
pub mod Built
pub mod Gathering
pub mod Progress
pub mod Active
pub mod Next
use openbao_kubernetes_kms.Base.{
  ℕ, ◌+◌, ◌%◌, ◌^◌, ◌≡◌, Bool, true, false, not, ◌&&◌, ◌||◌, List, [], ◌∷◌, ◌++◌, Option, none,
  some, any, ltb, leb, ◌==◌, if◌then◌else◌, Text, codes, text_eq, has_prefix, trim_prefix, length,
  ℤ, lt_int, Result, ok, err, Error, untyped, fail_if, ◌>>=◌, ◌>>◌, wrap_error, err_state_corrupt,
  err_state_rollback,
}
use openbao_kubernetes_kms.Crypto.{Crypto}
use openbao_kubernetes_kms.KeyRegistry.Snapshot.{
  KeySnapshot, SnapshotState, active, pending, retired, rejected, removed, other, state_eq,
  is_empty,
}
use openbao_kubernetes_kms.KeyRegistry.Registry.{Registry, get, put, new_registry}
use openbao_kubernetes_kms.KeyRegistry.Records.{
  StateRecord, corrupt, record_eq, snapshot_of_record, normalize_state_record,
}

pub record StateFile : Type 0 where
  pub schema_version : Text
  pub identity_fingerprint : Text
  pub generation : ℕ  -- uint64
  pub previous_hash : Text
  pub current_hash : Text
  pub active_key_id : Text
  pub snapshots : List StateRecord

-- stateHashBody
pub record HashBody : Type 0 where
  pub schema_version : Text
  pub identity_fingerprint : Text
  pub generation : ℕ
  pub previous_hash : Text
  pub active_key_id : Text
  pub snapshots : List StateRecord

abbrev pub state_file_version : Text
state_file_version = codes "keyregistry.openbao-kms/v1alpha2"

abbrev pub state_hash_prefix : Text
state_hash_prefix = codes "krs1."

abbrev pub rollback : Error
rollback = err_state_rollback ∷ []

-- A generation plus one, in a uint64.
unfoldable pub next_generation : ℕ → ℕ
next_generation g = (g + 1) % 2 ^ 64

unfoldable pub hash_body : StateFile → HashBody
hash_body s = record {
  schema_version = s.schema_version;
  identity_fingerprint = s.identity_fingerprint;
  generation = s.generation;
  previous_hash = s.previous_hash;
  active_key_id = s.active_key_id;
  snapshots = s.snapshots;
}

-- What the loop of StateFile.snapshots has gathered: the active snapshot, once it was seen, the
-- others in order, and the key_ids seen.
pub record Gathered : Type 0 where
  pub active_seen : Option KeySnapshot
  pub historical : List KeySnapshot
  pub seen : List Text

abbrev pub is_decryptable : SnapshotState → Bool
is_decryptable retired = true
is_decryptable pending = true
is_decryptable _ = false

abbrev is_known_historical : SnapshotState → Bool
is_known_historical retired = true
is_known_historical pending = true
is_known_historical rejected = true
is_known_historical removed = true
is_known_historical _ = false

-- The loop of StateFile.Registry over the historical snapshots.
unfoldable pub keep_decryptable : List KeySnapshot → Result (List KeySnapshot)
keep_decryptable [] = ok []
keep_decryptable (s ∷ ss) = do
  fail_if (not (is_known_historical s.state)) corrupt
  rest ← keep_decryptable ss
  ok (if is_decryptable s.state then s ∷ rest else rest)

-- The rule of validateRetainedSnapshots for one record and the record of the same key_id in the
-- next state.
unfoldable pub is_retained : StateRecord → Option StateRecord → Bool
is_retained r none = not (
    state_eq r.state pending
    || (state_eq r.state active || (state_eq r.state retired || state_eq r.state removed)))
is_retained r (some n) = elim r.state [
  | pending ↦ state_eq n.state pending || (state_eq n.state active || state_eq n.state retired)
  | active ↦ state_eq n.state active || state_eq n.state retired
  | retired ↦ state_eq n.state active || state_eq n.state retired
  | removed ↦ record_eq n r
  | _ ↦ true
]

-- The records of the next state by key_id; of two with one key_id the later one counts.
unfoldable pub by_key_id : List StateRecord → List (Text × StateRecord) → List (Text × StateRecord)
by_key_id [] m = m
by_key_id (r ∷ rs) m = by_key_id rs (put r.kubernetes_key_id r m)

-- validateRetainedSnapshots
unfoldable pub validate_retained_snapshots : StateFile → StateFile → Result (Unit {0})
unfolding by_key_id is_retained
validate_retained_snapshots previous next =
    fail_if
      (any (λ r. not (is_retained r (get r.kubernetes_key_id (by_key_id next.snapshots []))))
        previous.snapshots)
      rollback

module _ (c : Crypto) where
  open c use {sha256, raw_url_encode, raw_url_decode, raw_url_decode_strict}

  -- A decoded digest has 32 bytes.
  abbrev is_digest : Option Text → Bool
  is_digest none = false
  is_digest (some d) = length d == 32

  -- validateStateHash
  unfoldable pub validate_state_hash : Text → Result (Unit {0})
  validate_state_hash hash = do
    fail_if (not (has_prefix hash state_hash_prefix)) corrupt
    fail_if (not (is_digest (raw_url_decode (trim_prefix hash state_hash_prefix)))) corrupt

  -- ValidateIdentityFingerprint (identity.go)
  unfoldable pub validate_identity_fingerprint : Text → Result (Unit {0})
  validate_identity_fingerprint value = do
    fail_if
        (not (has_prefix value (codes "cfg1."))
          || not (length value == length (codes "cfg1.") + 43))
        corrupt
    fail_if (not (is_digest (raw_url_decode_strict (trim_prefix value (codes "cfg1."))))) corrupt

  -- One round of the loop of StateFile.snapshots.
  unfoldable pub gather : Text → Gathered → StateRecord → Result Gathered
  gather active_key_id g r = do
    s ← wrap_error err_state_corrupt (snapshot_of_record c r)
    fail_if (any (text_eq s.kubernetes_key_id) g.seen) corrupt
    let h = record g { seen = s.kubernetes_key_id ∷ g.seen }
    elim (text_eq s.kubernetes_key_id active_key_id) [
      | true ↦ do
        fail_if (not (state_eq s.state active)) corrupt
        elim g.active_seen [ some _ ↦ err corrupt | none ↦ ok (record h { active_seen = some s }) ]
      | false ↦ do
        fail_if (state_eq s.state active) corrupt
        ok (record h { historical = g.historical ++ s ∷ [] })
    ]

  unfoldable pub gather_all : Text → Gathered → List StateRecord → Result Gathered
  gather_all active_key_id g [] = ok g
  gather_all active_key_id g (r ∷ rs) =
      gather active_key_id g r >>= λ h. gather_all active_key_id h rs

  -- StateFile.snapshots
  unfoldable pub state_snapshots : StateFile → Result (KeySnapshot × List KeySnapshot)
  state_snapshots s = do
    g ←
        gather_all s.active_key_id (record { active_seen = none; historical = []; seen = [] })
          s.snapshots
    elim g.active_seen [ none ↦ err corrupt | some a ↦ ok (a, g.historical) ]

  -- StateFile.Registry
  unfoldable pub state_registry : StateFile → Result Registry
  state_registry s = do
    (a, historical) ← state_snapshots s
    kept ← keep_decryptable historical
    new_registry c a kept

  -- StateFile.ActiveSnapshot
  unfoldable pub state_active : StateFile → Result KeySnapshot
  state_active s = do (a, historical) ← state_snapshots s; ok a

  -- The loop of NewStateFileFromRecords.
  unfoldable pub normalize_records : List StateRecord → Result (List StateRecord)
  normalize_records [] = ok []
  normalize_records (r ∷ rs) = do
    n ← normalize_state_record c r
    rest ← normalize_records rs
    ok (n ∷ rest)

  module _ (marshal : HashBody → Result Text) where
    -- StateFile.computeHash
    unfoldable pub compute_hash : StateFile → Result Text
    compute_hash s = do
      canonical ← marshal (hash_body s)
      ok (state_hash_prefix ++ raw_url_encode (sha256 canonical))

    -- StateFile.Validate
    unfoldable pub validate_state : StateFile → Result (Unit {0})
    validate_state s = do
      fail_if (not (text_eq s.schema_version state_file_version)) corrupt
      validate_identity_fingerprint s.identity_fingerprint
      fail_if (s.generation == 0) corrupt
      fail_if (is_empty s.active_key_id) corrupt
      fail_if (length s.snapshots == 0) corrupt
      (if is_empty s.previous_hash then ok tt else validate_state_hash s.previous_hash)
      validate_state_hash s.current_hash
      hash ← compute_hash s
      fail_if (not (text_eq s.current_hash hash)) corrupt
      _ ← state_registry s
      ok tt

    -- NewStateFileFromRecords
    unfoldable pub new_state_file_from_records :
        Text → List StateRecord → ℕ → Text → Text → Result StateFile
    new_state_file_from_records active_key_id records generation previous_hash fingerprint = do
      fail_if (generation == 0) untyped
      fail_if (is_empty active_key_id) untyped
      fail_if (length records == 0) untyped
      normalized ← normalize_records records
      let s : StateFile = record {
        schema_version = state_file_version;
        identity_fingerprint = fingerprint;
        generation = generation;
        previous_hash = previous_hash;
        current_hash = [];
        active_key_id = active_key_id;
        snapshots = normalized;
      }
      hash ← compute_hash s
      let t = record s { current_hash = hash }
      validate_state t
      ok t

    -- ValidateStateProgress
    unfoldable pub validate_state_progress : StateFile → StateFile → Result (Unit {0})
    validate_state_progress previous next = do
      validate_state previous
      validate_state next
      fail_if (not (text_eq next.identity_fingerprint previous.identity_fingerprint)) rollback
      fail_if (leb next.generation previous.generation) rollback
      fail_if (not (text_eq next.previous_hash previous.current_hash)) rollback
      previous_active ← state_active previous
      next_active ← state_active next
      fail_if (lt_int next_active.transit_version previous_active.transit_version) rollback
      validate_retained_snapshots previous next
