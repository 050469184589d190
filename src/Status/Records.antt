-- ===== src/Status/Records.antt =====
-- internal/status/rotation.go: records made from snapshots, and their order in the state file.
use openbao_kubernetes_kms.Base.{
  ℕ, Bool, true, false, not, List, [], ◌∷◌, ltb, ◌==◌, if◌then◌else◌, Text, text_eq, ℤ, pos, lt_int,
  eq_int, Result, ok, ◌>>=◌, ◌>>◌,
}
use openbao_kubernetes_kms.Crypto.{Crypto}
use openbao_kubernetes_kms.Clock.{Time, no_time, is_zero, to_unix, of_unix}
use openbao_kubernetes_kms.KeyRegistry.Snapshot.{KeySnapshot, pending, retired, rejected}
use openbao_kubernetes_kms.KeyRegistry.Records.{StateRecord, record_of_snapshot, is_zero_int}
use openbao_kubernetes_kms.KeyRegistry.State.{
  StateFile, HashBody, next_generation, new_state_file_from_records, validate_state_progress,
}

abbrev unix_unless_zero : Time → ℤ → ℤ
unix_unless_zero t old = if is_zero t then old else to_unix t

-- recordFromSnapshot
unfoldable pub record_from_snapshot : KeySnapshot → Time → Time → ℤ → Time → StateRecord
record_from_snapshot snapshot observed_at stable_at stable_count promoted_at =
    let r = record_of_snapshot snapshot in
    record r {
      observed_at_unix = unix_unless_zero observed_at r.observed_at_unix;
      stable_observation_count =
          if lt_int (pos 0) stable_count then stable_count else r.stable_observation_count;
      stable_at_unix = unix_unless_zero stable_at r.stable_at_unix;
      promoted_at_unix = unix_unless_zero promoted_at r.promoted_at_unix;
    }

-- recordTime
unfoldable pub record_time : ℤ → Time
record_time u = if is_zero_int u then no_time else of_unix u

-- Go's < on strings.
unfoldable pub text_lt : Text → Text → Bool
text_lt [] [] = false
text_lt [] (_ ∷ _) = true
text_lt (_ ∷ _) [] = false
text_lt (x ∷ xs) (y ∷ ys) = let rest = text_lt xs ys in if x == y then rest else ltb x y

-- recordSortKey's priority
unfoldable pub priority : Text → StateRecord → ℕ
priority active_key_id r =
    let other : ℕ = elim r.state [ pending ↦ 1 | retired ↦ 2 | rejected ↦ 3 | _ ↦ 4 ] in
    if text_eq r.kubernetes_key_id active_key_id then 0 else other

-- The comparison that orderedRecords sorts by.
unfoldable pub record_lt : Text → StateRecord → StateRecord → Bool
unfolding priority text_lt
record_lt active_key_id left right =
    if not (priority active_key_id left == priority active_key_id right)
    then ltb (priority active_key_id left) (priority active_key_id right)
    else if not (eq_int left.transit_version right.transit_version)
    then lt_int right.transit_version left.transit_version
    else text_lt left.kubernetes_key_id right.kubernetes_key_id

-- sort.SliceStable: equal records keep their order.
unfoldable pub insert_record : Text → StateRecord → List StateRecord → List StateRecord
insert_record k r [] = r ∷ []
insert_record k r (s ∷ ss) = if record_lt k s r then s ∷ insert_record k r ss else r ∷ s ∷ ss

-- orderedRecords
unfoldable pub ordered_records : Text → List StateRecord → List StateRecord
ordered_records k [] = []
ordered_records k (r ∷ rs) = insert_record k r (ordered_records k rs)

module _ (c : Crypto) (marshal : HashBody → Result Text) where
  -- nextStateFromRecords
  unfoldable pub next_state_from_records : StateFile → Text → List StateRecord → Result StateFile
  next_state_from_records previous active_key_id records = do
    next ←
        new_state_file_from_records c marshal active_key_id (ordered_records active_key_id records)
          (next_generation previous.generation) previous.current_hash previous.identity_fingerprint
    validate_state_progress c marshal previous next
    ok next
