-- ===== src/Status/Promotion/Steps.antt =====
-- What one observation of internal/status/rotation.go may do to the registry state.
use openbao_kubernetes_kms.Base.{
  ◌≡◌, ap, ◌∙◌, subst, inl, inr, Bool, true, false, not, ◌&&◌, List, arith, pos, Result, ok, lt_int,
  le_int, Text, fail_if-eq-ok, >>=-eq-ok, Bool-cases, and_split,
}
use openbao_kubernetes_kms.Crypto.{Crypto}
use openbao_kubernetes_kms.Clock.{Time, no_time, to_unix}
use openbao_kubernetes_kms.KeyRegistry.Snapshot.{KeySnapshot, active, pending, normalize}
use openbao_kubernetes_kms.KeyRegistry.Records.{StateRecord, snapshot_of_record}
use openbao_kubernetes_kms.KeyRegistry.State.{
  StateFile, HashBody, validate_state, validate_state_progress, state_active, next_generation,
  new_state_file_from_records,
}
use openbao_kubernetes_kms.KeyRegistry.State.Next.{Follows, progress-next_generation}
use openbao_kubernetes_kms.KeyRegistry.State.Built.{IsBuilt, new_state_file_from_records-IsBuilt}
use openbao_kubernetes_kms.OpenBao.Profile.{KeyProfile}
use openbao_kubernetes_kms.Status.Profile.{validate_profile}
use openbao_kubernetes_kms.Status.Records.{
  record_from_snapshot, ordered_records, next_state_from_records,
}
use openbao_kubernetes_kms.Status.Rotation.{
  Observer, ObservationResult, promotion_allowed, records_eq, snapshot_for_profile,
  validate_state_scope, validate_decryptable_records, intermediate_historical_records,
  upsert_pending_record,
}
use openbao_kubernetes_kms.Status.Promotion.{
  some_pending, retire_active, promote_pending_record, validate_profile_for_state,
  pending_observation, promote_or_wait, observe_candidate, observe_newer_version, observe_validated,
  observe_step, discover,
}

module _ (c : Crypto) (marshal : HashBody → Result Text) where
  -- A next state is built for the asked active key, and the progress from the previous one is valid.
  next_state-Follows :
      (s t : StateFile) (k : Text) (rs : List StateRecord)
      → next_state_from_records c marshal s k rs ≡ ok t
      → Follows c marshal s t
        × IsBuilt c marshal k
            (ordered_records k rs)
            (next_generation s.generation)
            s.current_hash
            s.identity_fingerprint
            t
  unfolding next_state_from_records
  next_state-Follows s t k rs h =
      let (n, p, h1) =
        >>=-eq-ok
          (new_state_file_from_records c marshal k (ordered_records k rs)
            (next_generation s.generation) s.current_hash s.identity_fingerprint)
          _ h in
      let (_, q, h2) = >>=-eq-ok (validate_state_progress c marshal s n) _ h1 in
      let same : n ≡ t = ground (arith, h2) in
      let b = new_state_file_from_records-IsBuilt c marshal k _ _ _ _ t (p ∙ ap ok same) in
      let progress = subst (λ x. validate_state_progress c marshal s x ≡ ok tt) same (cc q) in
      ((progress, progress-next_generation c marshal s t progress b.generation_eq), b)

  -- The ways an observation of `s` may end.
  pub data Outcome (s : StateFile) (o : Observer) (p : KeyProfile) (now : Time)
      (advance ready : Bool) : ObservationResult → Type 0 where
    -- Nothing was written.
    unchanged :
        (r : ObservationResult)
        → r.state ≡ s
        → r.changed ≡ false
        → r.promoted ≡ false
        → Outcome s o p now advance ready r
    -- Bookkeeping was written, under the same active key.
    noted :
        (r : ObservationResult)
        → Follows c marshal s r.state
        → r.state.active_key_id ≡ s.active_key_id
        → r.changed ≡ true
        → r.promoted ≡ false
        → Outcome s o p now advance ready r
    -- The record of the latest version, as this observation counts it, was promoted.
    promoted_now :
        (r : ObservationResult) (k : KeySnapshot) (i rs : List StateRecord) (q : StateRecord)
        → snapshot_for_profile c o p p.latest_version pending ≡ ok k
        → upsert_pending_record c s
            (record_from_snapshot k now no_time (pos 0) no_time)
            o.policy.require_stable_observation_count
            now
            i
            advance
          ≡ ok (rs, q)
        → advance ≡ true
        → promotion_allowed o q ready ≡ true
        → promote_pending_record c marshal s rs q now ≡ ok r.state
        → Follows c marshal s r.state
        → r.changed ≡ true
        → r.promoted ≡ true
        → Outcome s o p now advance ready r

  pending_observation-Outcome :
      (s : StateFile) (rs : List StateRecord) (p : KeyProfile) (blocked reg : Bool)
      (r : ObservationResult) (o : Observer) (now : Time) (advance ready : Bool)
      → pending_observation c marshal s rs p blocked ≡ ok r
      → Outcome s o p now advance ready (record r { clock_regressed = reg })
  unfolding pending_observation
  pending_observation-Outcome s rs p blocked reg r o now advance ready h =
      elim (Bool-cases (records_eq s.snapshots rs)) [
        | inl e ↦ unchanged _ (ground arith) (ground arith) (ground arith)
        | inr e ↦
            let h' = rw (e, pending_observation) at h in
            let (n, q, h1) =
              >>=-eq-ok (next_state_from_records c marshal s s.active_key_id rs) _ h' in
            let (_, _, h2) = >>=-eq-ok (validate_decryptable_records c p n.snapshots) _ h1 in
            let (progress, built) = next_state-Follows s n s.active_key_id rs q in
            let same : n ≡ r.state = ground (arith, h2) in
            noted _ (subst (Follows c marshal s) same progress)
              (subst (λ x. x.active_key_id ≡ s.active_key_id) same built.active_key_id_eq)
              (ground (arith, h2)) (ground (arith, h2))
      ]

  promote_pending-Follows :
      (s n : StateFile) (rs : List StateRecord) (r : StateRecord) (now : Time)
      → promote_pending_record c marshal s rs r now ≡ ok n
      → Follows c marshal s n
  unfolding promote_pending_record
  promote_pending-Follows s n rs r now h =
      let (k, _, h1) = >>=-eq-ok (snapshot_of_record c r) _ h in
      let (a, _, h2) = >>=-eq-ok (normalize c (record k { state = active })) _ h1 in
      let (g, _, h3) = >>=-eq-ok (retire_active c r.kubernetes_key_id s.active_key_id _ rs) _ h2 in
      let (_, h4) = fail_if-eq-ok (not g.active_retired) _ _ h3 in (next_state-Follows s n _ _ h4).0

  promote_or_wait-Outcome :
      (o : Observer) (s : StateFile) (p : KeyProfile) (now : Time) (advance ready blocked : Bool)
      (k : KeySnapshot) (i rs : List StateRecord) (q : StateRecord) (r : ObservationResult)
      → snapshot_for_profile c o p p.latest_version pending ≡ ok k
      → upsert_pending_record c s
          (record_from_snapshot k now no_time (pos 0) no_time)
          o.policy.require_stable_observation_count
          now
          i
          advance
        ≡ ok (rs, q)
      → promote_or_wait c marshal o s p now advance ready blocked rs q ≡ ok r
      → Outcome s o p now advance ready r
  unfolding promote_or_wait
  promote_or_wait-Outcome o s p now advance ready blocked k i rs q r candidate upserted h =
      elim (Bool-cases (advance && promotion_allowed o q ready)) [
        | inl e ↦
            let (n, w, h1) =
              >>=-eq-ok (promote_pending_record c marshal s rs q now) _
                (rw (e, promote_or_wait) at h) in
            let (_, _, h2) = >>=-eq-ok (validate_profile_for_state c marshal p n) _ h1 in
            let same : n ≡ r.state = ground (arith, h2) in
            let (on, allowed) = and_split advance (promotion_allowed o q ready) e in
            promoted_now r k i rs q candidate upserted on allowed (w ∙ ap ok same)
              (subst (Follows c marshal s) same (promote_pending-Follows s n rs q now w))
              (ground (arith, h2)) (ground (arith, h2))
        | inr e ↦
            let (w, u, h1) =
              >>=-eq-ok (pending_observation c marshal s rs p blocked) _
                (rw (e, promote_or_wait) at h) in
            let reg = w.changed && lt_int (to_unix now) q.stable_at_unix in
            let same : record w { clock_regressed = reg } ≡ r = ground (arith, h1) in
            subst (Outcome s o p now advance ready) same
              (pending_observation-Outcome s rs p blocked reg w o now advance ready u)
      ]

  candidate-Outcome :
      (o : Observer) (s : StateFile) (p : KeyProfile) (now : Time) (advance ready blocked : Bool)
      (i : List StateRecord) (k : KeySnapshot) (r : ObservationResult)
      → snapshot_for_profile c o p p.latest_version pending ≡ ok k
      → observe_candidate c marshal o s p now advance ready blocked i k ≡ ok r
      → Outcome s o p now advance ready r
  unfolding observe_candidate
  candidate-Outcome o s p now advance ready blocked i k r candidate h =
      elim (Bool-cases (not advance && some_pending k.kubernetes_key_id s.snapshots)) [
        | inl e ↦ unchanged r (ground arith) (ground arith) (ground arith)
        | inr e ↦
            let h' = rw (e, observe_candidate) at h in
            let ((rs, q), upserted, h1) =
              >>=-eq-ok
                (upsert_pending_record c s (record_from_snapshot k now no_time (pos 0) no_time)
                  o.policy.require_stable_observation_count now i advance)
                _ h' in
            promote_or_wait-Outcome o s p now advance ready blocked k i rs q r candidate upserted h1
      ]

  newer-Outcome :
      (o : Observer) (s : StateFile) (p : KeyProfile) (now : Time) (advance ready : Bool)
      (r : ObservationResult)
      → observe_newer_version c marshal o s p now advance ready ≡ ok r
      → Outcome s o p now advance ready r
  unfolding observe_newer_version
  newer-Outcome o s p now advance ready r h =
      let (a, _, h1) = >>=-eq-ok (state_active c s) _ h in
      let (i, _, h2) =
        >>=-eq-ok (intermediate_historical_records c o s p a.transit_version now) _ h1 in
      let (k, candidate, h3) =
        >>=-eq-ok (snapshot_for_profile c o p p.latest_version pending) _ h2 in
      candidate-Outcome o s p now advance ready _ i k r candidate h3

  -- An observation that does not fail leaves the state as it is, writes bookkeeping under the same
  -- active key, or promotes; what it writes is always valid progress from the state before, and it
  -- promotes only while advancing, for a record that is stable and whose delay is over.
  pub observe_step-Outcome :
      (o : Observer) (s : StateFile) (p : KeyProfile) (now : Time) (advance ready : Bool)
      (r : ObservationResult)
      → observe_step c marshal o s p now advance ready ≡ ok r
      → Outcome s o p now advance ready r
  unfolding observe_step
  observe_step-Outcome o s p now advance ready r h =
      let (_, _, h1) = >>=-eq-ok (validate_state c marshal s) _ h in
      let (_, _, h2) = >>=-eq-ok (validate_profile p) _ h1 in
      let (_, _, h3) = >>=-eq-ok (validate_state_scope c o s) _ h2 in
      let (a, _, h4) = >>=-eq-ok (state_active c s) _ h3 in
      let (_, h5) = fail_if-eq-ok _ _ _ h4 in
      let (_, _, h6) = >>=-eq-ok (validate_decryptable_records c p s.snapshots) _ h5 in
      current_or_newer a h6
    where
      current_or_newer :
          (a : KeySnapshot)
          → observe_validated c marshal o s p now advance ready a ≡ ok r
          → Outcome s o p now advance ready r
      current_or_newer a h6 = elim (Bool-cases (le_int p.latest_version a.transit_version)) [
        | inl e ↦ unchanged r (ground arith) (ground arith) (ground arith)
        | inr e ↦ newer-Outcome o s p now advance ready r (rw (e, observe_validated) at h6)
      ]

  -- Discover never promotes and never changes the active key, whatever the metadata says.
  pub discover-keeps_active :
      (o : Observer) (s : StateFile) (p : KeyProfile) (now : Time) (r : ObservationResult)
      → discover c marshal o s p now ≡ ok r
      → (r.promoted ≡ false) × (r.state.active_key_id ≡ s.active_key_id)
  unfolding discover
  discover-keeps_active o s p now r h = keeps (observe_step-Outcome o s p now false false r h)
    where
      keeps :
          Outcome s o p now false false r
          → (r.promoted ≡ false) × (r.state.active_key_id ≡ s.active_key_id)
      keeps (unchanged _ e _ q) = (q, ap (λ x. x.active_key_id) e)
      keeps (noted _ _ k _ q) = (q, k)
      keeps (promoted_now _ _ _ _ _ _ _ a _ _ _ _ _) = absurd (cc)
