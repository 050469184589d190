-- ===== src/KeyRegistry/State/Progress.antt =====
-- What a valid step of internal/keyregistry/state.go keeps: no key that was decryptable is lost.
use openbao_kubernetes_kms.Base.{
  ◌≡◌, refl, sym, ◌∙◌, ap, subst, ◌⊎◌, inl, inr, Bool, true, false, not, List, [], ◌∷◌, Option,
  none, some, arith, Text, text_eq, text_eq_iff, Result, ok, leb, lt_int, fail_if-eq-ok, >>=-eq-ok,
  Bool-cases, Result-cases,
}
use openbao_kubernetes_kms.Crypto.{Crypto, CryptoLaws}
use openbao_kubernetes_kms.KeyRegistry.Snapshot.{KeySnapshot, state_eq, is_empty}
use openbao_kubernetes_kms.KeyRegistry.Registry.{get, put, Registry, lookup}
use openbao_kubernetes_kms.KeyRegistry.Registry.Lookup.{get-put}
use openbao_kubernetes_kms.KeyRegistry.Records.{StateRecord}
use openbao_kubernetes_kms.KeyRegistry.State.{
  StateFile, HashBody, state_registry, state_active, is_retained, by_key_id,
  validate_retained_snapshots, validate_state, validate_state_progress,
}
use openbao_kubernetes_kms.KeyRegistry.State.Gathering.{
  Member, any-Member, is_live, live_cases, live_of, snapshot_of_record-parts,
  state_registry_complete,
}

-- A live record that is retained is still there, and live.
is_retained_live :
    (r : StateRecord) (o : Option StateRecord)
    → is_live r.state ≡ true
    → is_retained r o ≡ true
    → (n : StateRecord) × (o ≡ some n) × (is_live n.state ≡ true)
unfolding is_retained state_eq
is_retained_live r none l h = elim (live_cases r.state l) [
  | inl e ↦ absurd (ground (arith, e))
  | inr (inl e) ↦ absurd (ground (arith, e))
  | inr (inr e) ↦ absurd (ground (arith, e))
]
is_retained_live r (some n) l h = (
  n,
  refl,
  elim (live_cases r.state l) [
    | inl e ↦ live_of n.state (ground arith)
    | inr (inl e) ↦ live_of n.state (rw (e, is_retained) at h)
    | inr (inr e) ↦ live_of n.state (ground arith)
  ],
)

by_key_id_sound :
    (k : Text) (rs : List StateRecord) (m : List (Text × StateRecord)) (n : StateRecord)
    → get k (by_key_id rs m) ≡ some n
    → ((n.kubernetes_key_id ≡ k) × Member n rs) ⊎ (get k m ≡ some n)
unfolding by_key_id
by_key_id_sound k [] m n h = inr h
by_key_id_sound k (r ∷ rs) m n h = elim (by_key_id_sound k rs (put r.kubernetes_key_id r m) n h) [
  | inl (e, i) ↦ inl (e, inr i)
  | inr g ↦ elim (Bool-cases (text_eq r.kubernetes_key_id k)) [
    | inl e ↦
        let same : r ≡ n = ground (arith, get-put k r.kubernetes_key_id r m) in
        inl (
          ap (λ x. x.kubernetes_key_id) (sym same) ∙ (text_eq_iff r.kubernetes_key_id k).0 e,
          inl (sym same),
        )
    | inr e ↦ inr (ground (arith, get-put k r.kubernetes_key_id r m))
  ]
]

-- A live record has a live record under its key_id in a next state that retains it.
retained_found :
    (t n : StateFile) (r : StateRecord)
    → validate_retained_snapshots t n ≡ ok tt
    → Member r t.snapshots
    → is_live r.state ≡ true
    → (q : StateRecord) × (q.kubernetes_key_id ≡ r.kubernetes_key_id)
      × Member q n.snapshots
      × (is_live q.state ≡ true)
unfolding validate_retained_snapshots get
retained_found t n r h m l =
    let rule : StateRecord → Bool =
      λ x. not (is_retained x (get x.kubernetes_key_id (by_key_id n.snapshots []))) in
    let kept = any-Member rule r t.snapshots (ground arith) m in
    let (q, found, live) =
      is_retained_live r (get r.kubernetes_key_id (by_key_id n.snapshots [])) l (ground arith) in
    elim (by_key_id_sound r.kubernetes_key_id n.snapshots [] q found) [
      | inl (e, i) ↦ (q, e, i, live)
      | inr e ↦ absurd (cc)
    ]

module _ (c : Crypto) where
  -- The registry of a state finds a snapshot under a key_id.
  abbrev pub Found : Text → StateFile → Type 0
  Found k t =
      (reg : Registry) × (s : KeySnapshot) × (state_registry c t ≡ ok reg)
      × (lookup c reg k ≡ ok s)
      × (s.kubernetes_key_id ≡ k)

  module _ (marshal : HashBody → Result Text) where
    pub validate_state-registry :
        (n : StateFile)
        → validate_state c marshal n ≡ ok tt
        → (reg : Registry) × (state_registry c n ≡ ok reg)
    unfolding validate_state
    validate_state-registry n h = elim (Result-cases (state_registry c n)) [
      | inl (reg, p) ↦ (reg, p)
      | inr (e, p) ↦ absurd (ground arith)
    ]

    pub valid_state_finds :
        CryptoLaws c
        → (t : StateFile) (r : StateRecord) → validate_state c marshal t ≡ ok tt
        → Member r t.snapshots
        → is_live r.state ≡ true
        → is_empty r.kubernetes_key_id ≡ false
        → Found r.kubernetes_key_id t
    valid_state_finds laws t r v m l e =
        let (reg, p) = validate_state-registry t v in
        let (s, found, w) = state_registry_complete c laws t reg r p m l e in
        let (_, key, _, _) = snapshot_of_record-parts c r s w e in (reg, s, p, found, key)

    progress-parts :
        (t n : StateFile)
        → validate_state_progress c marshal t n ≡ ok tt
        → (reg : Registry) × (state_registry c n ≡ ok reg)
          × (validate_retained_snapshots t n ≡ ok tt)
    unfolding validate_state_progress
    progress-parts t n h =
        let (_, _, h1) = >>=-eq-ok (validate_state c marshal t) _ h in
        let (_, v, h2) = >>=-eq-ok (validate_state c marshal n) _ h1 in
        let (_, h3) =
          fail_if-eq-ok (not (text_eq n.identity_fingerprint t.identity_fingerprint)) _ _ h2 in
        let (_, h4) = fail_if-eq-ok (leb n.generation t.generation) _ _ h3 in
        let (_, h5) = fail_if-eq-ok (not (text_eq n.previous_hash t.current_hash)) _ _ h4 in
        let (a, _, h6) = >>=-eq-ok (state_active c t) _ h5 in
        let (b, _, h7) = >>=-eq-ok (state_active c n) _ h6 in
        let (_, h8) = fail_if-eq-ok (lt_int b.transit_version a.transit_version) _ _ h7 in
        let (reg, p) = validate_state-registry n v in (reg, p, h8)

    -- After a valid step to a next state every active, pending or retired record of the state before
    -- that has a key_id is found by the registry of the next state, under the same key_id.
    pub progress-keeps_live :
        CryptoLaws c
        → (t n : StateFile) (r : StateRecord) → validate_state_progress c marshal t n ≡ ok tt
        → Member r t.snapshots
        → is_live r.state ≡ true
        → is_empty r.kubernetes_key_id ≡ false
        → (reg : Registry) × (s : KeySnapshot) × (state_registry c n ≡ ok reg)
          × (lookup c reg r.kubernetes_key_id ≡ ok s)
          × (s.kubernetes_key_id ≡ r.kubernetes_key_id)
    progress-keeps_live laws t n r h m l e =
        let (reg, p, q) = progress-parts t n h in
        let (x, same_key, there, live) = retained_found t n r q m l in
        let e' = subst (λ k. is_empty k ≡ false) (sym same_key) e in
        let (s, found, v) = state_registry_complete c laws n reg x p there live e' in
        let (_, key, _, _) = snapshot_of_record-parts c x s v e' in
        (reg, s, p, subst (λ k. lookup c reg k ≡ ok s) same_key found, key ∙ same_key)
