-- ===== src/KeyRegistry/Registry/Lookup.antt =====
-- The registry of internal/keyregistry/keyregistry.go against its specification: what Lookup finds
-- is what was put in.
use openbao_kubernetes_kms.Base.{
  ◌≡◌, refl, subst, ◌⊎◌, inl, inr, ◌↔◌, true, false, not, List, [], ◌∷◌, some, arith, Any,
  if◌then◌else◌, Text, text_eq, text_eq_iff, text_eq_refl, eq_int_iff, ==_iff, ok, untyped,
  fail_if-eq-ok, >>=-eq-ok, Bool-cases, Result-cases,
}
use openbao_kubernetes_kms.Crypto.{Crypto}
use openbao_kubernetes_kms.KeyRegistry.Snapshot.{
  KeySnapshot, SnapshotState, AadMode, active, removed, other, required, other_mode, state_eq,
  mode_eq, parse_key_id, normalize,
}
use openbao_kubernetes_kms.KeyRegistry.Registry.{
  snapshot_eq, get, put, Registry, insert, insert_all, new_registry, lookup,
}

pub state_eq_iff : (s t : SnapshotState) → (state_eq s t ≡ true) ↔ (s ≡ t)
unfolding state_eq
state_eq_iff (other s) (other t) = ground (arith, text_eq_iff s t)
state_eq_iff s t = ground arith

pub mode_eq_iff : (s t : AadMode) → (mode_eq s t ≡ true) ↔ (s ≡ t)
unfolding mode_eq
mode_eq_iff required required = ground arith
mode_eq_iff required (other_mode t) = ground arith
mode_eq_iff (other_mode s) required = ground arith
mode_eq_iff (other_mode s) (other_mode t) = ground (arith, text_eq_iff s t)

snapshot-eq_of : (s t : KeySnapshot) → snapshot_eq s t ≡ true → s ≡ t
unfolding snapshot_eq
snapshot-eq_of s t h = ground (
  arith,
  text_eq_iff s.provider_name t.provider_name,
  text_eq_iff s.cluster_id t.cluster_id,
  text_eq_iff s.instance_id t.instance_id,
  text_eq_iff s.namespace t.namespace,
  text_eq_iff s.mount_id t.mount_id,
  text_eq_iff s.lineage_id t.lineage_id,
  eq_int_iff s.transit_version t.transit_version,
  ==_iff s.created_at t.created_at,
  text_eq_iff s.kubernetes_key_id t.kubernetes_key_id,
  state_eq_iff s.state t.state,
  mode_eq_iff s.aad_mode t.aad_mode,
)

pub get-put {ℓ} :
    {V : Type ℓ} (j k : Text) (v : V) (m : List (Text × V))
    → get j (put k v m) ≡ (if text_eq k j then some v else get j m)
unfolding get put
get-put j k v [] = refl
get-put j k v ((i, w) ∷ m) =
    ground (arith, text_eq_iff k j, text_eq_iff i k, text_eq_iff i j, get-put j k v m)

-- An insertion that is accepted adds its snapshot and leaves every entry as it was.
insert_adds :
    (r r' : Registry) (s : KeySnapshot) (k : Text)
    → insert r s ≡ ok r'
    → (get k r'.snapshots ≡ (if text_eq s.kubernetes_key_id k then some s else get k r.snapshots))
      × (r'.active_key_id ≡ r.active_key_id)
unfolding insert
insert_adds r r' s k h = ground (arith, get-put k s.kubernetes_key_id s r.snapshots)

insert_keeps :
    (r r' : Registry) (s t : KeySnapshot) (k : Text)
    → insert r s ≡ ok r'
    → get k r.snapshots ≡ some t
    → get k r'.snapshots ≡ some t
unfolding insert
insert_keeps r r' s t k h g = ground (
  arith,
  get-put k s.kubernetes_key_id s r.snapshots,
  text_eq_iff s.kubernetes_key_id k,
  snapshot-eq_of t s,
)

module _ (c : Crypto) where
  -- The snapshots that the historical entry `x` can contribute.
  abbrev pub Gives : KeySnapshot → KeySnapshot → Type 0
  Gives s x = (normalize c x ≡ ok s) × (state_eq s.state removed ≡ false)

  insert_all-keeps :
      (r r' : Registry) (xs : List KeySnapshot) (t : KeySnapshot) (k : Text)
      → insert_all c r xs ≡ ok r'
      → get k r.snapshots ≡ some t
      → get k r'.snapshots ≡ some t
  unfolding insert_all
  insert_all-keeps r r' [] t k h g = ground (arith, h)
  insert_all-keeps r r' (x ∷ xs) t k h g = elim (Result-cases (normalize c x)) [
    | inr (e, p) ↦ absurd (ground arith)
    | inl (s, p) ↦ elim (Bool-cases (state_eq s.state removed)) [
      | inl q ↦ insert_all-keeps r r' xs t k (ground arith) g
      | inr q ↦ elim (Result-cases (insert r s)) [
        | inr (e, i) ↦ absurd (ground arith)
        | inl (r1, i) ↦ insert_all-keeps r1 r' xs t k (ground arith) (insert_keeps r r1 s t k i g)
      ]
    ]
  ]

  insert_all_complete :
      (r r' : Registry) (xs : List KeySnapshot) (s : KeySnapshot)
      → insert_all c r xs ≡ ok r'
      → Any (Gives s) xs
      → get s.kubernetes_key_id r'.snapshots ≡ some s
  unfolding insert_all
  insert_all_complete r r' [] s h m = absurd m
  insert_all_complete r r' (x ∷ xs) s h (inl (p, q)) = elim (Result-cases (insert r s)) [
    | inr (e, i) ↦ absurd (ground arith)
    | inl (r1, i) ↦
        insert_all-keeps r1 r' xs s s.kubernetes_key_id (ground arith) (
          ground
            (arith, insert_adds r r1 s s.kubernetes_key_id i, text_eq_refl s.kubernetes_key_id))
  ]
  insert_all_complete r r' (x ∷ xs) s h (inr m) = elim (Result-cases (normalize c x)) [
    | inr (e, p) ↦ absurd (ground arith)
    | inl (t, p) ↦ elim (Bool-cases (state_eq t.state removed)) [
      | inl q ↦ insert_all_complete r r' xs s (ground arith) m
      | inr q ↦ elim (Result-cases (insert r t)) [
        | inr (e, i) ↦ absurd (ground arith)
        | inl (r1, i) ↦ insert_all_complete r1 r' xs s (ground arith) m
      ]
    ]
  ]

  -- What an insertion left at `k` was there before or is the inserted snapshot.
  inserted_or_old :
      (r r1 : Registry) (x t s : KeySnapshot) (k : Text) (xs : List KeySnapshot)
      → normalize c x ≡ ok t
      → state_eq t.state removed ≡ false
      → insert r t ≡ ok r1
      → get k r1.snapshots ≡ some s
      → (get k r.snapshots ≡ some s) ⊎ ((s.kubernetes_key_id ≡ k) × Any (Gives s) (x ∷ xs))
  inserted_or_old r r1 x t s k xs p q i g = elim (Bool-cases (text_eq t.kubernetes_key_id k)) [
    | inl e ↦
        let a = insert_adds r r1 t k i in
        let same : t ≡ s = ground (arith, a) in
        inr (ground (arith, text_eq_iff t.kubernetes_key_id k), inl (rw (← same) (p, q)))
    | inr e ↦ inl (ground (arith, insert_adds r r1 t k i))
  ]

  insert_all_sound :
      (r r' : Registry) (xs : List KeySnapshot) (s : KeySnapshot) (k : Text)
      → insert_all c r xs ≡ ok r'
      → get k r'.snapshots ≡ some s
      → (get k r.snapshots ≡ some s) ⊎ ((s.kubernetes_key_id ≡ k) × Any (Gives s) xs)
  unfolding insert_all
  insert_all_sound r r' [] s k h g = inl (ground (arith, h))
  insert_all_sound r r' (x ∷ xs) s k h g = elim (Result-cases (normalize c x)) [
    | inr (e, p) ↦ absurd (ground arith)
    | inl (t, p) ↦ elim (Bool-cases (state_eq t.state removed)) [
      | inl q ↦ elim (insert_all_sound r r' xs s k (ground arith) g) [
        | inl old ↦ inl old
        | inr (e, m) ↦ inr (e, inr m)
      ]
      | inr q ↦ elim (Result-cases (insert r t)) [
        | inr (e, i) ↦ absurd (ground arith)
        | inl (r1, i) ↦ elim (insert_all_sound r1 r' xs s k (ground arith) g) [
          | inr (e, m) ↦ inr (e, inr m)
          | inl old ↦ inserted_or_old r r1 x t s k xs p q i old
        ]
      ]
    ]
  ]

  new_registry-parts :
      (a : KeySnapshot) (xs : List KeySnapshot) (r : Registry)
      → new_registry c a xs ≡ ok r
      → (s : KeySnapshot) × (r1 : Registry) × (normalize c a ≡ ok s)
        × (state_eq s.state active ≡ true)
        × (insert (record { active_key_id = s.kubernetes_key_id; snapshots = [] }) s ≡ ok r1)
        × (insert_all c r1 xs ≡ ok r)
  unfolding new_registry
  new_registry-parts a xs r h =
      let (s, p, h1) = >>=-eq-ok (normalize c a) _ h in
      let (q, h2) = fail_if-eq-ok (not (state_eq s.state active)) untyped _ h1 in
      let (r1, i, h3) = >>=-eq-ok (insert _ s) _ h2 in (s, r1, p, ground (arith, q), i, h3)

  -- What stands in the registry before the loop is the active snapshot.
  first_entry :
      (a : KeySnapshot) (xs : List KeySnapshot) (n : KeySnapshot) (r1 : Registry) (k : Text)
      (s : KeySnapshot)
      → normalize c a ≡ ok n
      → state_eq n.state removed ≡ false
      → insert (record { active_key_id = n.kubernetes_key_id; snapshots = [] }) n ≡ ok r1
      → get k r1.snapshots ≡ some s
      → (s.kubernetes_key_id ≡ k) × Any (Gives s) (a ∷ xs)
  unfolding get
  first_entry a xs n r1 k s p q i g =
      let adds = insert_adds _ r1 n k i in
      let same : n ≡ s = ground (arith, adds) in
      let key : n.kubernetes_key_id ≡ k = ground (arith, adds, text_eq_iff n.kubernetes_key_id k) in
      (rw (← same) key, inl (rw (← same) (p, q)))

  -- The active snapshot is active, so it was not removed.
  active_not_removed : (s : SnapshotState) → state_eq s active ≡ true → state_eq s removed ≡ false
  unfolding state_eq
  active_not_removed s h = ground arith

  -- The snapshot is one that the registry of `a` and `xs` is to hold.
  abbrev pub Decryptable : KeySnapshot → List KeySnapshot → KeySnapshot → Type 0
  Decryptable a xs s =
      Any (λ x. (normalize c x ≡ ok s) × (state_eq s.state removed ≡ false)) (a ∷ xs)

  registry_complete :
      (a : KeySnapshot) (xs : List KeySnapshot) (r : Registry) (s : KeySnapshot)
      → new_registry c a xs ≡ ok r
      → Decryptable a xs s
      → get s.kubernetes_key_id r.snapshots ≡ some s
  registry_complete a xs r s h (inr m) =
      let (n, r1, _, _, _, all) = new_registry-parts a xs r h in insert_all_complete r1 r xs s all m
  registry_complete a xs r s h (inl (p, q)) =
      let (n, r1, p', _, i, all) = new_registry-parts a xs r h in
      let same : n ≡ s = cc in
      insert_all-keeps r1 r xs s s.kubernetes_key_id all (
        rw (← same) (
          ground
            (arith, insert_adds _ r1 n n.kubernetes_key_id i, text_eq_refl n.kubernetes_key_id)))

  registry_sound :
      (a : KeySnapshot) (xs : List KeySnapshot) (r : Registry) (k : Text) (s : KeySnapshot)
      → new_registry c a xs ≡ ok r
      → get k r.snapshots ≡ some s
      → (s.kubernetes_key_id ≡ k) × Decryptable a xs s
  registry_sound a xs r k s h g =
      let (n, r1, p, q, i, all) = new_registry-parts a xs r h in
      elim (insert_all_sound r1 r xs s k all g) [
        | inr (e, m) ↦ (e, inr m)
        | inl old ↦ first_entry a xs n r1 k s p (active_not_removed n.state q) i old
      ]

  lookup-get :
      (r : Registry) (k : Text) (s : KeySnapshot)
      → parse_key_id c k ≡ ok k
      → (lookup c r k ≡ ok s) ↔ (get k r.snapshots ≡ some s)
  unfolding lookup
  lookup-get r k s w = ground arith

  -- A registry that was built finds under a well-formed key_id exactly the snapshots that bear it
  -- among the normalized ones that it was built from, the removed ones left out: nothing else is
  -- found, and no snapshot that was put in is missing or replaced by another.
  pub lookup_iff :
      (a : KeySnapshot) (xs : List KeySnapshot) (r : Registry) (k : Text) (s : KeySnapshot)
      → new_registry c a xs ≡ ok r
      → parse_key_id c k ≡ ok k
      → (lookup c r k ≡ ok s) ↔ ((s.kubernetes_key_id ≡ k) × Decryptable a xs s)
  lookup_iff a xs r k s h w =
      let back = lookup-get r k s w in
      (
        λ l. registry_sound a xs r k s h (back.0 l),
        λ (e, m).
            back.1 (subst (λ j. get j r.snapshots ≡ some s) e (registry_complete a xs r s h m)),
      )
