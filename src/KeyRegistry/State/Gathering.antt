-- ===== src/KeyRegistry/State/Gathering.antt =====
-- StateFile.Registry of internal/keyregistry/state.go: the registry finds every live record of the state.
use openbao_kubernetes_kms.Base.{
  ◌≡◌, refl, sym, ◌∙◌, ap, subst, ◌⊎◌, inl, inr, Bool, true, false, not, ◌||◌, List, [], ◌∷◌, ◌++◌,
  none, some, any, arith, Any, Text, text_eq, ok, fail_if-eq-ok, >>=-eq-ok, Bool-cases,
  Result-cases, Option-cases, if◌then◌else◌,
}
use openbao_kubernetes_kms.Crypto.{Crypto, CryptoLaws}
use openbao_kubernetes_kms.KeyRegistry.Snapshot.{
  KeySnapshot, SnapshotState, active, pending, retired, rejected, removed, other, state_eq,
  is_empty, parse_key_id, normalize,
}
use openbao_kubernetes_kms.KeyRegistry.Normal.{
  IsNormalOf, normalize-IsNormalOf, normalize_idem, parse-derive,
}
use openbao_kubernetes_kms.KeyRegistry.Registry.{Registry, lookup}
use openbao_kubernetes_kms.KeyRegistry.Registry.Lookup.{Gives, Decryptable, lookup_iff}
use openbao_kubernetes_kms.KeyRegistry.Records.{
  StateRecord, corrupt, snapshot_of_record, raw_snapshot, validate_observation_metadata,
}
use openbao_kubernetes_kms.KeyRegistry.State.{
  StateFile, Gathered, is_decryptable, is_known_historical, gather, gather_all, keep_decryptable,
  state_snapshots, state_registry,
}

module _ {A : Type 0} where
  abbrev pub Member : A → List A → Type 0
  Member a xs = Any (λ x. a ≡ x) xs

  Member-last : (a : A) (xs : List A) → Member a (xs ++ a ∷ [])
  Member-last a [] = inl refl
  Member-last a (x ∷ xs) = inr (Member-last a xs)

  Member-append : (a : A) (xs ys : List A) → Member a xs → Member a (xs ++ ys)
  Member-append a [] ys m = absurd m
  Member-append a (x ∷ xs) ys (inl e) = inl e
  Member-append a (x ∷ xs) ys (inr m) = inr (Member-append a xs ys m)

  pub any-Member :
      (p : A → Bool) (a : A) (xs : List A) → any p xs ≡ false → Member a xs → p a ≡ false
  any-Member p a [] h m = absurd m
  any-Member p a (x ∷ xs) h (inl e) = ground (arith, ap p e)
  any-Member p a (x ∷ xs) h (inr m) = any-Member p a xs (ground arith) m

-- The states in which a key may still be asked for.
abbrev pub is_live : SnapshotState → Bool
is_live active = true
is_live pending = true
is_live retired = true
is_live _ = false

pub live_cases :
    (s : SnapshotState) → is_live s ≡ true → (s ≡ active) ⊎ ((s ≡ pending) ⊎ (s ≡ retired))
live_cases active h = inl refl
live_cases pending h = inr (inl refl)
live_cases retired h = inr (inr refl)
live_cases rejected h = absurd (cc)
live_cases removed h = absurd (cc)
live_cases (other t) h = absurd (cc)

pub live_of :
    (s : SnapshotState)
    → (state_eq s pending || (state_eq s active || state_eq s retired)) ≡ true
    → is_live s ≡ true
unfolding state_eq
live_of active h = refl
live_of pending h = refl
live_of retired h = refl
live_of rejected h = h
live_of removed h = h
live_of (other t) h = h

live_decryptable :
    (s : SnapshotState) → is_live s ≡ true → state_eq s active ≡ false → is_decryptable s ≡ true
unfolding state_eq
live_decryptable active l q = absurd (cc)
live_decryptable pending l q = refl
live_decryptable retired l q = refl
live_decryptable rejected l q = l
live_decryptable removed l q = l
live_decryptable (other t) l q = l

keep_decryptable_step :
    (s x : KeySnapshot) (xs ks rest : List KeySnapshot)
    → (Member s xs → Member s rest)
    → is_live s.state ≡ true
    → state_eq s.state active ≡ false
    → (if is_decryptable x.state then x ∷ rest else rest) ≡ ks
    → Member s (x ∷ xs)
    → Member s ks
keep_decryptable_step s x xs ks rest kept l q e (inl i) =
    subst (Member s) (rw (← i, live_decryptable s.state l q) at e) (inl refl)
keep_decryptable_step s x xs ks rest kept l q e (inr m) =
    elim (Bool-cases (is_decryptable x.state)) [
      | inl d ↦ subst (Member s) (rw d at e) (inr (kept m))
      | inr d ↦ subst (Member s) (rw d at e) (kept m)
    ]

keep_decryptable_complete :
    (s : KeySnapshot) (hs ks : List KeySnapshot)
    → keep_decryptable hs ≡ ok ks
    → is_live s.state ≡ true
    → state_eq s.state active ≡ false
    → Member s hs
    → Member s ks
unfolding keep_decryptable
keep_decryptable_complete s [] ks h l q m = absurd m
keep_decryptable_complete s (x ∷ xs) ks h l q m =
    let (_, h1) = fail_if-eq-ok (not (is_known_historical x.state)) corrupt _ h in
    let (rest, p, h2) = >>=-eq-ok (keep_decryptable xs) _ h1 in
    keep_decryptable_step s x xs ks rest (keep_decryptable_complete s xs rest p l q) l q
      (ground arith) m

module _ (c : Crypto) where
  -- A snapshot was gathered: as the active one, or among the others.
  Holds : KeySnapshot → Gathered → Type 0
  Holds s g =
      ((g.active_seen ≡ some s) × (state_eq s.state active ≡ true))
      ⊎ ((state_eq s.state active ≡ false) × Member s g.historical)

  -- One round takes the snapshot as the active one, of which there was none, or adds it.
  pub gather_parts :
      (k : Text) (g h : Gathered) (r : StateRecord)
      → gather c k g r ≡ ok h
      → (s : KeySnapshot) × (snapshot_of_record c r ≡ ok s)
        × (((state_eq s.state active ≡ true)
              × (g.active_seen ≡ none)
              × (h.active_seen ≡ some s)
              × (h.historical ≡ g.historical))
            ⊎ ((state_eq s.state active ≡ false)
                × (h.active_seen ≡ g.active_seen)
                × (h.historical ≡ g.historical ++ s ∷ [])))
  unfolding gather
  gather_parts k g h r e = elim (Result-cases (snapshot_of_record c r)) [
    | inr (w, p) ↦ absurd (ground arith)
    | inl (s, p) ↦ (
      s,
      p,
      elim (Bool-cases (text_eq s.kubernetes_key_id k)) [
        | inl q ↦ elim (Option-cases g.active_seen) [
          | inl a ↦ inl (ground arith, a, ground arith, ground arith)
          | inr (t, a) ↦ absurd (ground arith)
        ]
        | inr q ↦ inr (ground arith, ground arith, ground arith)
      ],
    )
  ]

  gather_adds :
      (k : Text) (g h : Gathered) (r : StateRecord)
      → gather c k g r ≡ ok h
      → (s : KeySnapshot) × (snapshot_of_record c r ≡ ok s) × Holds s h
  unfolding Holds
  gather_adds k g h r e =
      let (s, p, parts) = gather_parts k g h r e in
      (
        s,
        p,
        elim parts [
          | inl (a, _, b, _) ↦ inl (b, a)
          | inr (a, _, b) ↦ inr (a, subst (Member s) (sym b) (Member-last s g.historical))
        ],
      )

  gather_keeps :
      (k : Text) (g h : Gathered) (r : StateRecord) (s : KeySnapshot)
      → gather c k g r ≡ ok h
      → Holds s g
      → Holds s h
  unfolding Holds
  gather_keeps k g h r s e m = go m (gather_parts k g h r e).2
    where
      go :
          {t : KeySnapshot}
          → ((g.active_seen ≡ some s) × (state_eq s.state active ≡ true))
            ⊎ ((state_eq s.state active ≡ false) × Member s g.historical)
          → ((state_eq t.state active ≡ true)
              × (g.active_seen ≡ none)
              × (h.active_seen ≡ some t)
              × (h.historical ≡ g.historical))
            ⊎ ((state_eq t.state active ≡ false)
                × (h.active_seen ≡ g.active_seen)
                × (h.historical ≡ g.historical ++ t ∷ []))
          → ((h.active_seen ≡ some s) × (state_eq s.state active ≡ true))
            ⊎ ((state_eq s.state active ≡ false) × Member s h.historical)
      go (inl (a, b)) (inl (_, n, _, _)) = absurd (cc)
      go (inl (a, b)) (inr (_, same, _)) = inl (same ∙ a, b)
      go (inr (a, b)) (inl (_, _, _, same)) = inr (a, subst (Member s) (sym same) b)
      go (inr (a, b)) (inr (_, _, more)) =
          inr (a, subst (Member s) (sym more) (Member-append s g.historical _ b))

  gather_all_keeps :
      (k : Text) (g h : Gathered) (rs : List StateRecord) (s : KeySnapshot)
      → gather_all c k g rs ≡ ok h
      → Holds s g
      → Holds s h
  unfolding gather_all
  gather_all_keeps k g h [] s e m = subst (Holds s) (ground (arith, e)) m
  gather_all_keeps k g h (r ∷ rs) s e m =
      let (g1, p, e1) = >>=-eq-ok (gather c k g r) _ e in
      gather_all_keeps k g1 h rs s e1 (gather_keeps k g g1 r s p m)

  -- Every record of a list that was gathered has its snapshot in the result.
  gather_all_complete :
      (k : Text) (g h : Gathered) (rs : List StateRecord) (r : StateRecord)
      → gather_all c k g rs ≡ ok h
      → Member r rs
      → (s : KeySnapshot) × (snapshot_of_record c r ≡ ok s) × Holds s h
  unfolding gather_all
  gather_all_complete k g h [] r e m = absurd m
  gather_all_complete k g h (x ∷ rs) r e (inl i) =
      let (g1, p, e1) = >>=-eq-ok (gather c k g x) _ e in
      let (s, q, m) = gather_adds k g g1 x p in
      (s, ap (snapshot_of_record c) i ∙ q, gather_all_keeps k g1 h rs s e1 m)
  gather_all_complete k g h (x ∷ rs) r e (inr i) =
      let (g1, p, e1) = >>=-eq-ok (gather c k g x) _ e in gather_all_complete k g1 h rs r e1 i

  -- The snapshot of a record: normal, in the record's state, and under its key_id.
  pub snapshot_of_record-parts :
      (r : StateRecord) (s : KeySnapshot)
      → snapshot_of_record c r ≡ ok s
      → is_empty r.kubernetes_key_id ≡ false
      → (normalize c (raw_snapshot r) ≡ ok s)
        × (s.kubernetes_key_id ≡ r.kubernetes_key_id)
        × (s.state ≡ r.state)
        × (IsNormalOf c (raw_snapshot r) s)
  unfolding snapshot_of_record raw_snapshot
  snapshot_of_record-parts r s h e =
      let (_, _, p) = >>=-eq-ok (validate_observation_metadata r) _ h in
      let n = normalize-IsNormalOf c (raw_snapshot r) s p in (p, n.kept e, n.state, n)

  pub state_snapshots-parts :
      (t : StateFile) (a : KeySnapshot) (hs : List KeySnapshot)
      → state_snapshots c t ≡ ok (a, hs)
      → (g : Gathered) × (gather_all c t.active_key_id
            (record { active_seen = none; historical = []; seen = [] })
            t.snapshots
          ≡ ok g)
        × (g.active_seen ≡ some a)
        × (g.historical ≡ hs)
  unfolding state_snapshots
  state_snapshots-parts t a hs h =
      let (g, p, h1) = >>=-eq-ok (gather_all c t.active_key_id _ t.snapshots) _ h in
      let seen : (g.active_seen ≡ some a) × (g.historical ≡ hs) =
        elim (Option-cases g.active_seen) [
          | inl e ↦ absurd (ground arith)
          | inr (b, e) ↦ (ground arith, ground arith)
        ] in
      (g, p, seen.0, seen.1)

  Member-Gives :
      (s : KeySnapshot) (xs : List KeySnapshot)
      → normalize c s ≡ ok s
      → state_eq s.state removed ≡ false
      → Member s xs
      → Any (Gives c s) xs
  Member-Gives s [] p q m = absurd m
  Member-Gives s (x ∷ xs) p q (inl e) = inl (subst (λ y. normalize c y ≡ ok s) e p, q)
  Member-Gives s (x ∷ xs) p q (inr m) = inr (Member-Gives s xs p q m)

  live_not_removed : (s : SnapshotState) → is_live s ≡ true → state_eq s removed ≡ false
  unfolding state_eq
  live_not_removed s l = elim (live_cases s l) [
    | inl e ↦ rw e
    | inr (inl e) ↦ rw e
    | inr (inr e) ↦ rw e
  ]

  held-Decryptable :
      (s a : KeySnapshot) (hs ks : List KeySnapshot) (g : Gathered)
      → Holds s g
      → g.active_seen ≡ some a
      → g.historical ≡ hs
      → keep_decryptable hs ≡ ok ks
      → is_live s.state ≡ true
      → normalize c s ≡ ok s
      → Decryptable c a ks s
  unfolding Holds
  held-Decryptable s a hs ks g (inl (p, q)) b e k l n =
      let same : s ≡ a = cc in
      inl (subst (λ y. normalize c y ≡ ok s) same n, live_not_removed s.state l)
  held-Decryptable s a hs ks g (inr (q, m)) b e k l n = inr (
      Member-Gives s ks n (live_not_removed s.state l)
        (keep_decryptable_complete s hs ks k l q (subst (Member s) e m)))

  -- The registry of a state finds every live record with a key_id, under that key_id.
  pub state_registry_complete :
      CryptoLaws c
      → (t : StateFile) (reg : Registry) (r : StateRecord) → state_registry c t ≡ ok reg
      → Member r t.snapshots
      → is_live r.state ≡ true
      → is_empty r.kubernetes_key_id ≡ false
      → (s : KeySnapshot) × (lookup c reg r.kubernetes_key_id ≡ ok s)
        × (snapshot_of_record c r ≡ ok s)
  unfolding state_registry state_snapshots
  state_registry_complete laws t reg r h m l e =
      let ((a, hs), p, h1) = >>=-eq-ok (state_snapshots c t) _ h in
      let (ks, q, h2) = >>=-eq-ok (keep_decryptable hs) _ h1 in
      let (g, u, b, d) = state_snapshots-parts t a hs p in
      let (s, v, held) = gather_all_complete t.active_key_id _ g t.snapshots r u m in
      let (w, same_key, same_state, n) = snapshot_of_record-parts r s v e in
      let decryptable =
        held-Decryptable s a hs ks g held b d q (ap is_live same_state ∙ l)
          (normalize_idem c laws (raw_snapshot r) s w) in
      let well_formed =
        subst (λ k. parse_key_id c k ≡ ok k) same_key
          (parse-derive c laws s s.kubernetes_key_id n.derived) in
      (s, (lookup_iff c a ks reg r.kubernetes_key_id s h2 well_formed).1 (same_key, decryptable), v)
