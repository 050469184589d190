-- ===== src/Status/Controller/Durable.antt =====
-- What the controller of internal/status/controller.go keeps on disk while its writes fail anywhere.
use openbao_kubernetes_kms.Base.{
  ◌≡◌, refl, sym, ap, subst, ◌⊎◌, inl, inr, false, Option, none, some, arith, Text, Result, ok, err,
  Error, Result-cases, ◌>>◌,
}
use openbao_kubernetes_kms.Crypto.{Crypto}
use openbao_kubernetes_kms.KeyRegistry.Snapshot.{is_empty}
use openbao_kubernetes_kms.KeyRegistry.State.{StateFile, HashBody, validate_state}
use openbao_kubernetes_kms.KeyRegistry.State.Next.{Follows, Descends, same, next}
use openbao_kubernetes_kms.KeyRegistry.Files.{holds, WriteOutcome}
use openbao_kubernetes_kms.Status.StateStore.{
  Disk, save, recover, validate_recovery_transition, check_recovery_files,
}
use openbao_kubernetes_kms.Status.StateStore.Crash.{
  disk_of, between, progress_valid, save-cases, save-ok,
}
use openbao_kubernetes_kms.Status.Store.{Loaded}
use openbao_kubernetes_kms.Status.Controller.{StateCommit, Settings, Controller}
use openbao_kubernetes_kms.Status.Controller.Persistence.{Writes, next_if_ok, state_for_observation}

module _ (c : Crypto) (marshal : HashBody → Result Text) where
  -- The files that a save of `n` over those of `p` may leave.
  pub data InFlight (p n : StateFile) (d : Disk) : Type 0 where
    before : d ≡ disk_of p → InFlight p n d
    amid : d ≡ between p n → InFlight p n d
    done : d ≡ disk_of n → InFlight p n d

  -- The files hold the published state, or a save over a state that descends from it is pending,
  -- wherever it stopped.
  pub data Durable (d : Disk) (pending : Option StateCommit) (published : Option Loaded)
      : Type 0 where
    settled :
        (l : Loaded)
        → pending ≡ none
        → published ≡ some l
        → validate_state c marshal l.state ≡ ok tt
        → d ≡ disk_of l.state
        → Durable d pending published
    in_flight :
        (l : Loaded) (p n : StateFile)
        → pending ≡ some (record { previous = some p; next = n })
        → published ≡ some l
        → Descends c marshal l.state p
        → Follows c marshal p n
        → InFlight p n d
        → Durable d pending published

  abbrev pub IsDurable : Controller → Type 0
  IsDurable m = Durable m.disk m.pending_commit m.store.loaded

  -- A save stays among the files of its transition.
  pub save-InFlight :
      (path : Text) (p n : StateFile) (d : Disk) (o o' : WriteOutcome)
      → is_empty path ≡ false
      → Follows c marshal p n
      → InFlight p n d
      → InFlight p n (save c marshal path d n o o').0
  save-InFlight path p n d o o' e h f =
      let (v, w) = progress_valid c marshal p n h.0 in
      elim (save-cases c marshal path d n o o' e w) [
        | inl q ↦ subst (InFlight p n) (sym q) f
        | inr (inl q) ↦ subst (InFlight p n) (sym q) (replaced f)
        | inr (inr q) ↦ done q
      ]
    where
      replaced : InFlight p n d → InFlight p n (record d { state_file = holds n })
      replaced (before r) = amid (ap {A = Disk} (λ x. record x { state_file = holds n }) r)
      replaced (amid r) = amid (ap {A = Disk} (λ x. record x { state_file = holds n }) r)
      replaced (done r) = done (ap {A = Disk} (λ x. record x { state_file = holds n }) r)

  -- Recovery writes nothing, or saves.
  recover-cases :
      (path : Text) (d : Disk) (p n : StateFile) (o o' : WriteOutcome)
      → ((e : Error) × (recover c marshal path d (some p) n o o' ≡ (d, err e)))
        ⊎ (recover c marshal path d (some p) n o o' ≡ save c marshal path d n o o')
  unfolding recover
  recover-cases path d p n o o' =
      elim (Result-cases (
        validate_recovery_transition c marshal (some p) n
        >> check_recovery_files c marshal path d (some p) n)) [
          | inl (u, q) ↦ inr (rw q)
          | inr (e, q) ↦ inl (e, rw q)
        ]

  recover-InFlight :
      (path : Text) (p n : StateFile) (d : Disk) (o o' : WriteOutcome)
      → is_empty path ≡ false
      → Follows c marshal p n
      → InFlight p n d
      → InFlight p n (recover c marshal path d (some p) n o o').0
  recover-InFlight path p n d o o' e h f = elim (recover-cases path d p n o o') [
    | inl (w, q) ↦ rw q f
    | inr q ↦ rw q (save-InFlight path p n d o o' e h f)
  ]

  recover-ok :
      (path : Text) (d : Disk) (p n t : StateFile) (o o' : WriteOutcome)
      → is_empty path ≡ false
      → Follows c marshal p n
      → (recover c marshal path d (some p) n o o').1 ≡ ok t
      → (recover c marshal path d (some p) n o o').0 ≡ disk_of n
  recover-ok path d p n t o o' e h k =
      let (v, w) = progress_valid c marshal p n h.0 in
      elim (recover-cases path d p n o o') [
        | inl (u, q) ↦ absurd (ground (arith, rw q at k))
        | inr q ↦ rw q (save-ok c marshal path d n t o o' e w (rw q at k))
      ]

  -- What an observation may start from: a valid state that both files hold, and that descends from
  -- the published one.
  pub record Ready (m : Controller) (q : StateFile) : Type 0 where
    pub published : Loaded
    pub is_published : m.store.loaded ≡ some published
    pub descends : Descends c marshal published.state q
    pub valid : validate_state c marshal q ≡ ok tt
    pub on_disk : m.disk ≡ disk_of q

  state_for-settled :
      (t : Settings) (m : Controller) (w : Writes) (l : Loaded)
      → m.pending_commit ≡ none
      → m.store.loaded ≡ some l
      → state_for_observation c marshal t m w ≡ (m, ok (some l.state))
  unfolding state_for_observation
  state_for-settled t m w l p e = rw (p, e)

  abbrev recovered :
      Settings → Controller → StateFile → StateFile → Writes → Disk × Result StateFile
  recovered t m p n w = recover c marshal t.path m.disk (some p) n w.to_state w.to_checkpoint

  state_for-in_flight :
      (t : Settings) (m : Controller) (w : Writes) (p n : StateFile)
      → m.pending_commit ≡ some (record { previous = some p; next = n })
      → state_for_observation c marshal t m w
        ≡ (record m { disk = (recovered t m p n w).0 }, next_if_ok n (recovered t m p n w).1)
  unfolding state_for_observation
  state_for-in_flight t m w p n e = rw e

  next_if_ok-ok :
      (n : StateFile) (r : Result StateFile) (o : Option StateFile)
      → next_if_ok n r ≡ ok o
      → (o ≡ some n) × ((a : StateFile) × (r ≡ ok a))
  next_if_ok-ok n (ok a) o h = (ground (arith, h), (a, refl))
  next_if_ok-ok n (err e) o h = absurd (ground (arith, h))

  pub state_for-Durable :
      (t : Settings) (m : Controller) (w : Writes)
      → is_empty t.path ≡ false
      → IsDurable m
      → IsDurable (state_for_observation c marshal t m w).0
  state_for-Durable t m w e (settled l p q v d) =
      rw (state_for-settled t m w l p q) (settled l p q v d)
  state_for-Durable t m w e (in_flight l p n q r ds h f) = rw (state_for-in_flight t m w p n q) (
      in_flight l p n q r ds h
        (recover-InFlight t.path p n m.disk w.to_state w.to_checkpoint e h f))

  pub state_for-Ready :
      (t : Settings) (m : Controller) (w : Writes) (o : Option StateFile)
      → is_empty t.path ≡ false
      → IsDurable m
      → (state_for_observation c marshal t m w).1 ≡ ok o
      → (q : StateFile) × (o ≡ some q) × Ready (state_for_observation c marshal t m w).0 q
  state_for-Ready t m w o e (settled l p q v d) k =
      let start = state_for-settled t m w l p q in
      (
        l.state,
        ground (arith, rw start at k),
        rw start (record {
          published = l;
          is_published = q;
          descends = same l.state;
          valid = v;
          on_disk = d;
        }),
      )
  state_for-Ready t m w o e (in_flight l p n q r ds h f) k =
      let start = state_for-in_flight t m w p n q in
      let (is_next, (a, u)) = next_if_ok-ok n (recovered t m p n w).1 o (rw start at k) in
      (
        n,
        is_next,
        rw start (record {
          published = l;
          is_published = r;
          descends = next l.state p n ds h;
          valid = (progress_valid c marshal p n h.0).1;
          on_disk = recover-ok t.path m.disk p n a w.to_state w.to_checkpoint e h u;
        }),
      )
