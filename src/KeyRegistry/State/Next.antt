-- ===== src/KeyRegistry/State/Next.antt =====
-- The generations of internal/keyregistry/state.go, one after the other.
use openbao_kubernetes_kms.Base.{
  ℕ, ◌+◌, ◌≡◌, arith, not, false, Text, text_eq, Result, ok, leb, fail_if-eq-ok, >>=-eq-ok,
}
use openbao_kubernetes_kms.Crypto.{Crypto}
use openbao_kubernetes_kms.KeyRegistry.State.{
  StateFile, HashBody, next_generation, validate_state, validate_state_progress,
}

-- A counter that grew did not wrap.
next_generation_grows : (g n : ℕ) → n ≡ next_generation g → leb n g ≡ false → n ≡ g + 1
unfolding next_generation
next_generation_grows g n e h = ground (arith, h)

module _ (c : Crypto) (marshal : HashBody → Result Text) where
  -- The direct successor of a state.
  abbrev pub Follows : StateFile → StateFile → Type 0
  Follows p n = (validate_state_progress c marshal p n ≡ ok tt) × (n.generation ≡ p.generation + 1)

  -- A state that steps of valid progress lead to.
  pub data Descends : StateFile → StateFile → Type 0 where
    same : (s : StateFile) → Descends s s
    next : (s p n : StateFile) → Descends s p → Follows p n → Descends s n

  pub progress-next_generation :
      (p n : StateFile)
      → validate_state_progress c marshal p n ≡ ok tt
      → n.generation ≡ next_generation p.generation
      → n.generation ≡ p.generation + 1
  unfolding validate_state_progress
  progress-next_generation p n h g =
      let (_, _, h1) = >>=-eq-ok (validate_state c marshal p) _ h in
      let (_, _, h2) = >>=-eq-ok (validate_state c marshal n) _ h1 in
      let (_, h3) =
        fail_if-eq-ok (not (text_eq n.identity_fingerprint p.identity_fingerprint)) _ _ h2 in
      let (grows, _) = fail_if-eq-ok (leb n.generation p.generation) _ _ h3 in
      next_generation_grows p.generation n.generation g grows
