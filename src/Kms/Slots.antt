-- ===== src/Kms/Slots.antt =====
-- How many requests internal/kmsv2/concurrency.go lets run at once.
use openbao_kubernetes_kms.Base.{
  ℕ, suc, ◌-◌, ◌≤◌, ◌<◌, ◌==◌, ltb, ◌≡◌, refl, ap, ◌↔◌, inl, inr, Bool, true, Option, none, some,
  List, [], ◌∷◌, any, length, if◌then◌else◌, arith, Bool-cases,
}
use openbao_kubernetes_kms.Kms.Limits.{Limiter, new_limiter, try_acquire, release}

-- A limiter and the requests that are running: those that it let in and that have not ended.
pub record Traffic : Type 0 where
  pub limiter : Limiter
  pub running : List ℕ

-- A request, by its number, reaches its handler, or its handler ends.
pub data RequestEvent : Type 0 where
  arrives ends : ℕ → RequestEvent

-- The requests after one of that number has ended.
unfoldable pub without : ℕ → List ℕ → List ℕ
without i [] = []
without i (j ∷ js) = let rest = without i js in if i == j then js else j ∷ rest

abbrev pub is_running : ℕ → List ℕ → Bool
is_running i js = any (λ j. i == j) js

-- A handler that ends releases its slot; a release that blocks leaves it running.
abbrev ended : ℕ → Traffic → Option Limiter → Traffic
ended i t none = t
ended i t (some l) = record { limiter = l; running = without i t.running }

-- A handler runs when it acquired a slot; one that did not has nothing to release.
unfoldable pub traffic_step : Traffic → RequestEvent → Traffic
unfolding without
traffic_step t (arrives i) =
    if (try_acquire t.limiter).1
    then record { limiter = (try_acquire t.limiter).0; running = i ∷ t.running }
    else record t { limiter = (try_acquire t.limiter).0 }
traffic_step t (ends i) = if is_running i t.running then ended i t (release t.limiter) else t

unfoldable pub traffic_run : Traffic → List RequestEvent → Traffic
unfolding traffic_step
traffic_run t [] = t
traffic_run t (e ∷ es) = traffic_run (traffic_step t e) es

-- Nothing runs at first.
abbrev pub quiet : ℕ → Traffic
quiet limit = record { limiter = new_limiter limit; running = [] }

-- The slots taken are those of the running requests.
record Counts (limit : ℕ) (t : Traffic) : Type 0 where
  taken : length t.running ≡ t.limiter.in_flight
  bound : t.limiter.in_flight ≤ t.limiter.capacity
  same_limit : t.limiter.capacity ≡ limit

length-without :
    (i : ℕ) (js : List ℕ) → is_running i js ≡ true → suc (length (without i js)) ≡ length js
unfolding without
length-without i [] h = absurd (cc)
length-without i (j ∷ js) h = elim (Bool-cases (i == j)) [
  | inl e ↦ rw e refl
  | inr e ↦ rw e (ap suc (length-without i js (rw e at h)))
]

release_running :
    (limit i : ℕ) (t : Traffic)
    → Counts limit t
    → is_running i t.running ≡ true
    → release t.limiter ≡ some (record t.limiter { in_flight = t.limiter.in_flight - 1 })
unfolding release
release_running limit i t v h = ground (arith, v.taken, length-without i t.running h)

step-Counts :
    (limit : ℕ) (t : Traffic) (e : RequestEvent) → Counts limit t → Counts limit (traffic_step t e)
unfolding traffic_step try_acquire
step-Counts limit t (arrives i) v = elim (Bool-cases (ltb t.limiter.in_flight t.limiter.capacity)) [
  | inl q ↦
      rw q (record { taken = ap suc v.taken; bound = ground (arith, q); same_limit = v.same_limit })
  | inr q ↦ rw q (record { taken = v.taken; bound = v.bound; same_limit = v.same_limit })
]
step-Counts limit t (ends i) v = elim (Bool-cases (is_running i t.running)) [
  | inr q ↦ rw q v
  | inl q ↦
      rw (q, release_running limit i t v q)
        (record {
          taken = ground (arith, v.taken, length-without i t.running q);
          bound = ground (arith, v.bound);
          same_limit = v.same_limit;
        })
]

run-Counts :
    (limit : ℕ) (t : Traffic) (es : List RequestEvent)
    → Counts limit t
    → Counts limit (traffic_run t es)
unfolding traffic_run
run-Counts limit t [] v = v
run-Counts limit t (e ∷ es) v = run-Counts limit (traffic_step t e) es (step-Counts limit t e v)

-- Whatever requests came and ended, at most `limit` of them are running; the next one is let in
-- exactly when fewer are; and the release of a running one does not block.
pub traffic_run-limit :
    (limit : ℕ) (es : List RequestEvent)
    → (length (traffic_run (quiet limit) es).running ≤ limit)
      × (((try_acquire (traffic_run (quiet limit) es).limiter).1 ≡ true)
          ↔ (length (traffic_run (quiet limit) es).running < limit))
      × ((i : ℕ)
          → is_running i (traffic_run (quiet limit) es).running ≡ true
          → (l : Limiter) × (release (traffic_run (quiet limit) es).limiter ≡ some l))
unfolding try_acquire
traffic_run-limit limit es =
    let v =
      run-Counts limit (quiet limit) es
        (record { taken = refl; bound = omega arith; same_limit = refl }) in
    (
      ground (arith, v.taken, v.bound, v.same_limit),
      ground (arith, v.taken, v.bound, v.same_limit),
      λ i h. (_, release_running limit i (traffic_run (quiet limit) es) v h),
    )
