-- ===== src/Clock/Ages.antt =====
-- How deadlines and lifetimes of internal/clock/clock.go behave over any sequence of readings.
use openbao_kubernetes_kms.Base.{
  ℕ, ◌+◌, ◌-◌, max, ◌++◌, ◌≤◌, ◌≡◌, refl, true, pos, sub_nat, lt_int, List, [], ◌∷◌, arith, ltb,
}
use openbao_kubernetes_kms.Clock.Defs.{
  to_unix, of_unix, Reading, after, pending, Lifetime, new_lifetime, age, remaining,
}

-- The lifetime after it has been read at each of the readings in turn.
pub read_all : Lifetime → List Reading → Lifetime
read_all l [] = l
read_all l (r ∷ rs) = read_all (age l r).0 rs

read_all-fields :
    (l : Lifetime) (rs : List Reading)
    → l.started ≡ true
    → ((read_all l rs).started ≡ true)
      × ((read_all l rs).start ≡ l.start)
      × ((read_all l rs).limit ≡ l.limit)
      × (l.seen_age ≤ (read_all l rs).seen_age)
unfolding read_all age
read_all-fields l [] h = (h, refl, refl, omega arith)
read_all-fields l (r ∷ rs) h = ground (arith, read_all-fields (age l r).0 rs)

-- Once a lifetime has been read as expired, it reads as expired at every later reading, whatever
-- the wall clock and the elapsed clock show in between and then.
pub expired_stays :
    (l : Lifetime) (r : Reading) (rs : List Reading) (later : Reading)
    → l.started ≡ true
    → lt_int (remaining l r).1 (pos 0) ≡ true
    → lt_int (remaining (read_all (age l r).0 rs) later).1 (pos 0) ≡ true
unfolding remaining sub_nat
expired_stays l r rs later h e = ground (arith, read_all-fields (age l r).0 rs)

-- The time that passed on the clock that advanced more, from `start` to a reading.
abbrev pub passed : Reading → Reading → ℕ
passed start r = max (r.elapsed - start.elapsed) (r.wall - start.wall)

-- The most that had passed at any of the readings.
unfoldable pub most_passed : Reading → List Reading → ℕ
most_passed start [] = 0
most_passed start (r ∷ rs) = max (passed start r) (most_passed start rs)

read_all-age :
    (l : Lifetime) (rs : List Reading) (now : Reading)
    → l.started ≡ true
    → (age (read_all l rs) now).1 ≡ max l.seen_age (most_passed l.start (rs ++ now ∷ []))
unfolding read_all age most_passed
read_all-age l [] now h = ground arith
read_all-age l (r ∷ rs) now h = ground (arith, read_all-age (age l r).0 rs now)

-- The age that a fresh lifetime reports is the most time that had passed on either clock at any of
-- its readings, the earlier ones and this one: it never goes back.
pub age-most_passed :
    (start : Reading) (limit : ℕ) (rs : List Reading) (now : Reading)
    → (age (read_all (new_lifetime start limit) rs) now).1 ≡ most_passed start (rs ++ now ∷ [])
unfolding new_lifetime
age-most_passed start limit rs now =
    ground (arith, read_all-age (new_lifetime start limit) rs now refl)

-- A deadline set at `now` is pending exactly until `delay` more has elapsed, whatever the wall time.
pub pending-after :
    (now later : Reading) (delay : ℕ)
    → pending (after now delay) later ≡ ltb later.elapsed (now.elapsed + delay)
unfolding pending after
pending-after now later delay = refl

-- Whole seconds after the epoch survive the way into a Time and back.
pub to_unix-of_unix : (n : ℕ) → to_unix (of_unix (pos n)) ≡ pos n
unfolding to_unix of_unix sub_nat
to_unix-of_unix n = ground arith
