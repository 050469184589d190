-- ===== src/Clock/Defs.antt =====
-- internal/clock/clock.go: wall times, paired clock readings, deadlines and lifetimes.
use openbao_kubernetes_kms.Base.{
  ℕ, ◌+◌, ◌-◌, ◌*◌, ◌/◌, max, Bool, ◌&&◌, true, false, ℤ, sub_nat, pos_part, neg_part, ltb, ◌==◌,
  pos, if◌then◌else◌,
}

abbrev pub Time : Type 0
Time = ℕ

-- The zero time.
abbrev pub no_time : Time
no_time = 0

-- The seconds from the zero time to the Unix epoch, and the nanoseconds of a second.
abbrev pub epoch : ℕ
epoch = 62135596800

abbrev pub second : ℕ
second = 1000000000

-- Time.IsZero, Time.Unix and time.Unix(u, 0)
abbrev pub is_zero : Time → Bool
is_zero t = t == 0

unfoldable pub to_unix : Time → ℤ
to_unix t = sub_nat (t / second) epoch

unfoldable pub of_unix : ℤ → Time
of_unix u = (epoch + pos_part u - neg_part u) * second

pub record Reading : Type 0 where
  pub wall : Time
  pub elapsed : ℕ

pub record Deadline : Type 0 where
  pub at : ℕ
  pub is_set : Bool

-- Go's zero value of a Deadline.
abbrev pub unset : Deadline
unset = record { at = 0; is_set = false }

unfoldable pub after : Reading → ℕ → Deadline
after now delay = record { at = now.elapsed + delay; is_set = true }

unfoldable pub pending : Deadline → Reading → Bool
pending d now = d.is_set && ltb now.elapsed d.at

unfoldable pub wall_time : Deadline → Reading → Time
wall_time d now = if d.is_set then now.wall + d.at - now.elapsed else no_time

pub record Lifetime : Type 0 where
  pub start : Reading
  pub seen_age : ℕ
  pub limit : ℕ
  pub started : Bool

-- Go's zero value of a Lifetime.
abbrev pub no_lifetime : Lifetime
no_lifetime = record {
  start = record { wall = 0; elapsed = 0 };
  seen_age = 0;
  limit = 0;
  started = false;
}

unfoldable pub new_lifetime : Reading → ℕ → Lifetime
new_lifetime start limit = record { start = start; seen_age = 0; limit = limit; started = true }

-- The largest age seen on either clock; it is remembered. A negative difference is below the age
-- seen before, which is at least 0, so the subtraction that stops at 0 gives the same maximum.
unfoldable pub age : Lifetime → Reading → Lifetime × ℕ
age l now =
    let a = max l.seen_age (max (now.elapsed - l.start.elapsed) (now.wall - l.start.wall)) in
    if l.started then (record l { seen_age = a }, a) else (l, 0)

unfoldable pub remaining : Lifetime → Reading → Lifetime × ℤ
unfolding age
remaining l now =
    let (l', a) = age l now in if l.started then (l', sub_nat l.limit a) else (l, pos 0)
