-- ===== src/Clock.antt =====
-- internal/clock/clock.go: wall times, paired clock readings, deadlines and lifetimes.
-- A `Time` counts nanoseconds from Go's zero time (year 1), so the zero time is 0; durations are
-- nanoseconds too, taken to stay below the 292 years at which Go's int64 would wrap or saturate.
mod Defs
mod Ages
unfoldable pub use Defs.{to_unix, of_unix, after, pending, wall_time, new_lifetime, age, remaining}
pub use Defs.{
  Time, no_time, epoch, second, is_zero, Reading, Deadline, unset, Lifetime, no_lifetime,
}
pub use Ages.*
