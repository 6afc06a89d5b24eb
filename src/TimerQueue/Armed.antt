-- ===== src/TimerQueue/Armed.antt =====
-- TimerQueue: what the timerfd is set to.
use knet_lib.Common.{
  ℕ, ◌+◌, ◌-◌, ◌*◌, ◌/◌, ◌%◌, ◌<◌, ◌≤◌, ◌≡◌, refl, max, true, List, [], ◌∷◌, Option, some, ltb,
  ltb→lt, if◌then◌else◌, Bool-cases, inl, inr, Outcome, Returns, Returns-map, arith,
}
use knet_lib.TimerQueue.{
  Entry, Timespec, nano_den, one_ms, TimerQueue, duration_from_now, handle_timers,
}
use knet_lib.TimerQueue.Kept.{IsKept}
use knet_lib.TimerQueue.Settled.{IsCareful, IsArmed, handle_timers-IsKept}

-- The nanoseconds of a setting.
abbrev pub total : Timespec → ℕ
total d = d.0 * nano_den + d.1

-- A setting that timerfd_settime takes and that does not disarm, for a time `when`: it does not run
-- out early, and at most a millisecond late.
pub record IsTimely (now when : ℕ) (d : Timespec) : Type 0 where
  pub nanoseconds : d.1 < nano_den
  pub armed : 0 < total d
  pub not_early : when ≤ now + total d
  pub not_late : now + total d ≤ max when now + one_ms

duration-IsTimely :
    (now when ns : ℕ)
    → ns ≡ (if ltb (when - now) one_ms then one_ms else when - now)
    → IsTimely now when (ns / nano_den, ns % nano_den)
duration-IsTimely now when ns e = elim (Bool-cases (ltb (when - now) one_ms)) [
  | inl b ↦
      let same : ns ≡ one_ms = rw b at e in
      let small = ltb→lt (when - now) one_ms b in
      record {
        nanoseconds = omega arith;
        armed = omega (arith, same);
        not_early = omega (arith, same, small);
        not_late = omega (arith, same);
      }
  | inr b ↦
      let same : ns ≡ when - now = rw b at e in
      let large : one_ms ≤ when - now = ground (arith, b) in
      record {
        nanoseconds = omega arith;
        armed = omega (arith, same, large);
        not_early = omega (arith, same, large);
        not_late = omega (arith, same, large);
      }
]

duration_from_now-IsTimely : (now when : ℕ) → IsTimely now when (duration_from_now now when)
unfolding duration_from_now
duration_from_now-IsTimely now when = duration-IsTimely now when _ refl

abbrev pub IsPunctual : ℕ → List Entry → Option Timespec → Type 0
IsPunctual now [] armed = Unit
IsPunctual now (e ∷ es) armed = (d : Timespec) × (armed ≡ some d) × IsTimely now e.0 d

armed-IsPunctual :
    (now : ℕ) (es : List Entry) (armed : Option Timespec)
    → IsArmed now es armed
    → IsPunctual now es armed
armed-IsPunctual now [] armed h = tt
armed-IsPunctual now (e ∷ es) armed h =
    (duration_from_now now e.0, h, duration_from_now-IsTimely now e.0)

-- After `handleRead` in the loop's thread, of a queue whose set and heap belong together and with
-- a callback that keeps them so, the timerfd is set for the first entry, if there is one: the
-- nanoseconds of the setting are below 10^9, it is not zero, which would disarm the timer, it does
-- not run out before the entry is due, and at most a millisecond after the entry is due or the
-- time of setting it, whichever is later.
pub handle_timers-IsPunctual :
    (callback : ℕ → TimerQueue → Outcome TimerQueue)
    → IsCareful callback
    → (now now' : ℕ) (q : TimerQueue) → IsKept [] q
    → Returns (λ r. IsPunctual now' r.timers r.armed) (handle_timers callback true now now' q)
handle_timers-IsPunctual callback careful now now' q k =
    Returns-map _ _ (handle_timers callback true now now' q)
      (handle_timers-IsKept callback careful now now' q k)
      (λ r h. armed-IsPunctual now' r.timers r.armed h.1)
