-- ===== src/AsyncLogging/Threads/Joined.antt =====
-- AsyncLogging: the join of `stop` returns.
use knet_lib.AsyncLogging.{Files, Logging, write_out}
use knet_lib.AsyncLogging.Written.{logged}
use knet_lib.AsyncLogging.Rounds.{IsReady, write_out-Returns}
use knet_lib.AsyncLogging.Threads.Taking.{collect-Runs}
use knet_lib.AsyncLogging.Threads.{
  Writer, at_loop, in_wait, writing, ended, World, WriterStep, goes_in, takes, writes, flushes,
  Reach, AllServed, started,
}
use knet_lib.AsyncLogging.Threads.Ordered.{IsHeld, accepted_in_order}
use knet_lib.Common.{
  ℕ, suc, ◌+◌, ◌≤◌, ◌≡◌, ◌≢◌, refl, sym, ap, subst, ok, Bool, true, false, List, Returns-ok, arith,
}

module _ (n : ℕ) where
  -- The writing thread alone takes that many steps.
  pub data WriterRun (w : World) : ℕ → World → Type 0 where
    rests : WriterRun w 0 w
    runs : {k : ℕ} {u v : World} → WriterRun w k u → WriterStep n u v → WriterRun w (suc k) v

  steps_left : Writer → ℕ
  steps_left at_loop = 1
  steps_left in_wait = 3
  steps_left (writing queue) = 2
  steps_left ended = 0

  fewer :
      {w v : World}
      → WriterStep n w v
      → w.running ≡ false
      → (v.running ≡ false) × (steps_left v.writer + 1 ≡ steps_left w.writer)
  unfolding steps_left
  fewer (goes_in e on) off = absurd (cc)
  fewer (takes e) off = (off, ap steps_left (sym e))
  fewer (writes queue opens l e r) off = (off, ap steps_left (sym e))
  fewer (flushes opens e f) off = (off, ap steps_left (sym e))

  run_left :
      {w : World} {k : ℕ} {v : World}
      → WriterRun w k v
      → w.running ≡ false
      → (v.running ≡ false) × (k + steps_left v.writer ≡ steps_left w.writer)
  run_left rests off = (off, omega arith)
  run_left (runs r s) off =
      let before = run_left r off in
      let after = fewer s before.0 in (after.0, omega (arith, before.1, after.1))

  three_at_most : (phase : Writer) → steps_left phase ≤ 3
  unfolding steps_left
  three_at_most at_loop = omega arith
  three_at_most in_wait = omega arith
  three_at_most (writing queue) = omega arith
  three_at_most ended = omega arith

  -- The thread can go on from there, however much or little it has to write.
  CanGo : Logging → Writer → Type 0
  CanGo l at_loop = Unit
  CanGo l in_wait = IsReady l
  CanGo l (writing queue) = (l' : Logging) × (write_out n (λ i. true) (l, queue) ≡ ok l')
  CanGo l ended = Unit

  held-CanGo :
      (before : List ℕ) (l : Logging) (phase : Writer) (accepted : List ℕ)
      → IsHeld before l phase accepted
      → CanGo l phase
  unfolding CanGo
  held-CanGo before l at_loop accepted h = tt
  held-CanGo before l in_wait accepted h = h.0
  held-CanGo before l (writing queue) accepted h =
      let rest = h.1 in
      let (l', e, r) =
        Returns-ok _ (write_out n (λ i. true) (l, queue))
          (write_out-Returns n (λ i. true) l queue (λ i. refl) rest.2 rest.3 rest.0 rest.1) in
      (l', e)
  held-CanGo before l ended accepted h = tt

  WriterStep-CanGo :
      {w v : World}
      → WriterStep n w v
      → w.running ≡ false
      → CanGo w.logging w.writer
      → CanGo v.logging v.writer
  unfolding CanGo
  WriterStep-CanGo (goes_in e on) off h = absurd (cc)
  WriterStep-CanGo {w} (takes e) off h =
      collect-Runs n (λ i. true) w.logging (subst (CanGo w.logging) e h)
  WriterStep-CanGo (writes queue opens l e r) off h = tt
  WriterStep-CanGo (flushes opens e f) off h = tt

  run-CanGo :
      {w : World} {k : ℕ} {v : World}
      → WriterRun w k v
      → w.running ≡ false
      → CanGo w.logging w.writer
      → CanGo v.logging v.writer
  run-CanGo rests off h = h
  run-CanGo (runs r s) off h = WriterStep-CanGo s (run_left r off).0 (run-CanGo r off h)

  can_step :
      (l : Logging) (running : Bool) (phase : Writer) (accepted : List ℕ)
      → running ≡ false
      → phase ≢ ended
      → CanGo l phase
      → (v : World) × WriterStep n
          (record { logging = l; running = running; writer = phase; accepted = accepted })
          v
  unfolding CanGo
  can_step l running at_loop accepted off going h = (_, flushes true refl off)
  can_step l running in_wait accepted off going h = (_, takes refl)
  can_step l running (writing queue) accepted off going h =
      (_, writes queue (λ i. true) h.0 refl h.1)
  can_step l running ended accepted off going h = absurd (going refl)

  -- If the rounds of the writing thread so far found bytes, in at most 25 buffers, and the files
  -- opened, then after `stop` it takes at most three more steps, those of the round that it waits
  -- to begin and the last flush, and until its end it can always take the next, whatever it then
  -- finds to write: no assertion fails and the join returns.
  pub stop_joins :
      (fs : Files) {w : World} (r : Reach n (started fs) w)
      → AllServed n r
      → w.running ≡ false
      → (k : ℕ) (v : World) → WriterRun w k v
      → (k ≤ 3) × (v.writer ≢ ended → (x : World) × WriterStep n v x)
  stop_joins fs {w} r all off k v run =
      let left = run_left run off in
      let go =
        run-CanGo run off
          (held-CanGo (logged fs) w.logging w.writer w.accepted (accepted_in_order n fs r all)) in
      (
        omega (arith, left.1, three_at_most w.writer),
        λ going. can_step v.logging v.running v.writer v.accepted left.0 going go,
      )
