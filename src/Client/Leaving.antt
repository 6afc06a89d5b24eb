-- ===== src/Client/Leaving.antt =====
-- Client: the end of the input thread, which main waits for.
use knet_lib.Common.{
  ℕ, suc, ◌+◌, ◌≤◌, ◌<◌, ◌≡◌, ◌≢◌, refl, sym, ap, ◌∙◌, Bool, true, false, List, [], ◌∷◌, Option,
  none, some, false≢true, if◌then◌else◌, arith, not, ◌||◌, ltb,
}
use knet_lib.Client.{
  Phase, waiting, checking, reading, in_getline, took, locking, leaving, ended, World, is_command,
  go, leave, take_line, send_line, step_in, input_step, on_connection, on_error, signal_exit,
  signal_shutdown, signal_quit, max_waits, Event, locks, unlocks, connects, disconnects, fails,
  signals, signal_shuts, signal_quits, closes, types, ends_input,
}

-- `k` steps of the input thread, among any events.
pub data Run (w : World) : ℕ → World → Type 0 where
  rests : Run w 0 w
  moves : {k : ℕ} {u v : World} → Run w k u → input_step u ≡ some v → Run w (suc k) v
  passes : {k : ℕ} {u v : World} → Run w k u → Event u v → Run w k v

moves_left : Phase → ℕ
moves_left (waiting n) = 4
moves_left checking = 3
moves_left reading = 2
moves_left in_getline = 3
moves_left (took line) = 2
moves_left (locking line) = 3
moves_left leaving = 1
moves_left ended = 0

-- The step leaves fewer than `n`, and keeps the flag.
Nearer : ℕ → Option World → Type 0
Nearer n none = Unit
Nearer n (some v) = (v.should_exit ≡ true) × (moves_left v.phase < n)

Nearer-if :
    (n : ℕ) (b : Bool) (x y : Option World)
    → (b ≡ true → Nearer n x)
    → (b ≡ false → Nearer n y)
    → Nearer n (if b then x else y)
Nearer-if n true x y f g = f refl
Nearer-if n false x y f g = g refl

take_line-Nearer :
    (typed : List (List ℕ)) (w : World) → w.should_exit ≡ true → Nearer 3 (take_line typed w)
unfolding take_line Nearer moves_left
take_line-Nearer [] w e =
    Nearer-if 3 w.at_end (some (go leaving w)) none (λ b. (e, omega arith)) (λ b. tt)
take_line-Nearer (line ∷ rest) w e = (e, omega arith)

sent-Nearer :
    (line : List ℕ) (link : Option Bool) (w : World)
    → w.should_exit ≡ true
    → Nearer 3 (some (send_line line link w))
unfolding send_line Nearer moves_left
sent-Nearer line (some true) w e = (e, omega arith)
sent-Nearer line (some false) w e = (e, omega arith)
sent-Nearer line none w e = (e, omega arith)

step-Nearer :
    (phase : Phase) (w : World) → w.should_exit ≡ true → Nearer (moves_left phase) (step_in phase w)
unfolding step_in take_line Nearer moves_left
step-Nearer (waiting n) w e =
    Nearer-if 4 (w.should_exit || (w.connected || not (ltb n max_waits))) (some (go checking w))
      (some (go (waiting (suc n)) w)) (λ b. (e, omega arith))
      (λ b. absurd (false≢true (sym b ∙ rw e refl)))
step-Nearer checking w e =
    Nearer-if 3 w.connected (some (go reading w)) (some (leave w)) (λ b. (e, omega arith))
      (λ b. (refl, omega arith))
step-Nearer reading w e =
    Nearer-if 2 w.should_exit (some (go leaving w)) (some (go in_getline w)) (λ b. (e, omega arith))
      (λ b. absurd (false≢true (sym b ∙ e)))
step-Nearer in_getline w e = take_line-Nearer w.typed w e
step-Nearer (took line) w e =
    Nearer-if 2 w.should_exit (some (go leaving w)) _ (λ b. (e, omega arith))
      (λ b. absurd (false≢true (sym b ∙ e)))
step-Nearer (locking line) w e =
    Nearer-if 3 w.locked none (some (send_line line w.link w)) (λ b. tt)
      (λ b. sent-Nearer line w.link w e)
step-Nearer leaving w e = (refl, omega arith)
step-Nearer ended w e = tt

Event-same :
    {w v : World} → Event w v → w.should_exit ≡ true → (v.should_exit ≡ true) × (v.phase ≡ w.phase)
unfolding on_connection on_error signal_exit signal_shutdown signal_quit
Event-same (locks h) e = (e, refl)
Event-same (unlocks h) e = (e, refl)
Event-same (connects h) e = (e, refl)
Event-same (disconnects h) e = (e, refl)
Event-same fails e = (refl, refl)
Event-same signals e = (refl, refl)
Event-same (signal_shuts h) e = (e, refl)
Event-same signal_quits e = (e, refl)
Event-same closes e = (e, refl)
Event-same (types line open_) e = (e, refl)
Event-same ends_input e = (e, refl)

run_left :
    {w : World} {k : ℕ} {v : World}
    → Run w k v
    → w.should_exit ≡ true
    → (v.should_exit ≡ true) × (k + moves_left v.phase ≤ moves_left w.phase)
unfolding input_step Nearer
run_left rests e = (e, omega arith)
run_left {w} (moves {u = u} r s) e =
    let before = run_left r e in
    let (stop, fewer) = rw s at (step-Nearer u.phase u before.0) in
    (stop, omega (arith, before.1, fewer))
run_left (passes r event) e =
    let before = run_left r e in
    let (stop, same) = Event-same event before.0 in
    (stop, omega (arith, before.1, ap moves_left same))

four_at_most : (phase : Phase) → moves_left phase ≤ 4
unfolding moves_left
four_at_most (waiting n) = omega arith
four_at_most checking = omega arith
four_at_most reading = omega arith
four_at_most in_getline = omega arith
four_at_most (took line) = omega arith
four_at_most (locking line) = omega arith
four_at_most leaving = omega arith
four_at_most ended = omega arith

-- The thread waits in `getline`, and there is no line and no end.
abbrev pub IsStuck : World → Type 0
IsStuck w = (w.phase ≡ in_getline) × (w.typed ≡ []) × (w.at_end ≡ false)

-- The thread waits for the mutex, which another thread or a signal handler has.
abbrev pub IsShutOut : World → Type 0
IsShutOut w = (line : List ℕ) × (w.phase ≡ locking line) × (w.locked ≡ true)

abbrev pub CanStep : Option World → Type 0
CanStep none = ⊥
CanStep (some v) = Unit

CanStep-if :
    (b : Bool) (x y : Option World)
    → (b ≡ true → CanStep x)
    → (b ≡ false → CanStep y)
    → CanStep (if b then x else y)
CanStep-if true x y f g = f refl
CanStep-if false x y f g = g refl

can_take :
    (typed : List (List ℕ)) (w : World)
    → ¬ ((typed ≡ []) × (w.at_end ≡ false))
    → CanStep (take_line typed w)
unfolding take_line
can_take [] w free =
    CanStep-if w.at_end (some (go leaving w)) none (λ b. tt) (λ b. absurd (free (refl, b)))
can_take (line ∷ rest) w free = tt

can_step :
    (phase : Phase) (w : World)
    → phase ≢ ended
    → ¬ ((phase ≡ in_getline) × (w.typed ≡ []) × (w.at_end ≡ false))
    → ¬ ((line : List ℕ) × (phase ≡ locking line) × (w.locked ≡ true))
    → CanStep (step_in phase w)
unfolding step_in
can_step (waiting n) w going free let_in =
    CanStep-if (w.should_exit || (w.connected || not (ltb n max_waits))) (some _) (some _) (λ b. tt)
      (λ b. tt)
can_step checking w going free let_in = CanStep-if w.connected (some _) (some _) (λ b. tt) (λ b. tt)
can_step reading w going free let_in =
    CanStep-if w.should_exit (some _) (some _) (λ b. tt) (λ b. tt)
can_step in_getline w going free let_in = can_take w.typed w (λ (a, b). free (refl, a, b))
can_step (took line) w going free let_in =
    CanStep-if w.should_exit (some _) _ (λ b. tt)
      (λ b. CanStep-if (is_command line) (some _) (some _) (λ c. tt) (λ c. tt))
can_step (locking line) w going free let_in =
    CanStep-if w.locked none (some _) (λ b. let_in (line, refl, b)) (λ b. tt)
can_step leaving w going free let_in = tt
can_step ended w going free let_in = absurd (going refl)

-- No line is typed, and the input does not end.
abbrev pub IsQuiet : {w v : World} → Event w v → Type 0
IsQuiet (types line open_) = ⊥
IsQuiet ends_input = ⊥
IsQuiet _ = Unit

abbrev pub AllQuiet : {w : World} {k : ℕ} {v : World} → Run w k v → Type 0
AllQuiet rests = Unit
AllQuiet (moves r s) = AllQuiet r
AllQuiet (passes r event) = AllQuiet r × IsQuiet event

Event-IsStuck : {w v : World} (event : Event w v) → IsQuiet event → IsStuck w → IsStuck v
unfolding on_connection on_error signal_exit signal_shutdown signal_quit
Event-IsStuck (locks h) q s = s
Event-IsStuck (unlocks h) q s = s
Event-IsStuck (connects h) q s = s
Event-IsStuck (disconnects h) q s = s
Event-IsStuck fails q s = s
Event-IsStuck signals q s = s
Event-IsStuck (signal_shuts h) q s = s
Event-IsStuck signal_quits q s = s
Event-IsStuck closes q s = s
Event-IsStuck (types line open_) q s = absurd q
Event-IsStuck ends_input q s = absurd q

stuck-none : (w : World) → IsStuck w → input_step w ≡ none
unfolding input_step step_in take_line
stuck-none w s = rw (s.0, s.1, s.2) refl

waits_for_good :
    {w : World} {k : ℕ} {v : World} (r : Run w k v)
    → AllQuiet r
    → IsStuck w
    → (k ≡ 0) × IsStuck v × (input_step v ≡ none)
waits_for_good {w} rests q s = (refl, s, stuck-none w s)
waits_for_good (moves r e) q s = absurd (cc (sym (waits_for_good r q s).2 ∙ e))
waits_for_good (passes {v = v} r event) q s =
    let before = waits_for_good r q.0 s in
    let after = Event-IsStuck event q.1 before.1 in (before.0, after, stuck-none v after)

-- Once the client is told to exit, its input thread takes at most four more steps, whatever the
-- callbacks, signals and the user do in between, and as long as it is not at its end it can step,
-- but for two waits: for `g_conn_mutex` while another thread or a signal handler has it, and in
-- `getline` where there is no line and no end of the input. There it stays, so that the join in
-- main waits, as long as the user types nothing.
pub exit_ends :
    (w : World)
    → w.should_exit ≡ true
    → ((k : ℕ) (v : World) → Run w k v → k ≤ 4)
      × (w.phase ≢ ended → ¬ IsStuck w → ¬ IsShutOut w → CanStep (input_step w))
      × (IsStuck w
          → (k : ℕ) (v : World) (r : Run w k v) → AllQuiet r
          → (k ≡ 0) × IsStuck v × (input_step v ≡ none))
unfolding input_step
exit_ends w e = (
  λ k v r. omega (arith, (run_left r e).1, four_at_most w.phase),
  λ going free let_in. can_step w.phase w going free let_in,
  λ stuck k v r quiet. waits_for_good r quiet stuck,
)
