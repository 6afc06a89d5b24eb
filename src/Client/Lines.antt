-- ===== src/Client/Lines.antt =====
-- Client: which lines are sent.
use knet_lib.Common.{
  ℕ, suc, ◌≤◌, ◌≡◌, refl, sym, ap, ◌∙◌, Bool, true, false, List, [], ◌∷◌, ◌++◌, Option, none, some,
  length, append_assoc, if◌then◌else◌, arith, not, ◌||◌, ltb,
}
use knet_lib.Client.{
  Phase, waiting, checking, reading, in_getline, took, locking, leaving, ended, World, started,
  is_command, go, leave, send_line, take_line, step_in, input_step, on_connection, on_error,
  signal_exit, signal_shutdown, signal_quit, max_waits, Step, Event, happens, input_moves, locks,
  unlocks, connects, disconnects, fails, signals, signal_shuts, signal_quits, closes, types,
  ends_input, Reach, here, next,
}

abbrev pub AllPlain : List (List ℕ) → Type 0
AllPlain [] = Unit
AllPlain (line ∷ rest) = (is_command line ≡ false) × AllPlain rest

-- The lines that the thread has read and not sent: the one in its hands, and at its end at most one.
abbrev pub IsUnsent : Phase → List (List ℕ) → Type 0
IsUnsent (took line) unsent = unsent ≡ line ∷ []
IsUnsent (locking line) unsent = (is_command line ≡ false) × (unsent ≡ line ∷ [])
IsUnsent leaving unsent = length unsent ≤ 1
IsUnsent ended unsent = length unsent ≤ 1
IsUnsent _ unsent = unsent ≡ []

pub record IsAccounted (given typed sent : List (List ℕ)) (phase : Phase) : Type 0 where
  pub unsent : List (List ℕ)
  pub all : given ≡ sent ++ (unsent ++ typed)
  pub held : IsUnsent phase unsent
  pub plain : AllPlain sent

abbrev pub Accounted : World → Type 0
Accounted w = IsAccounted w.given w.typed w.sent w.phase

AllPlain-append :
    (ls : List (List ℕ)) (line : List ℕ)
    → AllPlain ls
    → is_command line ≡ false
    → AllPlain (ls ++ line ∷ [])
AllPlain-append [] line p e = (e, tt)
AllPlain-append (l ∷ ls) line p e = (p.0, AllPlain-append ls line p.1 e)

-- A step to a phase with no line in hand, from one.
moved :
    {given typed sent : List (List ℕ)} {p : Phase} (q : Phase)
    → ((unsent : List (List ℕ)) → IsUnsent p unsent → IsUnsent q unsent)
    → IsAccounted given typed sent p
    → IsAccounted given typed sent q
moved q f k = record { unsent = k.unsent; all = k.all; held = f k.unsent k.held; plain = k.plain }

short : (unsent : List (List ℕ)) → unsent ≡ [] → length unsent ≤ 1
short unsent e = rw e (omega arith)

one : (line : List ℕ) (unsent : List (List ℕ)) → unsent ≡ line ∷ [] → length unsent ≤ 1
one line unsent e = rw e (omega arith)

sent-Accounted :
    (line : List ℕ) (link : Option Bool) (w : World)
    → is_command line ≡ false
    → IsAccounted w.given w.typed w.sent (took line)
    → Accounted (send_line line link w)
unfolding send_line
sent-Accounted line (some true) w plain k = record {
  unsent = [];
  all =
      k.all
      ∙ ap (λ u. w.sent ++ (u ++ w.typed)) k.held
      ∙ sym (append_assoc w.sent (line ∷ []) w.typed);
  held = refl;
  plain = AllPlain-append w.sent line k.plain plain;
}
sent-Accounted line (some false) w plain k = moved leaving (one line) k
sent-Accounted line none w plain k = moved leaving (one line) k

abbrev After : Option World → Type 0
After none = Unit
After (some v) = Accounted v

After-if :
    (b : Bool) (x y : Option World)
    → (b ≡ true → After x)
    → (b ≡ false → After y)
    → After (if b then x else y)
After-if true x y f g = f refl
After-if false x y f g = g refl

taken-After :
    (typed : List (List ℕ)) (w : World)
    → w.typed ≡ typed
    → IsAccounted w.given w.typed w.sent in_getline
    → After (take_line typed w)
unfolding take_line
taken-After [] w e k =
    After-if w.at_end (some (go leaving w)) none (λ f. moved leaving short k) (λ f. tt)
taken-After (line ∷ rest) w e k = record {
  unsent = line ∷ [];
  all = k.all ∙ ap (λ u. w.sent ++ (u ++ w.typed)) k.held ∙ ap (λ ts. w.sent ++ ts) e;
  held = refl;
  plain = k.plain;
}

moves-After :
    (phase : Phase) (w : World) → IsAccounted w.given w.typed w.sent phase → After (step_in phase w)
unfolding step_in
moves-After (waiting n) w k =
    After-if (w.should_exit || (w.connected || not (ltb n max_waits))) (some (go checking w))
      (some (go (waiting (suc n)) w)) (λ e. moved checking (λ u h. h) k)
      (λ e. moved (waiting (suc n)) (λ u h. h) k)
moves-After checking w k =
    After-if w.connected (some (go reading w)) (some (leave w)) (λ e. moved reading (λ u h. h) k)
      (λ e. moved ended short k)
moves-After reading w k =
    After-if w.should_exit (some (go leaving w)) (some (go in_getline w))
      (λ e. moved leaving short k) (λ e. moved in_getline (λ u h. h) k)
moves-After in_getline w k = taken-After w.typed w refl k
moves-After (took line) w k =
    After-if w.should_exit (some (go leaving w)) _ (λ e. moved leaving (one line) k)
      (λ e.
        After-if (is_command line) (some (record w { should_exit = true; phase = leaving }))
          (some (go (locking line) w)) (λ f. moved leaving (one line) k)
          (λ f. moved (locking line) (λ u h. (f, h)) k))
moves-After (locking line) w k =
    After-if w.locked none (some (send_line line w.link w)) (λ e. tt)
      (λ e.
        sent-Accounted line w.link w k.held.0 (moved {p = locking line} (took line) (λ u h. h.1) k))
moves-After leaving w k = moved ended (λ u h. h) k
moves-After ended w k = tt

Event-Accounted : {w v : World} → Event w v → Accounted w → Accounted v
unfolding on_connection on_error signal_exit signal_shutdown signal_quit
Event-Accounted (locks e) k = k
Event-Accounted (unlocks e) k = k
Event-Accounted (connects e) k = k
Event-Accounted (disconnects e) k = k
Event-Accounted fails k = k
Event-Accounted signals k = k
Event-Accounted (signal_shuts e) k = k
Event-Accounted signal_quits k = k
Event-Accounted closes k = k
Event-Accounted {w} (types line open_) k = record {
  unsent = k.unsent;
  all =
      ap (λ ls. ls ++ line ∷ []) k.all
      ∙ append_assoc w.sent (k.unsent ++ w.typed) (line ∷ [])
      ∙ ap (λ ls. w.sent ++ ls) (append_assoc k.unsent w.typed (line ∷ []));
  held = k.held;
  plain = k.plain;
}
Event-Accounted ends_input k = k

Step-Accounted : {w v : World} → Step w v → Accounted w → Accounted v
unfolding input_step
Step-Accounted {w} (input_moves e) k = rw e at (moves-After w.phase w k)
Step-Accounted (happens event) k = Event-Accounted event k

-- However the input thread runs among the callbacks, signals and the user: the lines that were
-- typed are those that went to `send`, then at most one that the thread read and did not send,
-- which is none while it waits for the next, then those that are not read, all in order; no line
-- that was sent is "quit" or "exit".
pub sent_in_order : {w : World} → Reach started w → Accounted w
sent_in_order here = record { unsent = []; all = refl; held = refl; plain = tt }
sent_in_order (next r s) = Step-Accounted s (sent_in_order r)
