-- ===== src/ThreadPool/Counts.antt =====
-- ThreadPool: counts over the threads of a pool and the tasks that they run.
use knet_lib.Common.{
  ℕ, suc, ◌+◌, ◌≡◌, refl, ap, Bool, true, false, List, [], ◌∷◌, ◌++◌, length, arith,
}
use knet_lib.ThreadPool.{Worker, waiting, sleeping, returned, working, task_of, notify_all}

module _ (T : Type 0) where
  abbrev pub one_if : Bool → ℕ
  one_if true = 1
  one_if false = 0

  -- How many tasks of a list pass a test.
  abbrev pub count : (T → Bool) → List T → ℕ
  count q [] = 0
  count q (t ∷ ts) = one_if (q t) + count q ts

  pub count-append : (q : T → Bool) (xs ys : List T) → count q (xs ++ ys) ≡ count q xs + count q ys
  count-append q [] ys = omega arith
  count-append q (x ∷ xs) ys = omega (arith, count-append q xs ys)

  -- The tasks that threads are running.
  abbrev pub held : List (Worker T) → List T
  held [] = []
  held (w ∷ ws) = task_of T w ++ held ws

  pub count-held :
      (q : T → Bool) (us vs : List (Worker T)) (w : Worker T)
      → count q (held (us ++ w ∷ vs)) ≡ count q (task_of T w) + count q (held (us ++ vs))
  count-held q [] vs w = count-append q (task_of T w) (held vs)
  count-held q (u ∷ us) vs w = omega (
    arith,
    count-held q us vs w,
    count-append q (task_of T u) (held (us ++ w ∷ vs)),
    count-append q (task_of T u) (held (us ++ vs)),
  )

  abbrev pub one_if_ended : Worker T → ℕ
  one_if_ended waiting = 0
  one_if_ended sleeping = 0
  one_if_ended returned = 1
  one_if_ended (working t) = 0

  abbrev pub ended : List (Worker T) → ℕ
  ended [] = 0
  ended (w ∷ ws) = one_if_ended w + ended ws

  pub ended-split :
      (us vs : List (Worker T)) (w : Worker T)
      → ended (us ++ w ∷ vs) ≡ one_if_ended w + ended (us ++ vs)
  ended-split [] vs w = refl
  ended-split (u ∷ us) vs w = omega (arith, ended-split us vs w)

  pub held-notify_all : (ws : List (Worker T)) → held (notify_all T ws) ≡ held ws
  unfolding notify_all
  held-notify_all [] = refl
  held-notify_all (waiting ∷ ws) = held-notify_all ws
  held-notify_all (sleeping ∷ ws) = held-notify_all ws
  held-notify_all (returned ∷ ws) = held-notify_all ws
  held-notify_all (working t ∷ ws) = ap (◌∷◌ t) (held-notify_all ws)

  pub ended-notify_all : (ws : List (Worker T)) → ended (notify_all T ws) ≡ ended ws
  unfolding notify_all
  ended-notify_all [] = refl
  ended-notify_all (waiting ∷ ws) = omega (arith, ended-notify_all ws)
  ended-notify_all (sleeping ∷ ws) = omega (arith, ended-notify_all ws)
  ended-notify_all (returned ∷ ws) = omega (arith, ended-notify_all ws)
  ended-notify_all (working t ∷ ws) = omega (arith, ended-notify_all ws)

  pub length-notify_all : (ws : List (Worker T)) → length (notify_all T ws) ≡ length ws
  unfolding notify_all
  length-notify_all [] = refl
  length-notify_all (w ∷ ws) = ap suc (length-notify_all ws)

  pub length-split :
      (us vs : List (Worker T)) (w x : Worker T) → length (us ++ w ∷ vs) ≡ length (us ++ x ∷ vs)
  length-split [] vs w x = refl
  length-split (u ∷ us) vs w x = ap suc (length-split us vs w x)
