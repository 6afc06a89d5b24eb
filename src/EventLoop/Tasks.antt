-- ===== src/EventLoop/Tasks.antt =====
-- EventLoop: a round runs the tasks that were queued before it, in order, and only these.
use knet_lib.Common.{
  ◌<◌, ◌≡◌, refl, sym, ap, ◌∙◌, Bool, true, false, List, [], ◌∷◌, ◌++◌, append_assoc, append-nil,
  ltb, length, Bool-cases, inl, inr, ◌⊎◌, Returns, arith,
}
use knet_lib.EventLoop.{
  eventfd_max, EventLoop, wakeup, queue_in_loop, quit, queue_all, run, run_all, do_pending_tasks,
}

-- What a list of tasks queues, in order.
abbrev pub spawned {ℓ} : {T : Type ℓ} → (T → List T) → List T → List T
spawned f [] = []
spawned f (t ∷ ts) = f t ++ spawned f ts

module _ (T : Type 0) where
  pub wakeup-pos : (l : EventLoop T) → 0 < (wakeup T l).wakeups
  unfolding wakeup
  wakeup-pos l = elim (Bool-cases (ltb l.wakeups eventfd_max)) [
    | inl t ↦ rw t (omega arith)
    | inr f ↦ rw f (ground arith)
  ]

  module _ (spawns : T → List T) (quits : T → Bool) where
    -- The loop ran `ts`, and these queued `qs` and left a wake-up.
    pub record Ran (ts qs : List T) (l m : EventLoop T) : Type 0 where
      pub pending : m.pending_tasks ≡ l.pending_tasks ++ qs
      pub ran : m.ran ≡ l.ran ++ ts
      pub doing : m.doing_pending_tasks ≡ true
      pub woken : (0 < l.wakeups) ⊎ (0 < length qs) → 0 < m.wakeups

    nothing : (l : EventLoop T) → l.doing_pending_tasks ≡ true → Ran [] [] l l
    nothing l e = record {
      pending = sym (append-nil l.pending_tasks);
      ran = sym (append-nil l.ran);
      doing = e;
      woken = λ w. ground arith;
    }

    in_turn :
        {ts ts' qs qs' : List T} {l m n : EventLoop T}
        → Ran ts qs l m
        → Ran ts' qs' m n
        → Ran (ts ++ ts') (qs ++ qs') l n
    in_turn {ts} {ts'} {qs} {qs'} {l} {m} {n} r s = record {
      pending = s.pending ∙ ap (λ xs. xs ++ qs') r.pending ∙ append_assoc l.pending_tasks qs qs';
      ran = s.ran ∙ ap (λ xs. xs ++ ts') r.ran ∙ append_assoc l.ran ts ts';
      doing = s.doing;
      woken = λ w. elim (either w) [ inl h ↦ s.woken (inl (r.woken h)) | inr h ↦ s.woken (inr h) ];
    }
      where
        either :
            (0 < l.wakeups) ⊎ (0 < length (qs ++ qs'))
            → ((0 < l.wakeups) ⊎ (0 < length qs)) ⊎ (0 < length qs')
        either (inl h) = inl (inl h)
        either (inr h) = some_queued qs h
          where
            some_queued :
                (xs : List T)
                → 0 < length (xs ++ qs')
                → ((0 < l.wakeups) ⊎ (0 < length xs)) ⊎ (0 < length qs')
            some_queued [] k = inr k
            some_queued (x ∷ xs) k = inl (inr (omega arith))

    queue-Ran :
        (t : T) (l : EventLoop T)
        → l.doing_pending_tasks ≡ true
        → Ran [] (t ∷ []) l (queue_in_loop T true t l)
    unfolding queue_in_loop wakeup
    queue-Ran t l e = elim (Bool-cases (ltb l.wakeups eventfd_max)) [
      | inl h ↦
          simp (e, h)
            (record {
              pending = refl;
              ran = sym (append-nil l.ran);
              doing = refl;
              woken = λ w. omega arith;
            })
      | inr h ↦
          simp (e, h)
            (record {
              pending = refl;
              ran = sym (append-nil l.ran);
              doing = refl;
              woken = λ w. ground arith;
            })
    ]

    queue_all-Ran :
        (ts : List T) (l : EventLoop T)
        → l.doing_pending_tasks ≡ true
        → Ran [] ts l (queue_all T spawns quits ts l)
    unfolding queue_all
    queue_all-Ran [] l e = nothing l e
    queue_all-Ran (t ∷ ts) l e = let r = queue-Ran t l e in in_turn r (queue_all-Ran ts _ r.doing)

    pub run-Ran :
        (t : T) (l : EventLoop T)
        → l.doing_pending_tasks ≡ true
        → Ran (t ∷ []) (spawns t) l (run T spawns quits t l)
    unfolding run quit
    run-Ran t l e =
        let r = queue_all-Ran (spawns t) (record l { ran = l.ran ++ t ∷ [] }) e in
        let p = r.ran ∙ append-nil (l.ran ++ t ∷ []) in
        elim (Bool-cases (quits t)) [
          | inl q ↦ rw q (record { pending = r.pending; ran = p; doing = r.doing; woken = r.woken })
          | inr q ↦ rw q (record { pending = r.pending; ran = p; doing = r.doing; woken = r.woken })
        ]

    run_all-Ran :
        (ts : List T) (l : EventLoop T)
        → l.doing_pending_tasks ≡ true
        → Ran ts (spawned spawns ts) l (run_all T spawns quits ts l)
    unfolding run_all
    run_all-Ran [] l e = nothing l e
    run_all-Ran (t ∷ ts) l e = let r = run-Ran t l e in in_turn r (run_all-Ran ts _ r.doing)

    -- `doPendingTasks` in the loop's thread returns: it ran the tasks that were queued, in order,
    -- and only these; what they queued waits in order for the next round, with a wake-up written
    -- if it is anything.
    pub do_pending_tasks-Returns :
        (l : EventLoop T)
        → Returns
            (λ m.
              (m.ran ≡ l.ran ++ l.pending_tasks)
              × (m.pending_tasks ≡ spawned spawns l.pending_tasks)
              × (m.doing_pending_tasks ≡ false)
              × (0 < length m.pending_tasks → 0 < m.wakeups))
            (do_pending_tasks T spawns quits true l)
    unfolding do_pending_tasks
    do_pending_tasks-Returns l =
        let r =
          run_all-Ran l.pending_tasks (record l { pending_tasks = []; doing_pending_tasks = true })
            refl in
        (r.ran, r.pending, refl, λ p. r.woken (inr (omega (arith, p, ap length r.pending))))
