-- ===== src/Kernel/Interrupts/Turns.antt =====
-- Round robin: a thread that is ready runs after as many time slices as threads are before it.
use mathlib.Core.List.{append_assoc}
use os_unibo.Base.{
  ◌≡◌, refl, sym, ◌∙◌, subst, ap, Ptr, update, Bool, List, [], ◌∷◌, ◌++◌, ℕ, suc, arith, length,
}
use os_unibo.Mikabooq.{Cpu, readyq, t_wait4clock, t_sched}
use os_unibo.Mikabooq.Layout.{IsReceiver}
use os_unibo.Mikabooq.Valid.{Valid}
use os_unibo.Listx.Queues.{IsLoose}
use os_unibo.Kernel.{Kernel, loads}
use os_unibo.Kernel.Clock.Laws.{clocked}
use os_unibo.Kernel.Scheduler.Laws.{Runs}
use os_unibo.Kernel.Interrupts.{preempt, interval_timer_h}
use os_unibo.Kernel.Interrupts.Laws.{timer-Runs, queued}

-- The thread of the entry `current` runs, `ready` are the ready ones, and nobody waits for the clock.
pub record InTurn (is_head : Ptr → Bool) (k : Kernel) (current : Ptr) (ready : List Ptr)
    : Type 0 where
  pub q : Ptr → List Ptr
  pub valid : Valid is_head q k.mem
  pub running : IsReceiver k.current_thread
  pub loose : IsLoose is_head q (t_sched k.current_thread)
  pub runs : t_sched k.current_thread ≡ current
  pub waiting : q readyq ≡ ready
  pub quiet : q t_wait4clock ≡ []

-- A time slice: the thread that the handler loads runs, calculates, and is interrupted when the
-- slice is over, in the state `cpu'` and with other `words` in memory.
pub data Slice (msgsend : Ptr → ℕ → Kernel → Kernel) (k k' : Kernel) : Type 0 where
  slice :
      (cpu cpu' : Cpu) (words' : Ptr → ℕ) (k1 : Kernel)
      → interval_timer_h msgsend k ≡ loads cpu k1
      → k' ≡ record k1 { int_old = cpu'; words = words' }
      → Slice msgsend k k'

pub data Slices (msgsend : Ptr → ℕ → Kernel → Kernel) : ℕ → Kernel → Kernel → Type 0 where
  none_passed : {k : Kernel} → Slices msgsend 0 k k
  one_more :
      {n : ℕ} {k k' k'' : Kernel}
      → Slice msgsend k k'
      → Slices msgsend n k' k''
      → Slices msgsend (suc n) k k''

loads_inj : {cpu cpu' : Cpu} {k k' : Kernel} → loads cpu k ≡ loads cpu' k' → k ≡ k'
loads_inj e = cc

module _ {is_head : Ptr → Bool} (msgsend : Ptr → ℕ → Kernel → Kernel) where
  module _ {k : Kernel} (c : Ptr) (rest : List Ptr) (turn : InTurn is_head k c rest) (a : Ptr)
      (xs : List Ptr) (e : rest ++ c ∷ [] ≡ a ∷ xs) where
    abbrev ticked : Kernel
    ticked = record (preempt k) {
      pseudoclock = clocked (preempt k).clock_per_timeslice (preempt k);
    }

    run :
        Runs is_head
          (queued k turn.valid turn.running turn.loose)
          ticked
          a
          xs
          (interval_timer_h msgsend k)
    run =
        timer-Runs k turn.valid turn.running turn.loose msgsend turn.quiet a xs
          (rw (turn.runs, turn.waiting) e)

    -- A slice takes place.
    Slice-exists : (k' : Kernel) × Slice msgsend k k'
    Slice-exists = (_, slice _ k.int_old k.words _ run.outcome refl)

    -- After it the next thread is in turn.
    Slice-InTurn : (k' : Kernel) → Slice msgsend k k' → InTurn is_head k' a xs
    Slice-InTurn k' (slice cpu cpu' words' k1 loaded e') =
        let same = loads_inj (sym run.outcome ∙ loaded) in
        rw (e', ← same)
          (record {
            q = update (queued k turn.valid turn.running turn.loose) readyq xs;
            valid = run.valid;
            running = run.link.thread;
            loose = ground (arith, run.out, run.link);
            runs = ground (arith, run.link);
            waiting = ground arith;
            quiet = ground (arith, turn.quiet);
          })

  pass_first :
      {k k' : Kernel} (x c a : Ptr) (xs ys : List Ptr)
      → InTurn is_head k c (x ∷ xs ++ a ∷ ys)
      → Slice msgsend k k'
      → InTurn is_head k' x (xs ++ a ∷ (ys ++ c ∷ []))
  pass_first x c a xs ys turn s =
      Slice-InTurn c (x ∷ xs ++ a ∷ ys) turn x (xs ++ a ∷ (ys ++ c ∷ []))
        (ap (λ l. x ∷ l) (append_assoc xs (a ∷ ys) (c ∷ []))) _ s

  rotate :
      (xs : List Ptr) {k k' : Kernel} (c a : Ptr) (ys : List Ptr)
      → InTurn is_head k c (xs ++ a ∷ ys)
      → Slices msgsend (suc (length xs)) k k'
      → InTurn is_head k' a (ys ++ c ∷ xs)
  rotate [] c a ys turn (one_more s none_passed) =
      Slice-InTurn c (a ∷ ys) turn a (ys ++ c ∷ []) refl _ s
  rotate (x ∷ xs) c a ys turn (one_more s more) =
      subst (InTurn is_head _ a) (append_assoc ys (c ∷ []) (x ∷ xs))
        (rotate xs x a (ys ++ c ∷ []) (pass_first x c a xs ys turn s) more)

  rotate_exists :
      (xs : List Ptr) {k : Kernel} (c a : Ptr) (ys : List Ptr)
      → InTurn is_head k c (xs ++ a ∷ ys)
      → (k' : Kernel) × Slices msgsend (suc (length xs)) k k'
  rotate_exists [] c a ys turn =
      let (k', s) = Slice-exists c (a ∷ ys) turn a (ys ++ c ∷ []) refl in
      (k', one_more s none_passed)
  rotate_exists (x ∷ xs) {k} c a ys turn =
      let (k1, s) = Slice-exists c (x ∷ xs ++ a ∷ ys) turn x _ refl in
      let (k', more) = rotate_exists xs x a (ys ++ c ∷ []) (pass_first x c a xs ys turn s) in
      (k', one_more s more)

  -- From a state in which `xs` are the ready threads before `a`, and nobody waits for the clock,
  -- however one time slice more than there are threads in `xs` passes, `a` then runs; the threads
  -- behind `a` keep their places, and those that ran follow them in the order in which they ran.
  pub Slices-InTurn :
      (k k' : Kernel) (c : Ptr) (xs : List Ptr) (a : Ptr) (ys : List Ptr)
      → InTurn is_head k c (xs ++ a ∷ ys)
      → Slices msgsend (suc (length xs)) k k'
      → InTurn is_head k' a (ys ++ c ∷ xs)
  Slices-InTurn k k' c xs a ys turn more = rotate xs c a ys turn more

  -- From a state in which `xs` are the ready threads before `a`, and nobody waits for the clock, one
  -- time slice more than there are threads in `xs` can pass, and `a` then runs: the nucleus neither
  -- halts nor waits nor panics before.
  pub Slices-reached :
      (k : Kernel) (c : Ptr) (xs : List Ptr) (a : Ptr) (ys : List Ptr)
      → InTurn is_head k c (xs ++ a ∷ ys)
      → (k' : Kernel) × Slices msgsend (suc (length xs)) k k' × (t_sched k'.current_thread ≡ a)
  Slices-reached k c xs a ys turn =
      let (k', more) = rotate_exists xs c a ys turn in (k', more, (rotate xs c a ys turn more).runs)
