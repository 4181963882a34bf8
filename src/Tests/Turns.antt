-- ===== src/Tests/Turns.antt =====
-- Interrupts, with the SSI in the ready queue while another thread runs.
use os_unibo.Base.{◌%◌, ◌≡◌, refl, ◌==◌, if◌then◌else◌, ◌∷◌, [], arith, has-append}
use os_unibo.Mikabooq.{readyq, thread, t_sched}
use os_unibo.Mikabooq.Layout.{ssi_thread}
use os_unibo.Boot.Loose.{sched-IsLoose}
use os_unibo.Boot.Heads.{queues}
use os_unibo.Boot.Valid.{boot_heads, boot_queues}
use os_unibo.Kernel.{Kernel, panics}
use os_unibo.Kernel.Interrupts.{io_h, acknowledge}
use os_unibo.Kernel.Interrupts.Pending.{io_h-acknowledge}
use os_unibo.Kernel.Interrupts.Turns.{InTurn, Slices, Slices-InTurn, Slices-reached}
use os_unibo.Tests.Kernel.{quiet, with_mem, ready, ready_queues, ready-Valid, clock-nil}

abbrev busy : Kernel
busy = record (with_mem ready) { current_thread = thread 0 }

busy-InTurn : InTurn boot_heads busy (t_sched (thread 0)) (t_sched ssi_thread ∷ [])
unfolding queues
busy-InTurn = record {
  q = ready_queues;
  valid = ready-Valid;
  running = omega arith;
  loose = record {
    not_head = (sched-IsLoose (thread 0) (omega arith)).not_head;
    not_in = λ h ih. ground (
      arith,
      (sched-IsLoose (thread 0) (omega arith)).not_in h ih,
      has-append (t_sched (thread 0)) (boot_queues readyq) (t_sched ssi_thread ∷ []),
    );
  };
  runs = refl;
  waiting = ground arith;
  quiet = ground (arith, clock-nil);
}

one_slice :
    (k' : Kernel) × Slices (λ t msg k. k) 1 busy k'
    × (t_sched k'.current_thread ≡ t_sched ssi_thread)
one_slice =
    Slices-reached (λ t msg k. k) busy (t_sched (thread 0)) [] (t_sched ssi_thread) [] busy-InTurn

Slices-reached_example :
    (k' : Kernel) × Slices (λ t msg k. k) 1 busy k'
    × (t_sched k'.current_thread ≡ t_sched ssi_thread)
Slices-reached_example =
    Slices-reached (λ t msg k. k) busy (t_sched (thread 0)) [] (t_sched ssi_thread) [] busy-InTurn

Slices-InTurn_example : InTurn boot_heads one_slice.0 (t_sched ssi_thread) (t_sched (thread 0) ∷ [])
Slices-InTurn_example =
    Slices-InTurn (λ t msg k. k) busy one_slice.0 (t_sched (thread 0)) [] (t_sched ssi_thread) []
      busy-InTurn one_slice.1

io_h-acknowledge_example :
    io_h 0x104 0x240 quiet ≡ (if 0x104 % 256 == 0 then panics quiet else acknowledge 0x240 4 quiet)
io_h-acknowledge_example = io_h-acknowledge 0x104 0x240 quiet
