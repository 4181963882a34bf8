-- ===== src/Boot/Ends.antt =====
-- The lists before the loops, and those of the SSI after them.
use mathlib.Core.Bool.{false≢true}
use os_unibo.Base.{Ptr, ◌≡◌, Bool, true, false, ◌||◌, [], ◌==◌, arith, update, refl}
use os_unibo.Listx.{Links, init_list_head}
use os_unibo.Listx.Queues.{Linked, init_list_head-Linked}
use os_unibo.Mikabooq.{
  process, p_threads, p_children, t_msgq, t_wait4me, thread_h, message_h, readyq, blockedq,
  t_wait4clock,
}
use os_unibo.Mikabooq.Layout.{proc_h, ssi_thread}
use os_unibo.Boot.Lists.{thread_heads, fresh_thread}
use os_unibo.Boot.Heads.{
  in_series-false, in_series-suc, series, series_down, heads, queues, Linked-cong, IsLoose-init,
}

ssi_queues :
    (a : Ptr)
    → queues 19 30 40 a
      ≡ update (update (queues 19 30 40) (t_msgq ssi_thread) []) (t_wait4me ssi_thread) [] a
unfolding queues
ssi_queues a = ground arith

-- The descriptor of the SSI, which is in no list of threads.
pub ssi_lists :
    (l : Links)
    → Linked (heads true 20 30) l (queues 19 30 40)
    → Linked
        (heads true 20 31)
        (init_list_head (t_wait4me ssi_thread) (init_list_head (t_msgq ssi_thread) l))
        (queues 19 30 40)
ssi_lists l linked = Linked-cong (thread_heads 30) ssi_queues (
    init_list_head-Linked
      (init_list_head-Linked linked (t_msgq ssi_thread)
        (fresh_thread 30 40 (t_msgq ssi_thread) (omega arith) (omega arith) (omega arith)))
      (t_wait4me ssi_thread)
      (IsLoose-init
        (fresh_thread 30 40 (t_wait4me ssi_thread) (omega arith) (omega arith) (omega arith))
        (t_msgq ssi_thread) refl))

init_empty :
    {is_head : Ptr → Bool} {l : Links} (a : Ptr)
    → is_head a ≡ false
    → Linked is_head l (λ _. [])
    → Linked (λ x. x == a || is_head x) (init_list_head a l) (λ _. [])
init_empty a out linked =
    Linked-cong {q = update (λ _. []) a []} (λ x. refl) (λ x. ground arith)
      (init_list_head-Linked linked a (record { not_head = out; not_in = λ h i. refl }))

Linked-none : (l : Links) → Linked (λ _. false) l (λ _. [])
Linked-none l = record {
  ring = λ h i. absurd (false≢true i);
  entry = λ h a i m. absurd (false≢true i);
  unique = λ h k a ih ik m n. absurd (false≢true ih);
}

root_heads :
    (a : Ptr)
    → heads true 1 0 a ≡ (
        a == 19
        || (a == 18
            || (a == 17
                || (a == 1485
                    || (a == 1484 || (a == 1483 || (a == 1482 || (a == 1481 || false))))))))
unfolding heads
root_heads a = ground (
  arith,
  in_series-suc 17 0 a,
  in_series-suc 18 0 a,
  in_series-false 17 0 a,
  in_series-false 18 0 a,
  in_series-false 342 0 a,
  in_series-false 343 0 a,
)

root_queues : (a : Ptr) → queues 0 0 0 a ≡ []
unfolding queues series series_down
root_queues a = ground arith

-- The static sentinels, and then the three lists of the root.
pub root_lists :
    (l : Links)
    → Linked
        (heads true 1 0)
        (init_list_head proc_h (
          init_list_head (p_children (process 0)) (
            init_list_head (p_threads (process 0)) (
              init_list_head t_wait4clock (
                init_list_head blockedq (
                  init_list_head readyq (init_list_head message_h (init_list_head thread_h l))))))))
        (queues 0 0 0)
root_lists l = Linked-cong root_heads root_queues (
    init_empty proc_h refl (
      init_empty (p_children (process 0)) refl (
        init_empty (p_threads (process 0)) refl (
          init_empty t_wait4clock refl (
            init_empty blockedq refl (
              init_empty readyq refl
                (init_empty message_h refl (init_empty thread_h refl (Linked-none l)))))))))
