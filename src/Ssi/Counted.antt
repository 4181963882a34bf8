-- ===== src/Ssi/Counted.antt =====
-- `thread_count` is the number of threads in use.
use os_unibo.Base.{suc, ◌≡◌, ◌≢◌, ◌∙◌, sym, ap, Ptr, null, update, arith}
use os_unibo.Mikabooq.{max_thread}
use os_unibo.Mikabooq.Layout.{IsThread}
use os_unibo.Mikabooq.Thread.Used.{used, used_below-le, used-grows, used-shrinks}
use os_unibo.Kernel.{Kernel, add_word, sub_word}

-- The threads of the pool that are in use, and the SSI.
abbrev pub Counted : Kernel → Type 0
Counted k = k.thread_count ≡ suc (used k.mem.t_pcb)

pub Counted-same :
    (k k' : Kernel)
    → k'.mem.t_pcb ≡ k.mem.t_pcb
    → k'.thread_count ≡ k.thread_count
    → Counted k
    → Counted k'
Counted-same k k' pcbs count counted = count ∙ counted ∙ ap (λ f. suc (used f)) (sym pcbs)

pub Counted-create :
    (k k' : Kernel) (t proc : Ptr)
    → IsThread t
    → k.mem.t_pcb t ≡ null
    → proc ≢ null
    → k'.mem.t_pcb ≡ update k.mem.t_pcb t proc
    → k'.thread_count ≡ add_word k.thread_count 1
    → Counted k
    → Counted k'
unfolding add_word
Counted-create k k' t proc it free real pcbs count counted = omega (
  arith,
  counted,
  count,
  used_below-le max_thread k.mem.t_pcb,
  used-grows k.mem.t_pcb t proc it free real,
  ap used pcbs,
)

pub Counted-end :
    (k k' : Kernel) (t : Ptr)
    → IsThread t
    → k.mem.t_pcb t ≢ null
    → k'.mem.t_pcb ≡ update k.mem.t_pcb t null
    → k'.thread_count ≡ sub_word k.thread_count 1
    → Counted k
    → Counted k'
unfolding sub_word
Counted-end k k' t it in_use pcbs count counted = omega (
  arith,
  counted,
  count,
  used_below-le max_thread k.mem.t_pcb,
  used-shrinks k.mem.t_pcb t it in_use,
  ap used pcbs,
)
