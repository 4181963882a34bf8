-- ===== src/Ssi/Sound/Reached.antt =====
-- The states that requests lead to, one after the other.
use os_unibo.Base.{◌⊎◌, inl, inr, true, ◌≡◌, subst, Ptr, null, Bool, ℕ, some, arith}
use os_unibo.Mikabooq.Layout.{IsThread, ssi_thread}
use os_unibo.Kernel.Message.{send, send_success, send_failure}
use os_unibo.Listx.{list_empty}
use os_unibo.Mikabooq.{message_h}
use os_unibo.Kernel.{Kernel, Machine}
use os_unibo.Ssi.Io.{Served}
use os_unibo.Ssi.Request.{Request, encode, Holds}
use os_unibo.Ssi.Serve.{serve}
use os_unibo.Ssi.Sound.{Steady}
use os_unibo.Ssi.Sound.Send.{Refused, send-Steady}
use os_unibo.Ssi.Sound.Serve.{IsFair, after, has_panicked, panics_for, serve-Steady}

-- `k'` follows from `k`: the threads write words of the memory, messages are sent, and the SSI
-- serves requests.
pub data Reached (mach : Machine) (terminal : Ptr) (k : Kernel) : Kernel → Type 0 where
  here : Reached mach terminal k k
  written :
      (k' : Kernel) (words : Ptr → ℕ)
      → Reached mach terminal k k'
      → Reached mach terminal k (record k' { words = words })
  sent :
      (k' k'' : Kernel) (dest sender : Ptr) (msg code : ℕ)
      → Reached mach terminal k k'
      → IsThread dest
      → send dest sender msg k' ≡ some (k'', code)
      → Reached mach terminal k k''
  served :
      (k' : Kernel) (applicant msg : Ptr) (r : Request) (result : Served)
      → Reached mach terminal k k'
      → Holds k'.words msg 0 (encode r)
      → IsFair k'.mem applicant r
      → serve mach terminal applicant msg k' ≡ some result
      → Reached mach terminal k (after result)

-- One step after the other keeps the invariant.
module _ {is_head : Ptr → Bool} (k : Kernel) (s : Steady is_head k) where
  written-Steady : (words : Ptr → ℕ) → Steady is_head (record k { words = words })
  written-Steady words = record { sound = s.sound; counted = s.counted }

  sent-Steady :
      (k' : Kernel) (dest sender : Ptr) (msg code : ℕ)
      → IsThread dest
      → send dest sender msg k ≡ some (k', code)
      → Steady is_head k'
  sent-Steady k' dest sender msg code id run =
      let (k'', code', run', _, steady) = send-Steady k s.sound s.counted dest sender msg id in
      let same : k'' ≡ k' = cc (run, run') in subst (Steady is_head) same steady

  served-Steady :
      (mach : Machine) (terminal applicant msg : Ptr) (r : Request) (result : Served)
      → Holds k.words msg 0 (encode r)
      → IsFair k.mem applicant r
      → serve mach terminal applicant msg k ≡ some result
      → Steady is_head (after result)
  served-Steady mach terminal applicant msg r result holds fair run =
      let (result', run', _, steady) =
        serve-Steady k s.sound s.counted mach terminal applicant msg r holds fair in
      let same : result' ≡ result = cc (run, run') in
      subst (λ x. Steady is_head (after x)) same steady

-- The SSI is a sender.
delivered :
    (k1 : Kernel) (applicant : Ptr) (code : ℕ)
    → (code ≡ send_success) ⊎ ((code ≡ send_failure) × Refused k1 applicant ssi_thread)
    → (code ≡ send_success)
      ⊎ ((code ≡ send_failure)
          × ((k1.mem.t_pcb applicant ≡ null) ⊎ (list_empty message_h k1.mem.links ≡ true)))
delivered k1 applicant code (inl ok) = inl ok
delivered k1 applicant code (inr (failed, inl ended)) = inr (failed, inl ended)
delivered k1 applicant code (inr (failed, inr (inl nobody))) = absurd (omega (arith, nobody))
delivered k1 applicant code (inr (failed, inr (inr full))) = inr (failed, inr full)

module _ {is_head : Ptr → Bool} {mach : Machine} {terminal : Ptr} {k : Kernel}
    (s : Steady is_head k) where
  -- From a state in which the tables are sound, every thread in use is in a scheduling queue, the
  -- processes form a tree and `thread_count` is the number of threads in use, only such states are
  -- reached, whatever is written to the words of the memory and sent to threads other than the
  -- SSI, and in whichever order requests are served, as long as each request is fair: a thread in use
  -- asks, not to wait for the clock, a new system call manager is a thread or NULL, and the root
  -- process is not ended. The threads themselves are not switched.
  pub Reached-Steady : (k' : Kernel) → Reached mach terminal k k' → Steady is_head k'
  Reached-Steady k' here = s
  Reached-Steady k' (written before words way) =
      written-Steady before (Reached-Steady before way) words
  Reached-Steady k' (sent before last dest sender msg code way id run) =
      sent-Steady before (Reached-Steady before way) last dest sender msg code id run
  Reached-Steady k' (served before applicant msg r result way holds fair run) =
      served-Steady before (Reached-Steady before way) mach terminal applicant msg r result holds
        fair run

  -- In every state that is so reached from one with these properties, the next fair request is served,
  -- and the SSI panics only at the request for a device that is not terminal 0 or for which a thread
  -- waits already. Any reply to the applicant is then sent, unless he has ended or no descriptor of
  -- a message is free, in which case `send` returns -1. The loops of both end within their bounds,
  -- and both lead to such states again.
  pub Reached-served :
      (k' : Kernel) (applicant msg : Ptr) (r : Request) (reply : ℕ)
      → Reached mach terminal k k'
      → Holds k'.words msg 0 (encode r)
      → IsFair k'.mem applicant r
      → (result : Served) × (serve mach terminal applicant msg k' ≡ some result)
        × (has_panicked result ≡ panics_for r terminal k')
        × Reached mach terminal k (after result)
        × Steady is_head (after result)
        × (k'' : Kernel) × (code : ℕ) × (send applicant ssi_thread reply (after result)
            ≡ some (k'', code))
        × ((code ≡ send_success)
            ⊎ ((code ≡ send_failure)
                × (((after result).mem.t_pcb applicant ≡ null)
                    ⊎ (list_empty message_h (after result).mem.links ≡ true))))
        × Reached mach terminal k k''
        × Steady is_head k''
  Reached-served k' applicant msg r reply way holds fair =
      let was = Reached-Steady k' way in
      let (result, run, panics, sound) =
        serve-Steady k' was.sound was.counted mach terminal applicant msg r holds fair in
      let next = served k' applicant msg r result way holds fair run in
      let (k'', code, sending, why, sound') =
        send-Steady (after result) sound.sound sound.counted applicant ssi_thread reply
          fair.is_thread in
      (
        result,
        run,
        panics,
        next,
        sound,
        k'',
        code,
        sending,
        delivered (after result) applicant code why,
        sent (after result) k'' applicant ssi_thread reply code next fair.is_thread sending,
        sound',
      )
