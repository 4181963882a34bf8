-- ===== src/Mikabooq/Msgq/Get.antt =====
-- `msgq_get` against the abstract receive of a mailbox.
use mathlib.Core.Option
use os_unibo.Base.{
  ℕ, zero, suc, ◌+◌, ◌-◌, ◌<◌, ◌≡◌, ◌⊎◌, inl, inr, refl, ap, subst, pos, negsuc, Ptr, null, Bool,
  false, List, [], ◌∷◌, Option, none, some, ◌==◌, if◌then◌else◌, ◌∈◌, ◌∉◌, arith, erase, length,
  Bool-cases, IsDistinct,
}
use os_unibo.Listx.Chain.{Chain}
use os_unibo.Listx.Moves.{list_next-eq}
use os_unibo.Mikabooq.{Mem, max_msg, t_msgq, m_next}
use os_unibo.Mikabooq.Layout.{IsReceiver}
use os_unibo.Mikabooq.Msgq.{Got, msg_free, find_msg, take_found, get_first, get_from, msgq_get}
use os_unibo.Mikabooq.Msgq.Mailbox.{Mailbox, mailbox, take_from, take_first, receive}
use os_unibo.Mikabooq.Msgq.Valid.{Msgs, length-le-max_msg}
use os_unibo.Mikabooq.Msgq.Free.{Taken, msg_free-Taken}

-- What the loop finds along the entries `xs`: the first message of `s`, the one that the abstract
-- receive takes; or nothing, where that takes nothing.
abbrev Finds : Mem → Ptr → List Ptr → Option Ptr → Type 0
Finds m s xs r =
    ((r ≡ some null) × (take_from s (mailbox m xs) ≡ none))
    ⊎ ((e : Ptr) × (e ∈ xs)
        × (r ≡ some (e - m_next 0))
        × (take_from s (mailbox m xs)
            ≡ some ((s, m.m_value (e - m_next 0)), mailbox m (erase e xs))))

find_msg-Finds :
    (m : Mem) (s head a : Ptr) (fuel : ℕ) (xs : List Ptr)
    → Chain m.links a xs head
    → head ∉ xs
    → IsDistinct xs
    → length xs < fuel
    → Finds m s xs (find_msg fuel s head (m.links.next a) m)
unfolding find_msg take_from erase
find_msg-Finds m s head a zero xs c out d f = absurd (omega arith)
find_msg-Finds m s head a (suc fuel) [] c out d f = inl (ground arith, refl)
find_msg-Finds m s head a (suc fuel) (x ∷ xs) c out d f =
    elim (Bool-cases (m.m_sender (x - m_next 0) == s)) [
      | inl hit ↦ inr (x, ground arith, ground arith, ground arith)
      | inr miss ↦ elim (find_msg-Finds m s head x fuel xs c.2 (ground arith) d.1 (omega arith)) [
        | inl (e, n) ↦ inl (ground arith, ground arith)
        | inr (e, i, r, t) ↦
            let ne : (e == x) ≡ false = ground arith in
            inr (e, ground arith, ground arith, rw (miss, ne, t))
      ]
    ]

-- Whom a receive waits for; NULL is anybody.
abbrev pub wanted : Option Ptr → Ptr
wanted none = null
wanted (some s) = s

-- What a receive returns, and leaves, for each answer of the abstract receive.
abbrev pub Gets :
    (Ptr → Bool)
    → (Ptr → List Ptr)
    → Mem
    → Ptr
    → Option Ptr
    → Bool
    → Option ((Ptr × ℕ) × Mailbox)
    → Option (Mem × Got)
    → Type 0
Gets is_head q m dest sender value none r =
    r ≡ some (m, record { code = negsuc 0; sender = sender; stored = none })
Gets is_head q m dest sender value (some ((from, v), rest)) r =
    (m' : Mem) × (r
      ≡ some (
        m',
        record {
          code = pos 0;
          sender = Option.map (λ _. from) sender;
          stored = if value then some v else none;
        },
      ))
    × Taken is_head q m dest rest m'

module _ {is_head : Ptr → Bool} {q : Ptr → List Ptr} {m : Mem} (v : Msgs is_head q m) (dest : Ptr)
    (id : IsReceiver dest) (value : Bool) where
  abbrev box : Mailbox
  box = mailbox m (q (t_msgq dest))

  get_first-Gets :
      (sender : Option Ptr)
      → Gets is_head q m dest sender value (take_first box) (some (get_first sender dest value m))
  unfolding get_first take_first erase
  get_first-Gets sender = go (q (t_msgq dest)) refl
    where
      go :
          (xs : List Ptr)
          → q (t_msgq dest) ≡ xs
          → Gets is_head q m dest sender value
              (take_first (mailbox m xs))
              (some (get_first sender dest value m))
      go [] e = ground (arith, list_next-eq v.linked (t_msgq dest) (v.msgq_is dest id))
      go (x ∷ xs) e = (
        (msg_free (x - m_next 0) m).0,
        ground (
          arith,
          list_next-eq v.linked (t_msgq dest) (v.msgq_is dest id),
          (v.pending_entry dest x id (ground arith)).0,
          id,
        ),
        subst (λ b. Taken is_head q m dest b (msg_free (x - m_next 0) m).0)
            (ap (mailbox m) (ground arith)) (msg_free-Taken v dest id x (ground arith)),
      )

  get_from-Gets :
      (s : Ptr) → Gets is_head q m dest (some s) value (take_from s box) (get_from s dest value m)
  unfolding get_from take_found
  get_from-Gets s =
      let ring = v.linked.ring (t_msgq dest) (v.msgq_is dest id) in
      let set : (dest == null) ≡ false = ground (arith, id) in
      elim (find_msg-Finds m s (t_msgq dest) (t_msgq dest) (max_msg + 1) (q (t_msgq dest))
        ring.chain ring.apart ring.distinct (omega (arith, length-le-max_msg v dest id))) [
          | inl (r, n) ↦ rw (n, set, r) refl
          | inr (e, i, r, t) ↦
              let real : (e - m_next 0 == null) ≡ false =
                ground (arith, (v.pending_entry dest e id i).0) in
              rw (t, set, r) ((msg_free (e - m_next 0) m).0, rw real, msg_free-Taken v dest id e i)
        ]

  -- `msgq_get` from a thread, or from anybody if there is no `sender` or it is NULL, is the
  -- abstract receive: it ends, returns -1 and changes nothing where that finds no message, and
  -- otherwise returns 0 with the sender and the payload of that message, and takes it out.
  pub msgq_get-Gets :
      (sender : Option Ptr)
      → Gets is_head q m dest sender value
          (receive (wanted sender) box)
          (msgq_get sender dest value m)
  unfolding msgq_get receive
  msgq_get-Gets none = get_first-Gets none
  msgq_get-Gets (some s) = elim (Bool-cases (s == null)) [
    | inl e ↦ rw e (get_first-Gets (some s))
    | inr e ↦ rw e (get_from-Gets s)
  ]
