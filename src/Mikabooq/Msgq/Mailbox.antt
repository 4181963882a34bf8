-- ===== src/Mikabooq/Msgq/Mailbox.antt =====
-- The abstract view of a message queue: the pairs of sender and payload, oldest first, and what it
-- means to receive from it.
use mathlib.Core.List.{map}
use mathlib.Core.Option
use os_unibo.Base.{
  ℕ, ◌-◌, Ptr, null, ◌≡◌, refl, List, [], ◌∷◌, Option, none, some, ◌==◌, if◌then◌else◌, ◌∈◌, arith,
}
use os_unibo.Mikabooq.{Mem, m_next}

abbrev pub Mailbox : Type 0
Mailbox = List (Ptr × ℕ)

-- The message that an entry of a queue belongs to.
abbrev pub message_at : Mem → Ptr → Ptr × ℕ
message_at m a = (m.m_sender (a - m_next 0), m.m_value (a - m_next 0))

abbrev pub mailbox : Mem → List Ptr → Mailbox
mailbox m = map (message_at m)

-- The oldest message of `s`, and the others in their order.
unfoldable pub take_from : Ptr → Mailbox → Option ((Ptr × ℕ) × Mailbox)
take_from s [] = none
take_from s ((sender, v) ∷ rest) =
    if sender == s
    then some ((sender, v), rest)
    else Option.map (λ (w, left). (w, (sender, v) ∷ left)) (take_from s rest)

unfoldable pub take_first : Mailbox → Option ((Ptr × ℕ) × Mailbox)
take_first [] = none
take_first (w ∷ rest) = some (w, rest)

-- A receive from `s`, or from anybody if `s` is NULL.
unfoldable pub receive : Ptr → Mailbox → Option ((Ptr × ℕ) × Mailbox)
unfolding take_from take_first
receive s box = if s == null then take_first box else take_from s box

pub map_same :
    (f g : Ptr → Ptr × ℕ) (xs : List Ptr) → ((a : Ptr) → a ∈ xs → f a ≡ g a) → map f xs ≡ map g xs
map_same f g [] h = refl
map_same f g (x ∷ xs) h = ground (arith, h x, map_same f g xs (λ a i. h a (ground arith)))
