-- ===== src/Mikabooq/Msgq.antt =====
-- mikabooq.c, messages.
pub mod Mailbox
pub mod Valid
pub mod Add
pub mod Free
pub mod Get
use mathlib.Core.Option
use os_unibo.Base.{
  ℕ, zero, suc, ◌+◌, ℤ, pos, negsuc, Ptr, null, update, Bool, ◌||◌, Option, none, some, ◌==◌,
  if◌then◌else◌,
}
use os_unibo.Listx.{list_add, list_add_tail, list_del, list_next}
use os_unibo.Mikabooq.{Mem, max_msg, message, message_h, t_msgq, m_next, container_of, qhead}

unfoldable pub msgq_init_one : ℕ → Mem → Mem
msgq_init_one i m = record m {
  links = list_add (m_next (message i)) message_h m.links;
  m_sender = update m.m_sender (message i) null;
}

unfoldable pub msgq_init_loop : (rounds i : ℕ) → Mem → Mem
msgq_init_loop zero i m = m
msgq_init_loop (suc n) i m = msgq_init_loop n (i + 1) (msgq_init_one i m)

unfoldable pub msgq_init : Mem → Mem
msgq_init m = msgq_init_loop max_msg 0 m

unfoldable pub msgq_add : (sender destination : Ptr) → ℕ → Mem → Mem × ℤ
msgq_add sender destination value m =
    let new_space = list_next message_h m.links in
    if new_space == null || sender == null || destination == null
    then (m, negsuc 0)
    else (let new_msg = container_of new_space (m_next 0) in
        (
          record m {
            links = list_add_tail new_space (t_msgq destination) (list_del new_space m.links);
            m_sender = update m.m_sender new_msg sender;
            m_value = update m.m_value new_msg value;
          },
          pos 0,
        ))

unfoldable pub msgq_add_head : (sender destination : Ptr) → ℕ → Mem → Mem × ℤ
msgq_add_head sender destination value m =
    let new_space = list_next message_h m.links in
    if new_space == null || sender == null || destination == null
    then (m, negsuc 0)
    else (let new_msg = container_of new_space (m_next 0) in
        (
          record m {
            links = list_add new_space (t_msgq destination) (list_del new_space m.links);
            m_sender = update m.m_sender new_msg sender;
            m_value = update m.m_value new_msg value;
          },
          pos 0,
        ))

unfoldable pub msg_free : Ptr → Mem → Mem × ℤ
msg_free oldmsg m = (
  record m {
    links = list_add_tail (m_next oldmsg) message_h (list_del (m_next oldmsg) m.links);
    m_sender = update m.m_sender oldmsg null;
  },
  pos 0,
)

unfoldable pub msg_qhead : Ptr → Mem → Ptr
unfolding qhead
msg_qhead queue m = qhead queue (m_next 0) m

-- What `msgq_get` leaves in `*sender` and `*value`: the argument `value` says whether the pointer
-- is not NULL, and `stored` is what was written through it.
pub record Got : Type 0 where
  pub code : ℤ
  pub sender : Option Ptr
  pub stored : Option ℕ

unfoldable pub store_val : Bool → Ptr → Mem → Option ℕ
store_val value msg m = if value then some (m.m_value msg) else none

-- The loop of `msgq_get`: the first message of `sender`, from the entry at `at`. `none` means that
-- the fuel ran out, and `some null` that the loop came back to the sentinel.
unfoldable pub find_msg : (fuel : ℕ) (sender head at : Ptr) → Mem → Option Ptr
find_msg zero sender head at m = none
find_msg (suc fuel) sender head at m =
    let next = find_msg fuel sender head (m.links.next at) m in
    if at == head
    then some null
    else (if m.m_sender (container_of at (m_next 0)) == sender
        then some (container_of at (m_next 0))
        else next)

-- `*sender` is NULL, or there is no `*sender`: the first message, whoever sent it.
unfoldable pub get_first : (sender : Option Ptr) (destination : Ptr) → Bool → Mem → Mem × Got
unfolding store_val msg_free
get_first sender destination value m =
    let msg_conc = if destination == null then null else list_next (t_msgq destination) m.links in
    if msg_conc == null
    then (m, record { code = negsuc 0; sender = sender; stored = none })
    else (let msg = container_of msg_conc (m_next 0) in
        (
          (msg_free msg m).0,
          record {
            code = pos 0;
            sender = Option.map (λ _. m.m_sender msg) sender;
            stored = store_val value msg m;
          },
        ))

-- What is done with the message that the loop found.
unfoldable pub take_found : (sender pos : Ptr) → Bool → Mem → Mem × Got
unfolding store_val msg_free
take_found sender msg value m =
    if msg == null then (m, record { code = negsuc 0; sender = some sender; stored = none }) else (
      (msg_free msg m).0,
      record { code = pos 0; sender = some sender; stored = store_val value msg m },
    )

-- The first message of `*sender`. The queue has `max_msg` entries at most, and one more round sees
-- the sentinel.
unfoldable pub get_from : (sender destination : Ptr) → Bool → Mem → Option (Mem × Got)
unfolding take_found
get_from sender destination value m =
    if destination == null
    then some (m, record { code = negsuc 0; sender = some sender; stored = none })
    else Option.map (λ msg. take_found sender msg value m)
        (find_msg (max_msg + 1) sender (t_msgq destination) (m.links.next (t_msgq destination)) m)

unfoldable pub msgq_get :
    (sender : Option Ptr) (destination : Ptr) → Bool → Mem → Option (Mem × Got)
unfolding get_first get_from
msgq_get none destination value m = some (get_first none destination value m)
msgq_get (some s) destination value m =
    if s == null
    then some (get_first (some s) destination value m)
    else get_from s destination value m
