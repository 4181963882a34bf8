-- ===== src/Listx.antt =====
-- listx.h: circular doubly linked lists, threaded through `struct list_head` fields of other
-- structures. `Links` is the part of the memory that holds those fields, at their addresses.
pub mod Chain
pub mod Ring
pub mod Queues
pub mod Moves
use os_unibo.Base.{Ptr, null, update, Bool, ◌==◌, ◌&&◌, if◌then◌else◌}

pub record Links : Type 0 where
  pub next : Ptr → Ptr
  pub prev : Ptr → Ptr

abbrev pub set_next : Ptr → Ptr → Links → Links
set_next a v l = record l { next = update l.next a v }

abbrev pub set_prev : Ptr → Ptr → Links → Links
set_prev a v l = record l { prev = update l.prev a v }

unfoldable pub init_list_head : Ptr → Links → Links
init_list_head list l = set_prev list list (set_next list list l)

-- `__list_add`: the four writes, in the order of the code.
unfoldable pub list_add_between : (new prev next : Ptr) → Links → Links
list_add_between new prev next l =
    set_next prev new (set_prev new prev (set_next new next (set_prev next new l)))

unfoldable pub list_add : (new head : Ptr) → Links → Links
unfolding list_add_between
list_add new head l = list_add_between new head (l.next head) l

unfoldable pub list_add_tail : (new head : Ptr) → Links → Links
unfolding list_add_between
list_add_tail new head l = list_add_between new (l.prev head) head l

-- `__list_del`
unfoldable pub list_del_between : (prev next : Ptr) → Links → Links
list_del_between prev next l = set_next prev next (set_prev next prev l)

-- The fields of `entry` itself keep their values.
unfoldable pub list_del : Ptr → Links → Links
unfolding list_del_between
list_del entry l = list_del_between (l.prev entry) (l.next entry) l

unfoldable pub list_is_last : (list head : Ptr) → Links → Bool
list_is_last list head l = l.next list == head

unfoldable pub list_is_only : (link head : Ptr) → Links → Bool
list_is_only link head l = l.next link == head && l.prev link == head

unfoldable pub list_empty : Ptr → Links → Bool
list_empty head l = l.next head == head

unfoldable pub list_next : Ptr → Links → Ptr
unfolding list_empty
list_next current l = if list_empty current l then null else l.next current

unfoldable pub list_prev : Ptr → Links → Ptr
unfolding list_empty
list_prev current l = if list_empty current l then null else l.prev current
