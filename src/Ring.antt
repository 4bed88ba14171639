-- ===== src/Ring.antt =====
-- Circular doubly linked lists: the `next` and `prev` fields of a table of nodes, and the two groups
-- of assignments by which kernel/message.c, kernel/process/util.c and kernel/pm.c link and unlink.
use yinyang_os.Base.{ℕ, Option, none, some, ◌==◌, if◌then◌else◌, update}
pub mod Linked
pub mod Queue

-- The fields `next` and `prev`, by the index of the node.
pub record Links : Type 0 where
  pub next : ℕ → ℕ
  pub prev : ℕ → ℕ

-- `n->prev = h->prev; n->next = h; h->prev->next = n; h->prev = n`
unfoldable pub link_before : Links → ℕ → ℕ → Links
link_before l h n =
    let named = record l { prev = update l.prev n (l.prev h); next = update l.next n h } in
    let behind = record named { next = update named.next (named.prev h) n } in
    record behind { prev = update behind.prev h n }

-- `p->next->prev = p->prev; p->prev->next = p->next`
unfoldable pub unlink : Links → ℕ → Links
unlink l p =
    let back = record l { prev = update l.prev (l.next p) (l.prev p) } in
    record back { next = update back.next (back.prev p) (back.next p) }

-- `h->prev = h; h->next = h`
unfoldable pub link_self : Links → ℕ → Links
link_self l h = record { next = update l.next h h; prev = update l.prev h h }

-- A queue in a ring: the links and the pointer to the oldest node. `enqueue` is the branch on
-- `Msg_rec == NULL` of `send`, and `dequeue` the one on a ring of one node in `receive`.
unfoldable pub enqueue : Links → Option ℕ → ℕ → Links × Option ℕ
unfolding link_before link_self
enqueue l none n = (link_self l n, some n)
enqueue l (some h) n = (link_before l h n, some h)

unfoldable pub dequeue : Links → ℕ → Links × Option ℕ
unfolding unlink
dequeue l h =
    if l.next h == h then (l, none) else (let rest = unlink l h in (rest, some (rest.next h)))
