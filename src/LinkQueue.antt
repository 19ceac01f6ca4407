-- ===== src/LinkQueue.antt =====
-- include/librf/src/intrusive_link_queue.h: `intrusive_link_queue<_Node, _Nodeptr>`. The links live in
-- the nodes, so the queue carries the store of links that its operations write. The file defines
-- `_WITH_LOCK_FREE_Q_KEEP_REAL_SIZE`, so the count is kept in `_count`.
pub mod Chain
pub mod Unlink
pub mod Refine
pub mod Deque
mod Tests
use librf.Prelude.{ℕ, ◌+◌, ◌-◌, ◌%◌, Bool, if◌then◌else◌, ◌==◌, size_mod}

-- A node's address; `null` is `nullptr`.
abbrev pub Ptr : Type 0
Ptr = ℕ

abbrev pub null : Ptr
null = 0

-- `intrusive_link_node`.
pub record Node : Type 0 where
  pub prev : Ptr
  pub next : Ptr

abbrev pub Links : Type 0
Links = Ptr → Node

pub record LinkQueue : Type 0 where
  pub count : ℕ
  pub header : Ptr
  pub tailer : Ptr
  pub links : Links

-- `p->_prev = v` and `p->_next = v`.
abbrev pub set_prev : Links → Ptr → Ptr → Links
set_prev l p v a = if p == a then record { prev = v; next = (l p).next } else l a

abbrev pub set_next : Links → Ptr → Ptr → Links
set_next l p v a = if p == a then record { prev = (l p).prev; next = v } else l a

-- `_count.fetch_add(1)` and `_count.fetch_sub(1)`.
abbrev pub count_up : ℕ → ℕ
count_up n = (n + 1) % size_mod

abbrev pub count_down : ℕ → ℕ
count_down n = (n + size_mod - 1) % size_mod

-- The nodes' links before they are used are those of the store that is given.
unfoldable pub empty_queue : Links → LinkQueue
empty_queue l = record { count = 0; header = null; tailer = null; links = l }

unfoldable pub size : LinkQueue → ℕ
size q = q.count

unfoldable pub empty : LinkQueue → Bool
empty q = q.header == null

unfoldable pub push_back : LinkQueue → Ptr → LinkQueue
push_back q e =
    let l1 = set_prev q.links e q.tailer in
    let l2 = set_next l1 e null in
    record {
      header = if q.header == null then e else q.header;
      links = if q.tailer == null then l2 else set_next l2 q.tailer e;
      tailer = e;
      count = count_up q.count;
    }

unfoldable pub push_front : LinkQueue → Ptr → LinkQueue
push_front q e =
    let l1 = set_prev q.links e null in
    let l2 = set_next l1 e q.header in
    record {
      links = if q.header == null then l2 else set_prev l2 q.header e;
      header = e;
      tailer = if q.tailer == null then e else q.tailer;
      count = count_up q.count;
    }

unfoldable pub erase : LinkQueue → Ptr → LinkQueue
erase q e =
    let l = q.links in
    let l1 = if (l e).next == null then l else set_prev l (l e).next (l e).prev in
    let l2 = if (l1 e).prev == null then l1 else set_next l1 (l1 e).prev (l1 e).next in
    record {
      header = if q.header == e then (l e).next else q.header;
      tailer = if q.tailer == e then (l e).prev else q.tailer;
      links = set_next (set_prev l2 e null) e null;
      count = count_down q.count;
    }

-- The node that is taken out, or `null`.
unfoldable pub try_pop : LinkQueue → Ptr × LinkQueue
try_pop q =
    let node = q.header in
    let header = (q.links node).next in
    let l1 = if header == null then q.links else set_prev q.links header null in
    if node == null then (null, q) else (
      node,
      record {
        header = header;
        tailer = if q.tailer == node then null else q.tailer;
        links = set_next (set_prev l1 node null) node null;
        count = count_down q.count;
      },
    )
