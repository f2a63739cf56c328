-- ===== src/Ring.antt =====
-- The doubly linked list (pkg/list/doubly_linked.go): a ring of elements through a root. Elements
-- are addresses, the root is 0, and the fields of all elements are functions of the address. The
-- pool hands out a fresh element each time, since nothing calls FreeElement. An element is known
-- outside by the list that made it and its address, so the test `e.list != l` compares the lists.
-- `len` is an int64, held as its bit pattern. An operation runs under the list's lock.
pub mod Seg
pub mod Insert
pub mod Delete
pub mod PushBack
pub mod Refine
pub mod Members
pub mod Sort
use adv_cache.Prelude.{
  ℕ, zero, suc, ◌+◌, Bool, true, false, ◌&&◌, ◌||◌, not, Option, none, some, ltb, ◌==◌,
  if◌then◌else◌, update,
}
use adv_cache.Prelude.Words.{add64, sub64, lt64}
use adv_cache.Model.Entry.{Pointer}

-- `value` gives the entry, or the shard, that an element carries.
pub record Ring : Type 0 where
  pub name : ℕ
  pub next : ℕ → ℕ
  pub prev : ℕ → ℕ
  pub value : ℕ → ℕ
  pub len : ℕ
  pub fresh : ℕ

-- New: root.next, root.prev = root, root
unfoldable pub new_ring : ℕ → Ring
new_ring name = record {
  name = name;
  next = λ _. 0;
  prev = λ _. 0;
  value = λ _. 0;
  len = 0;
  fresh = 1;
}

-- e.prev = at; e.next = at.next; at.next.prev = e; at.next = e, for the root as `at`
unfoldable pub insert_front : ℕ → Ring → Ring
insert_front e l =
    let next1 = update l.next e (l.next 0) in
    let prev1 = update l.prev e 0 in
    record l { next = update next1 0 e; prev = update prev1 (next1 0) e }

unfoldable pub push_front : ℕ → Ring → Ring × Pointer
push_front v l =
    let t =
      insert_front l.fresh (record l { value = update l.value l.fresh v; fresh = l.fresh + 1 }) in
    (record t { len = add64 l.len 1 }, record { list = l.name; address = l.fresh })

-- at = l.root.prev; e.prev = at; e.next = l.root; at.next = e; l.root.prev = e
unfoldable pub push_back : ℕ → Ring → Ring × Pointer
push_back v l =
    let e = l.fresh in
    let at = l.prev 0 in
    (
      record l {
        next = update (update l.next e 0) at e;
        prev = update (update l.prev e at) 0 e;
        value = update l.value e v;
        len = add64 l.len 1;
        fresh = l.fresh + 1;
      },
      record { list = l.name; address = e },
    )

-- The address of the last element.
unfoldable pub back : Ring → Option ℕ
back l = if l.len == 0 then none else some (l.prev 0)

-- e.prev.next = e.next; e.next.prev = e.prev
unfoldable pub unlink : ℕ → Ring → Ring
unlink e l =
    let next1 = update l.next (l.prev e) (l.next e) in
    record l { next = next1; prev = update l.prev (next1 e) (l.prev e) }

unfoldable pub remove : Option Pointer → Ring → Ring
remove none l = l
remove (some e) l =
    if not (e.list == l.name) then l else record (unlink e.address l) { len = sub64 l.len 1 }

unfoldable pub move_to_front : Option Pointer → Ring → Ring
move_to_front none l = l
move_to_front (some e) l =
    if not (e.list == l.name) || lt64 l.len 2
    then l
    else insert_front e.address (unlink e.address l)

-- `for i := 0; i < offset; i++ { e = e.next }`
unfoldable pub walk : (ℕ → ℕ) → ℕ → ℕ → ℕ
walk next zero e = e
walk next (suc n) e = walk next n (next e)

-- Next, at an offset that is no negative number.
unfoldable pub nth : ℕ → Ring → Option ℕ
nth offset l = if not (lt64 offset l.len) then none else some (walk l.next offset (l.next 0))
