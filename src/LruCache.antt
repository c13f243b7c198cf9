-- ===== src/LruCache.antt =====
-- simplekvsvr_v2/cache.h and linkedlist.h: a cache of tasks, as a doubly linked list in the order of
-- their use, with a map from keys to its nodes. `none` is undefined behaviour: a null pointer or a
-- pointer to a deleted node that is used.
pub mod Recent
pub mod Links
pub mod Front
pub mod Sequence
pub mod Holds
pub mod Adding
pub mod Session
mod Tests
use simple_kv_svr.Base.{
  ℕ, zero, suc, ◌+◌, ◌-◌, Bool, true, false, Option, none, some, ltb, ◌==◌, if◌then◌else◌, take,
  List, [], Bytes, Dict, lookup, assign, erase,
}
use simple_kv_svr.Store.{Task}

-- MAXCACHED
abbrev pub max_cached : ℕ
max_cached = 128

-- A copy of a task: its `key` and `value` are pointers, which lead into the buffers of the object number `buf`, the
-- task that was copied, and `task` has what stands there.
pub record CachedTask : Type 0 where
  pub task : Task
  pub buf : ℕ

-- `LinkedList<Task>`: an address, or `none` for NULL
pub record LruNode : Type 0 where
  pub content : CachedTask
  pub next : Option ℕ
  pub prev : Option ℕ

-- The objects by their addresses; `none` is no object.
abbrev pub Heap : Type 0
Heap = ℕ → Option LruNode

-- The address of `lruHead`
abbrev pub lru_head : ℕ
lru_head = 0

abbrev pub override : ℕ → Option LruNode → Heap → Heap
override p n h q = if q == p then n else h q

-- An assignment to a member of `*p`
unfoldable pub write : ℕ → (LruNode → LruNode) → Heap → Option Heap
write p change h = elim (h p) [ none ↦ none | some n ↦ some (override p (some (change n)) h) ]

-- `if (p != NULL) p->... = ...;`
unfoldable pub write_through : Option ℕ → (LruNode → LruNode) → Heap → Option Heap
unfolding write
write_through none change h = some h
write_through (some p) change h = write p change h

abbrev pub set_next : Option ℕ → LruNode → LruNode
set_next q n = record n { next = q }

abbrev pub set_prev : Option ℕ → LruNode → LruNode
set_prev q n = record n { prev = q }

-- The constructor of a node.
abbrev pub new_node : CachedTask → LruNode
new_node task = record { content = task; next = none; prev = none }

-- The second half of `unlink`.
unfoldable pub unlink_next : ℕ → Heap → Option Heap
unfolding write write_through
unlink_next p h = elim (h p) [
  | none ↦ none
  | some this ↦ elim (write_through this.next (set_prev this.prev) h) [
    | none ↦ none
    | some h₁ ↦ write p (λ n. set_next none (set_prev none n)) h₁
  ]
]

-- `unlink`
unfoldable pub unlink : ℕ → Heap → Option Heap
unfolding write_through unlink_next
unlink p h = elim (h p) [
  | none ↦ none
  | some this ↦ elim (write_through this.prev (set_next this.next) h) [
    | none ↦ none
    | some h₁ ↦ unlink_next p h₁
  ]
]

-- `class Cache`; `next_node` is the address that `new` gives next, and `gone` tells which tasks, of those that were
-- copied, have been deleted.
pub record Cache : Type 0 where
  pub index : Dict ℕ
  pub nodes : Heap
  pub tail : Option ℕ
  pub total_cached : ℕ
  pub next_node : ℕ
  pub gone : ℕ → Bool

-- The constructor; `head` is what the default constructor of `Task` makes.
abbrev pub create : (ℕ → Bool) → CachedTask → Cache
create gone head = record {
  index = [];
  nodes = override lru_head (some (new_node head)) (λ q. none);
  tail = some lru_head;
  total_cached = 0;
  next_node = 1;
  gone = gone;
}

-- `string(task->key, task->keyLen)`
abbrev pub key_of : CachedTask → Bytes
key_of c = take c.task.key_len c.task.key

-- `p == q` for a pointer and the address of an object
abbrev pub points_to : Option ℕ → ℕ → Bool
points_to none q = false
points_to (some p) q = p == q

-- The first two assignments of `addToHead`.
unfoldable pub link_node : ℕ → Heap → Option Heap
unfolding write
link_node node h = elim (h lru_head) [
  | none ↦ none
  | some head ↦ elim (write node (set_next head.next) h) [
    | none ↦ none
    | some h₁ ↦ write node (set_prev (some lru_head)) h₁
  ]
]

-- The others on nodes.
unfoldable pub link_back : ℕ → Heap → Option Heap
unfolding write write_through
link_back node h = elim (h node) [
  | none ↦ none
  | some this ↦ elim (write_through this.next (set_prev (some node)) h) [
    | none ↦ none
    | some h₁ ↦ write lru_head (set_next (some node)) h₁
  ]
]

-- `addToHead`
unfoldable pub add_to_head : ℕ → Cache → Option Cache
unfolding link_node link_back
add_to_head node s = elim (link_node node s.nodes) [
  | none ↦ none
  | some h₁ ↦ elim (link_back node h₁) [
    | none ↦ none
    | some h₂ ↦
        some
          (record s { nodes = h₂; tail = if points_to s.tail lru_head then some node else s.tail })
  ]
]

-- `tail = tail->prev`
unfoldable pub step_back : Cache → Option Cache
step_back s = elim s.tail [
  | none ↦ none
  | some t ↦ elim (s.nodes t) [ none ↦ none | some n ↦ some (record s { tail = n.prev }) ]
]

-- `if (node == tail) tail = tail->prev;`, then `node->unlink()`
unfoldable pub take_out : ℕ → Cache → Option Cache
unfolding step_back unlink
take_out node s = elim (if points_to s.tail node then step_back s else some s) [
  | none ↦ none
  | some s₁ ↦ elim (unlink node s₁.nodes) [ none ↦ none | some h ↦ some (record s₁ { nodes = h }) ]
]

-- `delete node`
abbrev pub free : ℕ → Cache → Cache
free node s = record s { nodes = override node none s.nodes }

-- `index.erase(it)` of what `find` finds, with the content of a node
abbrev pub drop_index : Bytes → Cache → Cache
drop_index key s = record s { index = erase key s.index }

-- The end of `removeTail`, for the old tail, whose key is read in the buffer of the task that was copied.
unfoldable pub remove_node : ℕ → Cache → Option Cache
unfolding unlink
remove_node tmp s = elim (s.nodes tmp) [
  | none ↦ none
  | some n ↦ if s.gone n.content.buf then none else elim (unlink tmp s.nodes) [
    | none ↦ none
    | some h ↦ some (free tmp (record (drop_index (key_of n.content) s) { nodes = h }))
  ]
]

-- `removeTail`
unfoldable pub remove_tail : Cache → Option Cache
unfolding step_back remove_node
remove_tail s = elim s.tail [
  | none ↦ none
  | some tmp ↦ elim (step_back s) [ none ↦ none | some s₁ ↦ remove_node tmp s₁ ]
]

-- `getCache`: the task of the node, `none` for NULL
unfoldable pub get_cache : Bytes → Cache → Option (Option CachedTask × Cache)
unfolding take_out add_to_head
get_cache key s = elim (lookup key s.index) [
  | none ↦ some (none, s)
  | some node ↦ elim (take_out node s) [
    | none ↦ none
    | some s₁ ↦ elim (add_to_head node s₁) [
      | none ↦ none
      | some s₂ ↦ elim (s₂.nodes node) [ none ↦ none | some n ↦ some (some n.content, s₂) ]
    ]
  ]
]

-- `new LruNode(*task)`, and the index of it; the copy shares the buffers of the task
abbrev pub allocate : CachedTask → Cache → Cache
allocate task s = record s {
  nodes = override s.next_node (some (new_node task)) s.nodes;
  next_node = s.next_node + 1;
  index = assign (key_of task) s.next_node s.index;
}

-- The end of `addToCache`
unfoldable pub evict : Cache → Option Cache
unfolding remove_tail
evict s =
    if ltb max_cached s.total_cached
    then elim (remove_tail s) [
      | none ↦ none
      | some s₁ ↦ some (record s₁ { total_cached = s₁.total_cached - 1 })
    ]
    else some s

-- `addToCache`
unfoldable pub add_to_cache : CachedTask → Cache → Option Cache
unfolding add_to_head evict
add_to_cache task s = elim (add_to_head s.next_node (allocate task s)) [
  | none ↦ none
  | some s₁ ↦ evict (record s₁ { total_cached = s₁.total_cached + 1 })
]

-- `deleteCache`
unfoldable pub delete_cache : Bytes → Cache → Option Cache
unfolding take_out
delete_cache key s = elim (lookup key s.index) [
  | none ↦ some s
  | some node ↦ elim (take_out node s) [
    | none ↦ none
    | some s₁ ↦ some (drop_index key (record (free node s₁) { total_cached = s₁.total_cached - 1 }))
  ]
]
