-- ===== src/FreeIndex.antt =====
-- simplekvsvr/KVIndex.h: the index of the first server that keeps values of any length in a file of bytes,
-- with a list of the free parts of the file. Every method holds the recursive mutex throughout, so each is
-- one step. A result `none` is undefined behaviour: memory that is not mapped, a place outside the file, or
-- an iterator to an erased element.
pub mod Blocks
pub mod Filling
pub mod Releasing
pub mod Growing
pub mod Ring
pub mod Holds
pub mod Rounds
pub mod Inserting
pub mod Cache
pub mod Disk
pub mod Calls
pub mod Session
pub mod Space
mod Tests
use simple_kv_svr.Base.{
  ℕ, zero, suc, ◌+◌, ◌-◌, ◌*◌, Bool, true, false, not, ◌&&◌, ◌||◌, Option, none, some, List, [],
  ◌∷◌, ◌++◌, length, get_elem?, set as set_elem, take, drop, replicate, ltb, ◌==◌, if◌then◌else◌,
  Bytes, Dict, lookup, assign, erase,
}
use simple_kv_svr.SlotIndex.{Entry, is_live, uncache, c_string}

-- An element of `mem_list_`: the first and the last place of a free part of the file
pub record Extent : Type 0 where
  pub head : ℕ
  pub tail : ℕ

-- `class KVIndex`. `file_size_` is the length of `store`; in an `Entry`, `slot` is the offset of the
-- value; `cache_turn` is `cache_index_ + 1`; an element of `cache` is the string that the pointer leads to, or
-- `none` where it leads to none.
pub record KvIndex : Type 0 where
  pub kv : Dict Entry
  pub store : Bytes
  pub mapped : Bool
  pub mem_list : List Extent
  pub cache_turn : ℕ
  pub request : ℕ
  pub hit : ℕ
  pub cache_hit : ℕ
  pub cache : List (Option Bytes)
  pub cache_element : List (Option ℕ)
  pub next_node : ℕ

-- `mem_list_` for a file of `n` bytes that has become twice as long.
unfoldable pub grow : ℕ → List Extent → List Extent
grow n [] = record { head = n; tail = n * 2 - 1 } ∷ []
grow n (e ∷ []) =
    if e.tail + 1 == n
    then record e { tail = n * 2 - 1 } ∷ []
    else e ∷ record { head = n; tail = n * 2 - 1 } ∷ []
grow n (e ∷ f ∷ rest) = e ∷ grow n (f ∷ rest)

-- `Resize`, with whether `ftruncate` and `mmap` succeed: the old mapping is gone in any case.
unfoldable pub resize : Bool → KvIndex → Bool × KvIndex
unfolding grow
resize works s =
    if works
    then (
      true,
      record s {
        store = s.store ++ replicate (length s.store) 0;
        mapped = true;
        mem_list = grow (length s.store) s.mem_list;
      },
    )
    else (false, record s { mapped = false })

-- The loop of `Insert` over `mem_list_`: the place of the first free part with room for `len` bytes, and
-- the list without these bytes.
unfoldable pub take_room : ℕ → List Extent → Option (ℕ × List Extent)
take_room len [] = none
take_room len (e ∷ extents) =
    let later = take_room len extents in
    let room = e.tail + 1 - e.head in
    if ltb room len
    then elim later [ none ↦ none | some (at, rest) ↦ some (at, e ∷ rest) ]
    else some (e.head, if room == len then extents else record e { head = e.head + len } ∷ extents)

-- Bytes written over those from `at` on.
abbrev pub write_at : ℕ → Bytes → Bytes → Bytes
write_at at bytes store = take at store ++ (bytes ++ drop (at + length bytes) store)

-- `strcpy(store_ + at, value.c_str())`
unfoldable pub put_string : ℕ → Bytes → KvIndex → Option KvIndex
unfolding c_string
put_string at value s =
    let bytes = c_string value ++ (0 ∷ []) in
    if s.mapped && not (ltb (length s.store) (at + length bytes))
    then some (record s { store = write_at at bytes s.store })
    else none

-- `kv_[key] = make_pair(-1, at)`
abbrev pub point_to : Bytes → ℕ → KvIndex → KvIndex
point_to key at s = elim (lookup key s.kv) [
  | some e ↦ record s { kv = assign key (record e { cached = none; slot = at }) s.kv }
  | none ↦ record s {
    kv = assign key (record { node = s.next_node; cached = none; slot = at }) s.kv;
    next_node = s.next_node + 1;
  }
]

-- A round of the loop of `Insert` without its `Resize`, and `find`.
unfoldable pub insert_round : Bytes → Bytes → KvIndex → Option (Bool × KvIndex)
unfolding take_room put_string
insert_round key value s = elim (take_room (length value + 1) s.mem_list) [
  | none ↦ some (false, s)
  | some (at, rest) ↦ elim (put_string at value (point_to key at s)) [
    | none ↦ none
    | some s' ↦ some (true, record s' { mem_list = rest })
  ]
]

-- What a call does: its behaviour is undefined, it still loops after the rounds, or it returns: `true`
-- for 0, `false` for -1.
pub data Outcome : Type 0 where
  undefined looping : Outcome
  returned : Bool → KvIndex → Outcome

-- `Insert`, for so many rounds, with whether the system calls succeed for a file of some size.
unfoldable pub insert : ℕ → (ℕ → Bool) → Bytes → Bytes → KvIndex → Outcome
unfolding insert_round resize
insert zero works key value s = Outcome.looping
insert (suc rounds) works key value s = elim (insert_round key value s) [
  | none ↦ Outcome.undefined
  | some (found, s₁) ↦
      let (grown, s₂) = resize (works (length s₁.store)) s₁ in
      let again = insert rounds works key value s₂ in
      if found then Outcome.returned true s₁ else if grown then again else Outcome.returned false s₂
]

-- The loop of `Delete` over `mem_list_`: the elements before the place of the new one, and the others.
unfoldable pub split_at : ℕ → List Extent → List Extent × List Extent
split_at tail [] = ([], [])
split_at tail (e ∷ extents) =
    let (before, after) = split_at tail extents in
    if ltb tail e.head then ([], e ∷ extents) else (e ∷ before, after)

-- `if (p->first == pre->second + 1)`: the elements before `p`, and `p`.
unfoldable pub join_before : List Extent → Extent → List Extent × Extent
join_before [] p = ([], p)
join_before (e ∷ []) p =
    if p.head == e.tail + 1 then ([], record p { head = e.head }) else (e ∷ [], p)
join_before (e ∷ f ∷ before) p = let (rest, p') = join_before (f ∷ before) p in (e ∷ rest, p')

-- `if (p->second + 1 == nxt->first)`: `p` and the elements behind it.
unfoldable pub join_after : Extent → List Extent → List Extent
join_after p [] = p ∷ []
join_after p (e ∷ after) =
    if p.tail + 1 == e.head then record p { tail = e.tail } ∷ after else p ∷ e ∷ after

-- `mem_list_` with what `Delete` frees.
unfoldable pub add_free : Extent → List Extent → List Extent
unfolding split_at join_before join_after
add_free p extents =
    let (before, after) = split_at p.tail extents in
    let (before', p') = join_before before p in before' ++ join_after p' after

-- `strlen`; `none` where no 0 comes before the end of the file.
unfoldable pub string_len : Bytes → Option ℕ
string_len [] = none
string_len (c ∷ bytes) =
    let more = string_len bytes in
    if c == 0 then some 0 else elim more [ none ↦ none | some n ↦ some (n + 1) ]

-- `strlen(store_ + at)`
abbrev pub len_at : ℕ → KvIndex → Option ℕ
len_at at s = if s.mapped then string_len (drop at s.store) else none

-- `EraseCache`; its `delete` of what `new[]` made is taken for a `delete[]`.
unfoldable pub erase_cache : ℕ → KvIndex → Option KvIndex
unfolding is_live uncache
erase_cache c s = elim (get_elem? s.cache_element c) [
  | none ↦ none
  | some none ↦ some s
  | some (some p) ↦
      if is_live p s.kv
      then some (record s {
        cache = set_elem s.cache c none;
        kv = uncache p s.kv;
        cache_element = set_elem s.cache_element c none;
      })
      else none
]

-- `if (kv_[key].first != -1) EraseCache(kv_[key].first);`
abbrev pub drop_cached : Option ℕ → KvIndex → Option KvIndex
drop_cached none s = some s
drop_cached (some c) s = erase_cache c s

-- `mem_list_` and the bytes after `Delete` of the value of `n` bytes at `at`.
abbrev pub give_back : ℕ → ℕ → KvIndex → KvIndex
give_back at n s = record s {
  mem_list = add_free (record { head = at; tail = at + n }) s.mem_list;
  store = write_at at (replicate n 0) s.store;
}

-- `Delete`: `true` for 0, `false` for -1
unfoldable pub delete : Bytes → KvIndex → Option (Bool × KvIndex)
unfolding add_free string_len erase_cache
delete key s = elim (lookup key s.kv) [
  | none ↦ some (false, s)
  | some e ↦ elim (len_at e.slot s) [
    | none ↦ none
    | some n ↦ elim (drop_cached e.cached (give_back e.slot n s)) [
      | none ↦ none
      | some s' ↦ some (true, record s' { kv = erase key s'.kv })
    ]
  ]
]

-- `if (kv_.find(key) != kv_.end()) Delete(key);`
abbrev pub delete_old : Bytes → KvIndex → Option KvIndex
delete_old key s = elim (lookup key s.kv) [
  | none ↦ some s
  | some _ ↦ elim (delete key s) [ none ↦ none | some (done, s') ↦ some s' ]
]

-- `Set`
unfoldable pub set : ℕ → (ℕ → Bool) → Bytes → Bytes → KvIndex → Outcome
unfolding delete insert
set rounds works key value s = elim (delete_old key s) [
  | none ↦ Outcome.undefined
  | some s' ↦ insert rounds works key value s'
]
