-- ===== src/FreeIndex/Ring.antt =====
-- The ring of copies of simplekvsvr/KVIndex.h, and `EraseCache` in `Delete`.
use simple_kv_svr.Base.{
  ℕ, ◌<◌, Option, none, some, length, length-set, get_or, get_elem?-get_or, get_or-set_ne,
  set as set_elem, if◌then◌else◌, Bytes, Dict, lookup, erase, lookup-erase, key_eq_iff, ◌≡◌, ◌≢◌,
  refl, ◌∙◌, arith, Option-cases, inl, inr,
}
use simple_kv_svr.SlotIndex.{Entry, cache_size, is_live, uncache}
use simple_kv_svr.SlotIndex.Entries.{lookup-uncache, is_live-lookup}
use simple_kv_svr.FreeIndex.{KvIndex, erase_cache, drop_cached}

-- The copy at `c` is that of the element, and it is the value.
abbrev pub IsCopy : KvIndex → Option Bytes → Entry → ℕ → Type 0
IsCopy s value e c =
    (c < cache_size)
    × (get_or s.cache_element c none ≡ some e.node)
    × (get_or s.cache c none ≡ value)

-- Every element that has a copy has it in the ring.
pub record HasRing (s : KvIndex) (values : Bytes → Option Bytes) : Type 0 where
  pub elements : length s.cache_element ≡ cache_size
  pub strings : length s.cache ≡ cache_size
  pub copies :
      (k : Bytes) (e : Entry) (c : ℕ)
      → lookup k s.kv ≡ some e
      → e.cached ≡ some c
      → IsCopy s (values k) e c

abbrev pub slot_of : Dict Entry → Bytes → Option ℕ
slot_of kv k = elim (lookup k kv) [ none ↦ none | some e ↦ some e.slot ]

-- The file and the places of the values are the same.
pub record KeepsFile (s s' : KvIndex) : Type 0 where
  pub store : s'.store ≡ s.store
  pub mapped : s'.mapped ≡ s.mapped
  pub mem_list : s'.mem_list ≡ s.mem_list
  pub slots : (k : Bytes) → slot_of s'.kv k ≡ slot_of s.kv k

-- `EraseCache` through a live iterator.
abbrev pub cleared : ℕ → ℕ → KvIndex → KvIndex
cleared c p s = record s {
  cache = set_elem s.cache c none;
  kv = uncache p s.kv;
  cache_element = set_elem s.cache_element c none;
}

pub cleared-KeepsFile : (s : KvIndex) (c p : ℕ) → KeepsFile s (cleared c p s)
cleared-KeepsFile s c p = record {
  store = refl;
  mapped = refl;
  mem_list = refl;
  slots = λ k. ground (arith, lookup-uncache p k s.kv);
}

cleared-copies :
    (s : KvIndex) (values : Bytes → Option Bytes) (c p c' : ℕ) (k : Bytes) (e : Entry)
    → get_or s.cache_element c none ≡ some p
    → ((f : Entry) (i : ℕ) → lookup k s.kv ≡ some f → f.cached ≡ some i → IsCopy s (values k) f i)
    → lookup k (uncache p s.kv) ≡ some e
    → e.cached ≡ some c'
    → IsCopy (cleared c p s) (values k) e c'
cleared-copies s values c p c' k e own v h hc = elim (Option-cases (lookup k s.kv)) [
  | inl absent ↦ absurd (ground (arith, lookup-uncache p k s.kv))
  | inr (f, found) ↦ ground (
    arith,
    lookup-uncache p k s.kv,
    v f c' found,
    get_or-set_ne s.cache_element c c' none none,
    get_or-set_ne s.cache c c' none none,
  )
]

pub cleared-HasRing :
    (s : KvIndex) (values : Bytes → Option Bytes) (c p : ℕ)
    → get_or s.cache_element c none ≡ some p
    → HasRing s values
    → HasRing (cleared c p s) values
cleared-HasRing s values c p own v = record {
  elements = length-set s.cache_element c none ∙ v.elements;
  strings = length-set s.cache c none ∙ v.strings;
  copies = λ k e c' h hc. cleared-copies s values c p c' k e own (v.copies k) h hc;
}

-- `EraseCache` of an element of the map.
pub drop_cached-HasRing :
    (key : Bytes) (e : Entry) (s : KvIndex) (values : Bytes → Option Bytes)
    → HasRing s values
    → lookup key s.kv ≡ some e
    → (s' : KvIndex) × (drop_cached e.cached s ≡ some s') × HasRing s' values × KeepsFile s s'
unfolding erase_cache
drop_cached-HasRing key e s values v found = elim (Option-cases e.cached) [
  | inl bare ↦ (
    s,
    ground arith,
    v,
    record { store = refl; mapped = refl; mem_list = refl; slots = λ k. refl },
  )
  | inr (c, copied) ↦
      let own = v.copies key e c found copied in
      (
        cleared c e.node s,
        ground (
          arith,
          own,
          v.elements,
          get_elem?-get_or s.cache_element c none,
          is_live-lookup key s.kv e,
        ),
        cleared-HasRing s values c e.node own.1 v,
        cleared-KeepsFile s c e.node,
      )
]

-- Without a key.
pub erase-HasRing :
    (key : Bytes) (s : KvIndex) (values values' : Bytes → Option Bytes)
    → HasRing s values
    → ((k : Bytes) → key ≢ k → values' k ≡ values k)
    → HasRing (record s { kv = erase key s.kv }) values'
erase-HasRing key s values values' v same = record {
  elements = v.elements;
  strings = v.strings;
  copies = λ k e c h hc.
      ground (arith, lookup-erase key k s.kv, v.copies k e c, same k, key_eq_iff key k);
}

-- `EraseCache` at an index of the ring, by what is there.
pub erase_cache-free :
    (c : ℕ) (s : KvIndex)
    → c < length s.cache_element
    → get_or s.cache_element c none ≡ none
    → erase_cache c s ≡ some s
unfolding erase_cache
erase_cache-free c s h free = ground (arith, get_elem?-get_or s.cache_element c none)

pub erase_cache-own :
    (c p : ℕ) (s : KvIndex)
    → c < length s.cache_element
    → get_or s.cache_element c none ≡ some p
    → erase_cache c s ≡ (if is_live p s.kv then some (cleared c p s) else none)
unfolding erase_cache
erase_cache-own c p s h own = ground (arith, get_elem?-get_or s.cache_element c none)
