-- ===== src/FreeIndex/Cache.antt =====
-- `Get`, `Exist` and `GetStats` of simplekvsvr/KVIndex.h.
pub mod Reading
use simple_kv_svr.Base.{
  ℕ, ◌+◌, ◌-◌, ◌%◌, Bool, true, false, Option, none, some, List, ◌++◌, length, get_elem?,
  set as set_elem, drop, if◌then◌else◌, Bytes, lookup, assign, codes, decimal,
}
use simple_kv_svr.SlotIndex.{Entry, cache_size, c_string}
use simple_kv_svr.FreeIndex.{KvIndex, string_len, erase_cache}

-- `kv_[key]`: a key that is not there gets an element of zeros.
abbrev pub touch : Bytes → KvIndex → Entry × KvIndex
touch key s = elim (lookup key s.kv) [
  | some e ↦ (e, s)
  | none ↦
      let e : Entry = record { node = s.next_node; cached = some 0; slot = 0 } in
      (e, record s { kv = assign key e s.kv; next_node = s.next_node + 1 })
]

-- The string at a place of the file; `none` where it does not end in the file.
abbrev pub string_at : ℕ → KvIndex → Option Bytes
string_at at s =
    if s.mapped
    then elim (string_len (drop at s.store)) [
      | none ↦ none
      | some n ↦ some (c_string (drop at s.store))
    ]
    else none

-- `c_value`, and the counts.
unfoldable pub fetch_value : Entry → KvIndex → Option (Bytes × KvIndex)
unfolding string_len c_string
fetch_value e s = elim e.cached [
  | some c ↦ elim (get_elem? s.cache c) [
    | some (some text) ↦ some (text, record s { hit = s.hit + 1; cache_hit = s.cache_hit + 1 })
    | _ ↦ none
  ]
  | none ↦ elim (string_at e.slot s) [
    | none ↦ none
    | some text ↦ some (text, record s { hit = s.hit + 1 })
  ]
]

-- `(cache_index_ + 1) % CACHE_SIZE`
abbrev pub turn : KvIndex → ℕ
turn s = s.cache_turn % cache_size

-- The new copy of the string at the index `j` of the ring.
unfoldable pub keep_copy : Bytes → ℕ → Bytes → KvIndex → KvIndex
keep_copy key j text s =
    let (e, s₁) = touch key s in
    record s₁ {
      cache = set_elem s₁.cache j (some text);
      kv = assign key (record e { cached = some j }) s₁.kv;
      cache_element = set_elem s₁.cache_element j (some e.node);
    }

-- `Get`
unfoldable pub get : Bytes → KvIndex → Option (Bytes × KvIndex)
unfolding fetch_value erase_cache keep_copy
get key s =
    let (e, s₁) = touch key s in
    elim (fetch_value e s₁) [
      | none ↦ none
      | some (text, s₂) ↦ elim (erase_cache (turn s₂) (record s₂ { cache_turn = turn s₂ + 1 })) [
        | none ↦ none
        | some s₃ ↦ some (text, keep_copy key (turn s₂) text s₃)
      ]
    ]

-- `Exist`
unfoldable pub exist : Bytes → KvIndex → Bool × KvIndex
exist key s =
    (elim (lookup key s.kv) [ none ↦ false | some _ ↦ true ], record s { request = s.request + 1 })

-- `GetStats`, with the length of the file "key".
unfoldable pub get_stats : ℕ → KvIndex → Bytes
unfolding decimal
get_stats key_file s =
    codes "count: "
    ++ (decimal (length s.kv)
        ++ (codes ", mem: "
            ++ (decimal (length s.store)
                ++ (codes ", file: "
                    ++ (decimal key_file
                        ++ (codes ", hits: "
                            ++ (decimal s.hit
                                ++ (codes ", misses: "
                                    ++ (decimal (s.request - s.hit)
                                        ++ (codes ", cache_hits: "
                                            ++ (decimal s.cache_hit
                                                ++ (codes ", cache_misses: "
                                                    ++ decimal (s.hit - s.cache_hit)))))))))))))
