-- ===== src/SlotIndex/Cache.antt =====
-- `Get`, `Exist` and `GetStats` of simplekvsvr/NewKVIndex.h.
pub mod Reading
use simple_kv_svr.Base.{
  ℕ, ◌+◌, ◌-◌, ◌*◌, ◌%◌, Bool, true, false, Option, none, some, List, [], ◌∷◌, ◌++◌, length,
  get_elem?, set as set_elem, if◌then◌else◌, Bytes, lookup, assign, codes, decimal,
}
use simple_kv_svr.SlotIndex.{Slot, Entry, KvIndex, cache_size, touch, erase_cache, slot_at}

-- The value that `Get` returns, from the copy or from the slot, and the counts.
pub fetch_value : Entry → KvIndex → Option (Bytes × KvIndex)
fetch_value e s = elim e.cached [
  | some c ↦ elim (get_elem? s.cache c) [
    | none ↦ none
    | some copy ↦ some (copy.value, record s { hit = s.hit + 1; cache_hit = s.cache_hit + 1 })
  ]
  | none ↦ elim (slot_at s e.slot) [
    | none ↦ none
    | some slot ↦ some (slot.value, record s { hit = s.hit + 1 })
  ]
]

-- The index of the copy that `Get` makes: `(cache_index_ + 1) % CACHE_SIZE`.
abbrev pub turn : KvIndex → ℕ
turn s = s.cache_turn % cache_size

-- `cache_[j] = store_[kv_[key].second]; kv_[key].first = j; cache_element_[j] = kv_.find(key);`
pub keep_copy : Bytes → ℕ → KvIndex → Option KvIndex
keep_copy key j s =
    let (e, s₁) = touch key s in
    elim (slot_at s₁ e.slot) [
      | none ↦ none
      | some slot ↦ some (record s₁ {
        cache = set_elem s₁.cache j slot;
        kv = assign key (record e { cached = some j }) s₁.kv;
        cache_element = set_elem s₁.cache_element j (some e.node);
      })
    ]

-- `Get`
unfoldable pub get : Bytes → KvIndex → Option (Bytes × KvIndex)
unfolding fetch_value erase_cache keep_copy
get key s =
    let (e, s₁) = touch key s in
    elim (fetch_value e s₁) [
      | none ↦ none
      | some (value, s₂) ↦ elim (erase_cache (turn s₂) (record s₂ { cache_turn = turn s₂ + 1 })) [
        | none ↦ none
        | some s₃ ↦ elim (keep_copy key (turn s₂) s₃) [ none ↦ none | some s₄ ↦ some (value, s₄) ]
      ]
    ]

-- `Exist`
unfoldable pub exist : Bytes → KvIndex → Bool × KvIndex
exist key s =
    (elim (lookup key s.kv) [ none ↦ false | some _ ↦ true ], record s { request = s.request + 1 })

-- `GetStats`, with `sizeof` of an iterator and of a `DataNode` as arguments.
pub get_stats : ℕ → ℕ → KvIndex → Bytes
unfolding decimal
get_stats iterator_size node_size s =
    codes "count: "
    ++ (decimal (length s.kv)
        ++ (codes ", mem: "
            ++ (decimal (iterator_size * length s.kv)
                ++ (codes ", file: "
                    ++ (decimal (length s.store * node_size)
                        ++ (codes ", hits: "
                            ++ (decimal s.hit
                                ++ (codes ", misses: "
                                    ++ (decimal (s.request - s.hit)
                                        ++ (codes ", cache_hits: "
                                            ++ (decimal s.cache_hit
                                                ++ (codes ", cache_misses: "
                                                    ++ decimal (s.hit - s.cache_hit)))))))))))))
