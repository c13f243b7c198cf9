-- ===== src/SlotIndex/Cache/Reading.antt =====
-- `Get` of simplekvsvr/NewKVIndex.h, and the ring of copies.
use simple_kv_svr.Base.{
  ℕ, ◌+◌, ◌<◌, true, false, none, some, get_or, set as set_elem, Bytes, Dict, lookup, assign,
  key_eq, key_eq_iff, lookup-assign, ◌≡◌, ◌≢◌, refl, ◌∙◌, arith, Option-cases, Bool-cases,
  length-set, get_elem?-get_or, get_or-set_self, get_or-set_ne, inl, inr, ◌⊎◌,
}
use simple_kv_svr.SlotIndex.{Entry, KvIndex, cache_size, zero_slot, is_live, uncache}
use simple_kv_svr.SlotIndex.Cache.{fetch_value, turn, keep_copy, get, exist}
use simple_kv_svr.SlotIndex.Entries.{without_copy, lookup-uncache}
use simple_kv_svr.SlotIndex.Durable.{slot_of}
use simple_kv_svr.SlotIndex.Holds.{
  slot_value, IsEntry, Holds, Holds-counts, cleared, erase_cache-Holds,
}

-- The counts after the value has been read.
abbrev pub counted : Entry → KvIndex → KvIndex
counted e s = record s {
  hit = s.hit + 1;
  cache_hit = elim e.cached [ none ↦ s.cache_hit | some c ↦ s.cache_hit + 1 ];
}

fetch_value-counted :
    (key : Bytes) (e : Entry) (s : KvIndex) (d : Dict Bytes)
    → lookup key s.kv ≡ some e
    → Holds s d
    → fetch_value e s ≡ some (slot_value s.store e.slot, counted e s)
unfolding fetch_value
fetch_value-counted key e s d found v = elim (Option-cases e.cached) [
  | inl bare ↦
      ground
        (arith, v.entries key e found, v.mapped, v.fits, get_elem?-get_or s.store e.slot zero_slot)
  | inr (c, copied) ↦
      ground
        (arith, (v.entries key e found).1 c copied, v.copies, get_elem?-get_or s.cache c zero_slot)
]

-- The new copy, at `j`.
abbrev pub kept : Bytes → ℕ → Entry → KvIndex → KvIndex
kept key j e s = record s {
  cache = set_elem s.cache j (get_or s.store e.slot zero_slot);
  kv = assign key (record e { cached = some j }) s.kv;
  cache_element = set_elem s.cache_element j (some e.node);
}

keep_copy-kept :
    (key : Bytes) (j : ℕ) (e : Entry) (s : KvIndex) (d : Dict Bytes)
    → lookup key s.kv ≡ some e
    → Holds s d
    → keep_copy key j s ≡ some (kept key j e s)
unfolding keep_copy
keep_copy-kept key j e s d found v =
    ground
      (arith, v.entries key e found, v.mapped, v.fits, get_elem?-get_or s.store e.slot zero_slot)

kept-IsEntry :
    (key k : Bytes) (j : ℕ) (e f : Entry) (s : KvIndex) (d : Dict Bytes)
    → lookup key s.kv ≡ some e
    → get_or s.cache_element j none ≡ none
    → j < cache_size
    → Holds s d
    → lookup k (assign key (record e { cached = some j }) s.kv) ≡ some f
    → IsEntry (kept key j e s) f
kept-IsEntry key k j e f s d found free h v look =
    let at = lookup-assign key k (record e { cached = some j }) s.kv in
    elim (Bool-cases (key_eq key k)) [
      | inl same ↦ (
        ground (arith, at, v.entries key e found),
        λ c hc. ground (
          arith,
          at,
          v.copies,
          v.elements,
          get_or-set_self s.cache j (get_or s.store e.slot zero_slot) zero_slot,
          get_or-set_self s.cache_element j (some e.node) none,
        ),
      )
      | inr other ↦ (
        ground (arith, at, v.entries k f),
        λ c hc. ground (
          arith,
          at,
          (v.entries k f (ground (arith, at))).1 c hc,
          get_or-set_ne s.cache j c (get_or s.store e.slot zero_slot) zero_slot,
          get_or-set_ne s.cache_element j c (some e.node) none,
        ),
      )
    ]

kept-Holds :
    (key : Bytes) (j : ℕ) (e : Entry) (s : KvIndex) (d : Dict Bytes)
    → lookup key s.kv ≡ some e
    → get_or s.cache_element j none ≡ none
    → j < cache_size
    → Holds s d
    → Holds (kept key j e s) d
kept-Holds key j e s d found free h v = record {
  mapped = v.mapped;
  fits = v.fits;
  positive = v.positive;
  copies = length-set s.cache j (get_or s.store e.slot zero_slot) ∙ v.copies;
  elements = length-set s.cache_element j (some e.node) ∙ v.elements;
  entries = λ k f look. kept-IsEntry key k j e f s d found free h v look;
  agrees = λ k. ground (
    arith,
    v.agrees k,
    key_eq_iff key k,
    lookup-assign key k (record e { cached = some j }) s.kv,
  );
}

-- The state of `Get` before its `EraseCache`, and after it where the ring was free there or an element
-- was told.
abbrev pub turned : Entry → KvIndex → KvIndex
turned e s = record (counted e s) { cache_turn = turn s + 1 }

turned-Holds : (e : Entry) (s : KvIndex) (d : Dict Bytes) → Holds s d → Holds (turned e s) d
turned-Holds e s d v =
    Holds-counts s d (turn s + 1) s.request (s.hit + 1)
      (elim e.cached [ none ↦ s.cache_hit | some c ↦ s.cache_hit + 1 ]) s.delete_count v

-- What `Get` does to the ring: its turn goes on, and only the index of the turn is taken. The slots
-- stay, and each key's.
pub record IsTurned (s s' : KvIndex) : Type 0 where
  pub moves : s'.cache_turn ≡ turn s + 1
  pub free :
      (c : ℕ)
      → c ≢ turn s
      → get_or s.cache_element c none ≡ none
      → get_or s'.cache_element c none ≡ none
  pub slots : (k : Bytes) → slot_of s' k ≡ slot_of s k
  pub store : s'.store ≡ s.store
  pub size : s'.size ≡ s.size

-- `Get` of a key that is there. It uses an iterator to an erased element just where the ring has one at the
-- index of its turn; otherwise it returns the value, and the dictionary stays.
pub get-Holds :
    (key value : Bytes) (s : KvIndex) (d : Dict Bytes)
    → Holds s d
    → lookup key d ≡ some value
    → ((p : ℕ) × (get_or s.cache_element (turn s) none ≡ some p)
        × (is_live p s.kv ≡ false)
        × (get key s ≡ none))
      ⊎ ((s' : KvIndex) × (get key s ≡ some (value, s')) × Holds s' d × IsTurned s s')
unfolding get
get-Holds key value s d v look = elim (Option-cases (lookup key s.kv)) [
  | inl absent ↦ absurd (ground (arith, v.agrees key))
  | inr (e, found) ↦
      let read = fetch_value-counted key e s d found v in
      let w = turned-Holds e s d v in
      let below : turn s < cache_size = omega arith in
      let same : slot_value s.store e.slot ≡ value = ground (arith, v.agrees key) in
      elim (erase_cache-Holds (turned e s) d (turn s) w below) [
        | inl (clear, free) ↦
            let copied = keep_copy-kept key (turn s) e (turned e s) d found w in
            inr (
              kept key (turn s) e (turned e s),
              ground (arith, read, clear, copied),
              kept-Holds key (turn s) e (turned e s) d found free below w,
              record {
                moves = refl;
                free = λ c ne h. get_or-set_ne s.cache_element (turn s) c (some e.node) none ne ∙ h;
                slots = λ k. ground (
                  arith,
                  key_eq_iff key k,
                  lookup-assign key k (record e { cached = some (turn s) }) s.kv,
                );
                store = refl;
                size = refl;
              },
            )
        | inr (p, own, erased, w') ↦ elim (Bool-cases (is_live p s.kv)) [
          | inr dangling ↦ inl (p, own, dangling, ground (arith, read, erased))
          | inl live ↦
              let e' = without_copy p e in
              let found' : lookup key (uncache p s.kv) ≡ some e' =
                ground (arith, lookup-uncache p key s.kv) in
              let t = cleared (turn s) p (turned e s) in
              let copied = keep_copy-kept key (turn s) e' t d found' w' in
              inr (
                kept key (turn s) e' t,
                ground (arith, read, erased, copied),
                kept-Holds key (turn s) e' t d found'
                    (get_or-set_self s.cache_element (turn s) none none (omega (arith, v.elements)))
                    below w',
                record {
                  moves = refl;
                  free = λ c ne h.
                      get_or-set_ne t.cache_element (turn s) c (some e'.node) none ne
                      ∙ get_or-set_ne s.cache_element (turn s) c none none ne
                      ∙ h;
                  slots = λ k. ground (
                    arith,
                    key_eq_iff key k,
                    lookup-uncache p k s.kv,
                    lookup-assign key k (record e' { cached = some (turn s) }) t.kv,
                  );
                  store = refl;
                  size = refl;
                },
              )
        ]
      ]
]

-- `Exist` tells whether the dictionary has the key, and counts.
pub exist-Holds :
    (key : Bytes) (s : KvIndex) (d : Dict Bytes)
    → Holds s d
    → exist key s
      ≡ (elim (lookup key d) [ none ↦ false | some _ ↦ true ], record s { request = s.request + 1 })
unfolding exist
exist-Holds key s d v = ground (arith, v.agrees key)
