-- ===== src/FreeIndex/Cache/Reading.antt =====
-- `Get` on an index that holds blocks.
use simple_kv_svr.Base.{
  ℕ, ◌+◌, ◌<◌, false, Option, none, some, List, length, length-set, get_or, get_elem?-get_or,
  get_or-set_self, get_or-set_ne, set as set_elem, Bytes, lookup, assign, lookup-assign, key_eq,
  key_eq_iff, ◌≡◌, refl, ◌∙◌, arith, Option-cases, Bool-cases, inl, inr, ◌⊎◌,
}
use simple_kv_svr.SlotIndex.{Entry, cache_size, is_live, uncache}
use simple_kv_svr.SlotIndex.Entries.{without_copy, lookup-uncache}
use simple_kv_svr.FreeIndex.{KvIndex, erase_cache}
use simple_kv_svr.FreeIndex.Blocks.{Block, value}
use simple_kv_svr.FreeIndex.Releasing.Strings.{value-IsStored}
use simple_kv_svr.FreeIndex.Ring.{
  HasRing, IsCopy, KeepsFile, cleared, cleared-HasRing, cleared-KeepsFile, erase_cache-free,
  erase_cache-own,
}
use simple_kv_svr.FreeIndex.Holds.{Holds, lookup-some}
use simple_kv_svr.FreeIndex.Cache.{fetch_value, turn, keep_copy, get}

-- The counts after the value has been read, and the turn.
abbrev pub counted : Entry → KvIndex → KvIndex
counted e s = record s {
  hit = s.hit + 1;
  cache_hit = elim e.cached [ none ↦ s.cache_hit | some c ↦ s.cache_hit + 1 ];
}

abbrev pub turned : Entry → KvIndex → KvIndex
turned e s = record (counted e s) { cache_turn = turn s + 1 }

fetch_value-counted :
    (key w : Bytes) (e : Entry) (s : KvIndex) (blocks : List Block)
    → Holds s blocks
    → value key blocks ≡ some w
    → lookup key s.kv ≡ some e
    → fetch_value e s ≡ some (w, counted e s)
unfolding fetch_value
fetch_value-counted key w e s blocks v here found = elim (Option-cases e.cached) [
  | inl bare ↦
      let (p, stored) = value-IsStored key w 0 blocks v.tidy here in
      let at : e.slot ≡ p = ground (arith, v.slots key, stored.there) in
      ground (arith, at, v.mapped, v.store, stored.len, stored.text)
  | inr (c, copied) ↦
      ground
        (arith, v.ring.copies key e c found copied, v.ring.strings, get_elem?-get_or s.cache c none)
]

-- The file of a state with another ring.
same-Holds :
    (s t : KvIndex) (blocks : List Block)
    → Holds s blocks
    → KeepsFile s t
    → HasRing t (λ k. value k blocks)
    → Holds t blocks
same-Holds s t blocks v keeps ring = record {
  mapped = keeps.mapped ∙ v.mapped;
  positive = v.positive;
  store = keeps.store ∙ v.store;
  mem_list = keeps.mem_list ∙ v.mem_list;
  tidy = v.tidy;
  slots = λ k. keeps.slots k ∙ v.slots k;
  ring = ring;
}

-- The new copy.
abbrev pub kept : Bytes → ℕ → Bytes → Entry → KvIndex → KvIndex
kept key j text e s = record s {
  cache = set_elem s.cache j (some text);
  kv = assign key (record e { cached = some j }) s.kv;
  cache_element = set_elem s.cache_element j (some e.node);
}

kept-copies :
    (key k w : Bytes) (j c : ℕ) (e f : Entry) (s : KvIndex) (values : Bytes → Option Bytes)
    → lookup key s.kv ≡ some e
    → values key ≡ some w
    → get_or s.cache_element j none ≡ none
    → j < cache_size
    → HasRing s values
    → lookup k (assign key (record e { cached = some j }) s.kv) ≡ some f
    → f.cached ≡ some c
    → IsCopy (kept key j w e s) (values k) f c
kept-copies key k w j c e f s values found here free h v look hc =
    let at = lookup-assign key k (record e { cached = some j }) s.kv in
    elim (Bool-cases (key_eq key k)) [
      | inl same ↦ ground (
        arith,
        at,
        v.strings,
        v.elements,
        key_eq_iff key k,
        get_or-set_self s.cache j (some w) none,
        get_or-set_self s.cache_element j (some e.node) none,
      )
      | inr other ↦ ground (
        arith,
        at,
        v.copies k f c,
        get_or-set_ne s.cache j c (some w) none,
        get_or-set_ne s.cache_element j c (some e.node) none,
      )
    ]

kept-HasRing :
    (key w : Bytes) (j : ℕ) (e : Entry) (s : KvIndex) (values : Bytes → Option Bytes)
    → lookup key s.kv ≡ some e
    → values key ≡ some w
    → get_or s.cache_element j none ≡ none
    → j < cache_size
    → HasRing s values
    → HasRing (kept key j w e s) values
kept-HasRing key w j e s values found here free h v = record {
  elements = length-set s.cache_element j (some e.node) ∙ v.elements;
  strings = length-set s.cache j (some w) ∙ v.strings;
  copies = λ k f c look hc. kept-copies key k w j c e f s values found here free h v look hc;
}

kept-KeepsFile :
    (key w : Bytes) (j : ℕ) (e : Entry) (s : KvIndex)
    → lookup key s.kv ≡ some e
    → KeepsFile s (kept key j w e s)
kept-KeepsFile key w j e s found = record {
  store = refl;
  mapped = refl;
  mem_list = refl;
  slots = λ k.
      ground (arith, key_eq_iff key k, lookup-assign key k (record e { cached = some j }) s.kv);
}

get-steps :
    (key w : Bytes) (e e' : Entry) (s t : KvIndex)
    → lookup key s.kv ≡ some e
    → fetch_value e s ≡ some (w, counted e s)
    → erase_cache (turn s) (turned e s) ≡ some t
    → lookup key t.kv ≡ some e'
    → get key s ≡ some (w, kept key (turn s) w e' t)
unfolding get keep_copy
get-steps key w e e' s t found fetched erased found' = ground arith

get-dangling :
    (key w : Bytes) (e : Entry) (s : KvIndex)
    → lookup key s.kv ≡ some e
    → fetch_value e s ≡ some (w, counted e s)
    → erase_cache (turn s) (turned e s) ≡ none
    → get key s ≡ none
unfolding get
get-dangling key w e s found fetched erased = ground arith

-- `Get` of a key that has a value, in an index that holds blocks: it follows an iterator to an erased element just where the ring has one at the
-- index of its turn; otherwise it returns the value, and the file and the values stay.
pub get-value :
    (key w : Bytes) (s : KvIndex) (blocks : List Block)
    → Holds s blocks
    → value key blocks ≡ some w
    → ((p : ℕ) × (get_or s.cache_element (turn s) none ≡ some p)
        × (is_live p s.kv ≡ false)
        × (get key s ≡ none))
      ⊎ ((s' : KvIndex) × (get key s ≡ some (w, s')) × Holds s' blocks)
get-value key w s blocks v here =
    let (p, stored) = value-IsStored key w 0 blocks v.tidy here in
    let (e, found, at) = lookup-some key (0 + p) s blocks v stored.there in
    let fetched = fetch_value-counted key w e s blocks v here found in
    let ring : HasRing (turned e s) (λ k. value k blocks) = record {
      elements = v.ring.elements;
      strings = v.ring.strings;
      copies = v.ring.copies;
    } in
    let start : Holds (turned e s) blocks =
      same-Holds s (turned e s) blocks v
        (record { store = refl; mapped = refl; mem_list = refl; slots = λ k. refl }) ring in
    let below : turn s < length s.cache_element = omega (arith, v.ring.elements) in
    elim (Option-cases (get_or s.cache_element (turn s) none)) [
      | inl free ↦
          let erased = erase_cache-free (turn s) (turned e s) below free in
          inr (
            kept key (turn s) w e (turned e s),
            get-steps key w e e s (turned e s) found fetched erased found,
            same-Holds (turned e s) (kept key (turn s) w e (turned e s)) blocks start
                (kept-KeepsFile key w (turn s) e (turned e s) found)
                (kept-HasRing key w (turn s) e (turned e s) (λ k. value k blocks) found here free
                  (omega arith) ring),
          )
      | inr (q, own) ↦
          let erased = erase_cache-own (turn s) q (turned e s) below own in
          elim (Bool-cases (is_live q s.kv)) [
            | inr dead ↦ inl (q, own, dead, get-dangling key w e s found fetched (ground arith))
            | inl live ↦
                let t = cleared (turn s) q (turned e s) in
                let e' = without_copy q e in
                let found' : lookup key (uncache q s.kv) ≡ some e' =
                  ground (arith, lookup-uncache q key s.kv) in
                let ring' =
                  cleared-HasRing (turned e s) (λ k. value k blocks) (turn s) q own ring in
                let w' =
                  same-Holds (turned e s) t blocks start (cleared-KeepsFile (turned e s) (turn s) q)
                    ring' in
                inr (
                  kept key (turn s) w e' t,
                  get-steps key w e e' s t found fetched (ground arith) found',
                  same-Holds t (kept key (turn s) w e' t) blocks w'
                      (kept-KeepsFile key w (turn s) e' t found')
                      (kept-HasRing key w (turn s) e' t (λ k. value k blocks) found' here
                        (get_or-set_self s.cache_element (turn s) none none below) (omega arith)
                        ring'),
                )
          ]
    ]
