-- ===== src/SlotIndex/Methods.antt =====
-- `Delete` and `Set` of simplekvsvr/NewKVIndex.h on an index that holds a dictionary.
use simple_kv_svr.Base.{
  ℕ, ◌+◌, ◌<◌, true, Option, none, some, ◌++◌, length, set as set_elem, replicate, if◌then◌else◌,
  Bytes, Dict, lookup, assign, erase, key_eq, lookup-assign, ◌≡◌, refl, arith, Option-cases,
  Bool-cases, length-set, length-append, get_elem?-get_or, get_or-append_left, get_or-set_self,
  get_or-set_ne, inl, inr,
}
use simple_kv_svr.SlotIndex.{
  Slot, Entry, KvIndex, cache_size, field_size, zero_slot, c_string, make_slot, touch, drop_cached,
  forget, append, delete,
}
use simple_kv_svr.SlotIndex.Entries.{is_live-lookup}
use simple_kv_svr.SlotIndex.Holds.{
  IsCopy, Holds, cleared, cleared-Holds, expired, expire-expired, expired-Holds, forget-Holds,
}

-- The copy of an element, if it has one, is dropped.
abbrev pub without_cache : Entry → KvIndex → KvIndex
without_cache e s = elim e.cached [ none ↦ s | some c ↦ cleared c e.node s ]

abbrev pub deleted : Bytes → Entry → KvIndex → KvIndex
deleted key e s = forget key (without_cache e (expired e.slot s))

drop_cached-without_cache :
    (cached : Option ℕ) (key : Bytes) (e : Entry) (s : KvIndex)
    → e.cached ≡ cached
    → lookup key s.kv ≡ some e
    → length s.cache_element ≡ cache_size
    → ((c : ℕ) → e.cached ≡ some c → IsCopy s e c)
    → drop_cached cached s ≡ some (without_cache e s)
unfolding drop_cached
drop_cached-without_cache none key e s h found len v = ground arith
drop_cached-without_cache (some c) key e s h found len v =
    ground (arith, v c, get_elem?-get_or s.cache_element c none, is_live-lookup key s.kv e)

without_cache-Holds :
    (key : Bytes) (e : Entry) (s : KvIndex) (d : Dict Bytes)
    → lookup key s.kv ≡ some e
    → Holds s d
    → Holds (without_cache e s) d
without_cache-Holds key e s d found v = elim (Option-cases e.cached) [
  | inl none_there ↦ rw none_there v
  | inr (c, there) ↦ rw there (cleared-Holds s d c e.node ((v.entries key e found).1 c there).1 v)
]

pub delete-deleted :
    (key : Bytes) (e : Entry) (s : KvIndex) (d : Dict Bytes)
    → lookup key s.kv ≡ some e
    → Holds s d
    → (delete key s ≡ some (deleted key e s)) × Holds (deleted key e s) (erase key d)
unfolding delete
delete-deleted key e s d found v =
    let w = expired-Holds s d e.slot v in
    let dropped =
      drop_cached-without_cache e.cached key e (expired e.slot s) refl found w.elements
        (w.entries key e found).1 in
    let there =
      expire-expired e.slot s v.mapped (omega (arith, (v.entries key e found).0, v.fits)) in
    (
      ground (arith, dropped, there),
      forget-Holds (without_cache e (expired e.slot s)) d key
          (without_cache-Holds key e (expired e.slot s) d found w),
    )

-- A text that a slot holds: no 0 in it, and short enough for the array.
pub record IsText (t : Bytes) : Type 0 where
  pub plain : c_string t ≡ t
  pub short : length t < field_size

make_slot-IsText :
    (key value : Bytes)
    → IsText key
    → IsText value
    → make_slot key value ≡ some (record { key = key; value = value; flag = true })
unfolding make_slot
make_slot-IsText key value k v = ground arith

-- The element `e` under `key`, and a new slot behind the others.
abbrev pub extended : Dict Entry → ℕ → Slot → KvIndex → KvIndex
extended kv next slot s = record s {
  store = set_elem s.store s.size slot;
  kv = kv;
  size = s.size + 1;
  next_node = next;
}

extended-Holds :
    (s : KvIndex) (d : Dict Bytes) (key : Bytes) (slot : Slot) (e : Entry) (kv : Dict Entry)
    (next : ℕ)
    → Holds s d
    → s.size < length s.store
    → e.slot ≡ s.size
    → e.cached ≡ none
    → ((k : Bytes) → lookup k kv ≡ (if key_eq key k then some e else lookup k s.kv))
    → Holds (extended kv next slot s) (assign key slot.value d)
extended-Holds s d key slot e kv next v room at bare look = record {
  mapped = v.mapped;
  fits = omega (arith, length-set s.store s.size slot);
  positive = omega (arith, length-set s.store s.size slot, v.positive);
  copies = v.copies;
  elements = v.elements;
  entries = λ k f h. elim (Bool-cases (key_eq key k)) [
    | inl same ↦
        let e₁ : e ≡ f = ground (arith, look k) in (ground arith, λ c hc. absurd (ground arith))
    | inr other ↦
        let found : lookup k s.kv ≡ some f = ground (arith, look k) in
        let w = v.entries k f found in
        (
          omega (arith, w.0),
          λ c hc. ground (arith, w.1 c hc, get_or-set_ne s.store s.size f.slot slot zero_slot),
        )
  ];
  agrees = λ k. elim (Bool-cases (key_eq key k)) [
    | inl same ↦ ground (
      arith,
      look k,
      lookup-assign key k slot.value d,
      get_or-set_self s.store s.size slot zero_slot,
    )
    | inr other ↦ elim (Option-cases (lookup k s.kv)) [
      | inl absent ↦ ground (arith, look k, v.agrees k, lookup-assign key k slot.value d)
      | inr (f, found) ↦ ground (
        arith,
        look k,
        v.agrees k,
        v.entries k f,
        lookup-assign key k slot.value d,
        get_or-set_ne s.store s.size f.slot slot zero_slot,
      )
    ]
  ];
}

-- The element that `Set` leaves for its key.
abbrev pub new_entry : Bytes → KvIndex → Entry
new_entry key s = record (touch key s).0 { cached = none; slot = s.size }

abbrev pub appended : Bytes → Bytes → KvIndex → KvIndex
appended key value s =
    extended (assign key (new_entry key s) (touch key s).1.kv) (touch key s).1.next_node
      (record { key = key; value = value; flag = true }) s

pub touched-lookup :
    (key : Bytes) (s : KvIndex) (k : Bytes)
    → lookup k (assign key (new_entry key s) (touch key s).1.kv)
      ≡ (if key_eq key k then some (new_entry key s) else lookup k s.kv)
touched-lookup key s k = elim (Option-cases (lookup key s.kv)) [
  | inl absent ↦ ground (
    arith,
    lookup-assign key k (record { node = s.next_node; cached = none; slot = s.size })
        (assign key (record { node = s.next_node; cached = some 0; slot = 0 }) s.kv),
    lookup-assign key k (record { node = s.next_node; cached = some 0; slot = 0 }) s.kv,
  )
  | inr (e, found) ↦
      ground (arith, lookup-assign key k (record e { cached = none; slot = s.size }) s.kv)
]

pub append-appended :
    (key value : Bytes) (s : KvIndex) (d : Dict Bytes)
    → IsText key
    → IsText value
    → s.size < length s.store
    → Holds s d
    → (append key value s ≡ some (appended key value s))
      × Holds (appended key value s) (assign key value d)
unfolding append
append-appended key value s d tk tv room v = (
  ground (arith, make_slot-IsText key value tk tv, get_elem?-get_or s.store s.size zero_slot),
  extended-Holds s d key (record { key = key; value = value; flag = true }) (new_entry key s)
      (assign key (new_entry key s) (touch key s).1.kv) (touch key s).1.next_node v room refl refl
      (touched-lookup key s),
)

-- `Resize`: the slots double.
abbrev pub grown : KvIndex → KvIndex
grown s = record s { store = s.store ++ replicate (length s.store) zero_slot; mapped = true }

pub grown-Holds : (s : KvIndex) (d : Dict Bytes) → Holds s d → Holds (grown s) d
grown-Holds s d v =
    let len = length-append s.store (replicate (length s.store) zero_slot) in
    record {
      mapped = refl;
      fits = omega (arith, len, v.fits);
      positive = omega (arith, len, v.positive);
      copies = v.copies;
      elements = v.elements;
      entries = λ k e h.
          let w = v.entries k e h in
          (
            w.0,
            λ c hc. ground (
              arith,
              w.1 c hc,
              v.fits,
              get_or-append_left s.store (replicate (length s.store) zero_slot) e.slot zero_slot,
            ),
          );
      agrees = λ k. elim (Option-cases (lookup k s.kv)) [
        | inl absent ↦ ground (arith, v.agrees k)
        | inr (e, found) ↦ ground (
          arith,
          v.agrees k,
          v.entries k e,
          v.fits,
          get_or-append_left s.store (replicate (length s.store) zero_slot) e.slot zero_slot,
        )
      ];
    }
