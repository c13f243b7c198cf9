-- ===== src/SlotIndex/Holds.antt =====
-- What it means that the index holds a dictionary, and the steps that keep it.
use simple_kv_svr.Base.{
  ℕ, zero, suc, ◌≤◌, ◌<◌, true, false, Option, none, some, List, [], ◌∷◌, length, get_or,
  set as set_elem, if◌then◌else◌, Bytes, Dict, lookup, erase, lookup-erase, ◌≡◌, refl, ◌∙◌, arith,
  Option-cases, length-set, get_elem?-get_or, get_or-set_ne, inl, inr, ◌⊎◌,
}
use simple_kv_svr.SlotIndex.{
  Slot, Entry, KvIndex, cache_size, zero_slot, is_live, uncache, erase_cache, put_slot, expire,
  forget,
}
use simple_kv_svr.SlotIndex.Entries.{lookup-uncache}

-- The value that lies in a slot.
abbrev pub slot_value : List Slot → ℕ → Bytes
slot_value store i = (get_or store i zero_slot).value

-- The value in the slot of a key.
abbrev pub value_at : KvIndex → Bytes → Option Bytes
value_at s k = elim (lookup k s.kv) [ none ↦ none | some e ↦ some (slot_value s.store e.slot) ]

-- The copy at `c` is the one of the element `e`.
abbrev pub IsCopy : KvIndex → Entry → ℕ → Type 0
IsCopy s e c =
    (c < cache_size)
    × (get_or s.cache_element c none ≡ some e.node)
    × ((get_or s.cache c zero_slot).value ≡ slot_value s.store e.slot)

abbrev pub IsEntry : KvIndex → Entry → Type 0
IsEntry s e = (e.slot < s.size) × ((c : ℕ) → e.cached ≡ some c → IsCopy s e c)

pub record Holds (s : KvIndex) (d : Dict Bytes) : Type 0 where
  pub mapped : s.mapped ≡ true
  pub fits : s.size ≤ length s.store
  pub positive : 0 < length s.store
  pub copies : length s.cache ≡ cache_size
  pub elements : length s.cache_element ≡ cache_size
  pub entries : (k : Bytes) (e : Entry) → lookup k s.kv ≡ some e → IsEntry s e
  pub agrees : (k : Bytes) → lookup k d ≡ value_at s k

-- The counts and the turn of the cache do not matter.
pub Holds-counts :
    (s : KvIndex) (d : Dict Bytes) (turn request hit cache_hit delete_count : ℕ)
    → Holds s d
    → Holds
        (record s {
          cache_turn = turn;
          request = request;
          hit = hit;
          cache_hit = cache_hit;
          delete_count = delete_count;
        })
        d
Holds-counts s d turn request hit cache_hit delete_count v = record {
  mapped = v.mapped;
  fits = v.fits;
  positive = v.positive;
  copies = v.copies;
  elements = v.elements;
  entries = v.entries;
  agrees = v.agrees;
}

-- The first step of `EraseCache`, on an iterator that is not `end()`.
abbrev pub cleared : ℕ → ℕ → KvIndex → KvIndex
cleared c p s = record s { kv = uncache p s.kv; cache_element = set_elem s.cache_element c none }

cleared-IsEntry :
    (s : KvIndex) (c p : ℕ) (k : Bytes) (e : Entry)
    → get_or s.cache_element c none ≡ some p
    → ((f : Entry) → lookup k s.kv ≡ some f → IsEntry s f)
    → lookup k (uncache p s.kv) ≡ some e
    → IsEntry (cleared c p s) e
cleared-IsEntry s c p k e own v h = elim (Option-cases (lookup k s.kv)) [
  | inl absent ↦ absurd (ground (arith, lookup-uncache p k s.kv))
  | inr (f, found) ↦ (
    ground (arith, v f found, lookup-uncache p k s.kv),
    λ c' hc. ground (
      arith,
      lookup-uncache p k s.kv,
      (v f found).1 c',
      get_or-set_ne s.cache_element c c' none none,
    ),
  )
]

pub cleared-Holds :
    (s : KvIndex) (d : Dict Bytes) (c p : ℕ)
    → get_or s.cache_element c none ≡ some p
    → Holds s d
    → Holds (cleared c p s) d
cleared-Holds s d c p own v = record {
  mapped = v.mapped;
  fits = v.fits;
  positive = v.positive;
  copies = v.copies;
  elements = length-set s.cache_element c none ∙ v.elements;
  entries = λ k e h. cleared-IsEntry s c p k e own (v.entries k) h;
  agrees = λ k. ground (arith, v.agrees k, lookup-uncache p k s.kv);
}

-- `EraseCache` at an index of the ring: nothing, or the element is told, or an iterator to an erased
-- element is used.
pub erase_cache-Holds :
    (s : KvIndex) (d : Dict Bytes) (c : ℕ)
    → Holds s d
    → c < cache_size
    → ((erase_cache c s ≡ some s) × (get_or s.cache_element c none ≡ none))
      ⊎ ((p : ℕ) × (get_or s.cache_element c none ≡ some p)
          × (erase_cache c s ≡ (if is_live p s.kv then some (cleared c p s) else none))
          × Holds (cleared c p s) d)
unfolding erase_cache
erase_cache-Holds s d c v h = elim (Option-cases (get_or s.cache_element c none)) [
  | inl free ↦ inl (ground (arith, get_elem?-get_or s.cache_element c none), free)
  | inr (p, own) ↦
      inr (
        p,
        own,
        ground (arith, get_elem?-get_or s.cache_element c none),
        cleared-Holds s d c p own v,
      )
]

-- `Expire` leaves the values alone.
slot_value-expire :
    (store : List Slot) (i j : ℕ)
    → slot_value (set_elem store i (record (get_or store i zero_slot) { flag = false })) j
      ≡ slot_value store j
slot_value-expire [] i j = refl
slot_value-expire (x ∷ store) zero zero = refl
slot_value-expire (x ∷ store) zero (suc j) = refl
slot_value-expire (x ∷ store) (suc i) zero = refl
slot_value-expire (x ∷ store) (suc i) (suc j) = slot_value-expire store i j

abbrev pub expired : ℕ → KvIndex → KvIndex
expired i s = put_slot i (record (get_or s.store i zero_slot) { flag = false }) s

pub expire-expired :
    (i : ℕ) (s : KvIndex) → s.mapped ≡ true → i < length s.store → expire i s ≡ some (expired i s)
unfolding expire
expire-expired i s m h = ground (arith, get_elem?-get_or s.store i zero_slot)

pub expired-Holds : (s : KvIndex) (d : Dict Bytes) (i : ℕ) → Holds s d → Holds (expired i s) d
expired-Holds s d i v =
    let len = length-set s.store i (record (get_or s.store i zero_slot) { flag = false }) in
    record {
      mapped = v.mapped;
      fits = omega (arith, len, v.fits);
      positive = omega (arith, len, v.positive);
      copies = v.copies;
      elements = v.elements;
      entries = λ k e h. (
        (v.entries k e h).0,
        λ c hc. ground (arith, (v.entries k e h).1 c hc, slot_value-expire s.store i e.slot),
      );
      agrees = λ k. elim (Option-cases (lookup k s.kv)) [
        | inl absent ↦ ground (arith, v.agrees k)
        | inr (e, found) ↦ ground (arith, v.agrees k, slot_value-expire s.store i e.slot)
      ];
    }

-- The end of `Delete`.
pub forget-Holds :
    (s : KvIndex) (d : Dict Bytes) (key : Bytes) → Holds s d → Holds (forget key s) (erase key d)
forget-Holds s d key v = record {
  mapped = v.mapped;
  fits = v.fits;
  positive = v.positive;
  copies = v.copies;
  elements = v.elements;
  entries = λ k e h. v.entries k e (ground (arith, lookup-erase key k s.kv));
  agrees = λ k. ground (arith, v.agrees k, lookup-erase key k s.kv, lookup-erase key k d);
}
