-- ===== src/SlotIndex/Missing.antt =====
-- `Delete` of simplekvsvr/NewKVIndex.h on a key that is not there: `kv_[key]` makes an element of zeros
-- for it, which names slot 0 and copy 0.
use simple_kv_svr.Base.{
  ◌+◌, false, none, some, get_or, Bytes, Dict, lookup, assign, key_eq_iff, lookup-assign,
  lookup-erase, ◌≡◌, sym, ap, ◌∙◌, arith, get_elem?-get_or, get_or-set_self,
}
use simple_kv_svr.SlotIndex.{Entry, KvIndex, zero_slot, erase_cache, drop_cached, forget, delete}
use simple_kv_svr.SlotIndex.Durable.{slot_in}
use simple_kv_svr.SlotIndex.Holds.{Holds, expired, expire-expired, expired-Holds}

-- The element of zeros, the state with it, and the state that `Delete` leaves.
abbrev pub zero_entry : KvIndex → Entry
zero_entry s = record { node = s.next_node; cached = some 0; slot = 0 }

abbrev pub touched : Bytes → KvIndex → KvIndex
touched key s = record s { kv = assign key (zero_entry s) s.kv; next_node = s.next_node + 1 }

abbrev pub spoiled : Bytes → KvIndex → KvIndex
spoiled key s = forget key (expired 0 (touched key s))

spoiled-lookup :
    (key k : Bytes) (s : KvIndex)
    → lookup key s.kv ≡ none
    → lookup k (spoiled key s).kv ≡ lookup k s.kv
spoiled-lookup key k s absent = ground (
  arith,
  key_eq_iff key k,
  lookup-erase key k (assign key (zero_entry s) s.kv),
  lookup-assign key k (zero_entry s) s.kv,
)

-- `Delete` of a key that is not there, while no key has the copy 0: the running server still holds its
-- dictionary, but slot 0, whichever key has it, is marked as expired on the disk.
pub delete_missing :
    (key : Bytes) (s : KvIndex) (d : Dict Bytes)
    → Holds s d
    → lookup key s.kv ≡ none
    → get_or s.cache_element 0 none ≡ none
    → (s' : KvIndex) × (delete key s ≡ some s') × Holds s' d × ((slot_in s' 0).flag ≡ false)
unfolding delete drop_cached erase_cache
delete_missing key s d v absent free =
    let w = expired-Holds s d 0 v in
    let at = expire-expired 0 (touched key s) v.mapped v.positive in
    (
      spoiled key s,
      ground (arith, at, get_elem?-get_or s.cache_element 0 none, v.elements),
      record {
        mapped = w.mapped;
        fits = w.fits;
        positive = w.positive;
        copies = w.copies;
        elements = w.elements;
        entries = λ k e h. w.entries k e (sym (spoiled-lookup key k s absent) ∙ h);
        agrees = λ k. ground (arith, w.agrees k, spoiled-lookup key k s absent);
      },
      ap (λ slot. slot.flag)
          (get_or-set_self s.store 0 (record (slot_in s 0) { flag = false }) zero_slot v.positive),
    )
