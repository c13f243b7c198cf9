-- ===== src/SlotIndex/Disk/Restart.antt =====
-- `Start` on the slots of an index that was durable finds its dictionary again.
use simple_kv_svr.Base.{
  ℕ, Option, none, some, List, [], length, get_or, Bytes, Dict, lookup, key_eq, ◌≡◌, refl, sym, ap,
  ◌∙◌, arith, length-replicate, get_or-replicate,
}
use simple_kv_svr.SlotIndex.{Slot, KvIndex, cache_size, zero_slot}
use simple_kv_svr.SlotIndex.Disk.{load_slots, start}
use simple_kv_svr.SlotIndex.Disk.Loading.{
  nothing-IsBare, slot_under, passed, last_slot, load_slots-last_slot, load_slots-IsBare,
  last_slot-IsDurable, load_slots-size, slot_of-lt,
}
use simple_kv_svr.SlotIndex.Durable.{slot_of, IsDurable}
use simple_kv_svr.SlotIndex.Holds.{Holds}

-- The slots of the keys in the new map are those of the old one.
start-slots :
    (s : KvIndex) (d : Dict Bytes) (k : Bytes)
    → Holds s d
    → IsDurable s
    → slot_under k (load_slots s.store 0 ([], 0)).0.0 ≡ slot_of s k
unfolding lookup
start-slots s d k v dur =
    load_slots-last_slot k s.store 0 ([], 0)
    ∙ ap (λ found. last_slot k s.store 0 found) (sym (none_passed (slot_of s k)))
    ∙ last_slot-IsDurable (length s.store) 0 k s dur (omega arith) (slot_of-lt s d k v)
        (omega arith) v.fits
  where
    none_passed : (t : Option ℕ) → passed 0 t ≡ none
    none_passed none = refl
    none_passed (some j) = ground arith

-- `Start` on the file of an index whose slots tell its dictionary, after the process has gone: the index
-- that it builds holds the same dictionary.
pub start-Holds :
    (cache : List Slot) (s : KvIndex) (d : Dict Bytes)
    → length cache ≡ cache_size
    → Holds s d
    → IsDurable s
    → Holds (start cache (some s.store)) d
unfolding start
start-Holds cache s d copies v dur =
    let size =
      load_slots-size (length s.store) 0 s ([], 0) dur (omega arith) (omega arith) v.fits in
    let bare = load_slots-IsBare s.store 0 ([], 0) nothing-IsBare in
    record {
      mapped = refl;
      fits = omega (arith, size, v.fits);
      positive = v.positive;
      copies = copies;
      elements = length-replicate {A = Option ℕ} cache_size none;
      entries = λ k e h. (
        ground (arith, start-slots s d k v dur, slot_of-lt s d k v e.slot),
        λ c hc. absurd (ground (arith, bare k e h)),
      );
      agrees = λ k. ground (arith, v.agrees k, start-slots s d k v dur);
    }

-- `Start` where there is no file.
pub start-none-Holds : (cache : List Slot) → length cache ≡ cache_size → Holds (start cache none) []
unfolding start load_slots key_eq lookup
start-none-Holds cache h = record {
  mapped = refl;
  fits = omega arith;
  positive = omega arith;
  copies = h;
  elements = length-replicate {A = Option ℕ} cache_size none;
  entries = λ k e h. cc;
  agrees = λ k. refl;
}

pub start-none-IsDurable : (cache : List Slot) → IsDurable (start cache none)
unfolding start load_slots key_eq lookup
start-none-IsDurable cache = record {
  flagged = λ k i h. cc;
  indexed = λ i h flag. absurd (omega arith);
  keyed = λ i h. absurd (omega arith);
  clean = λ i h. get_or-replicate 4 i zero_slot;
}

-- The ring of copies is empty then.
pub start-none-ring :
    (cache : List Slot)
    → ((start cache none).cache_turn ≡ 0)
      × ((c : ℕ) → get_or (start cache none).cache_element c none ≡ none)
unfolding start load_slots key_eq
start-none-ring cache = (refl, λ c. get_or-replicate {A = Option ℕ} cache_size c none)
