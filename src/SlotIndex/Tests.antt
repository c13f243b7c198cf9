-- ===== src/SlotIndex/Tests.antt =====
-- Runs of the index of the first server, and its theorems at a small index.
use simple_kv_svr.Base.{
  ℕ, ◌<◌, Bool, true, false, Option, none, some, List, [], ◌∷◌, length, get_or, replicate,
  set as set_elem, Bytes, lookup, assign, erase, key_eq, ◌≡◌, refl, arith, length-replicate,
  get_or-replicate, ◌⊎◌,
}
use simple_kv_svr.SlotIndex.{Slot, KvIndex, cache_size, zero_slot, c_string, is_live, delete, set}
use simple_kv_svr.SlotIndex.Cache.{get, turn}
use simple_kv_svr.SlotIndex.Cache.Reading.{IsTurned, get-Holds}
use simple_kv_svr.SlotIndex.Disk.{start, start_checked, memory_recycle}
use simple_kv_svr.SlotIndex.Disk.Restart.{start-Holds, start-none-Holds, start-none-IsDurable}
use simple_kv_svr.SlotIndex.Durable.{IsDurable, slot_in, appended-IsDurable}
use simple_kv_svr.SlotIndex.Holds.{Holds}
use simple_kv_svr.SlotIndex.Methods.{IsText, appended, append-appended}
use simple_kv_svr.SlotIndex.Missing.{delete_missing}
use simple_kv_svr.SlotIndex.Setting.{IsQuiet, set-Holds}

abbrev copies : List Slot
copies = replicate cache_size zero_slot

abbrev key_a : Bytes
key_a = 97 ∷ []

-- `Set` twice and `Get`: the value, and how many slots are in use.
abbrev last_value : Option (Bool × KvIndex) → Option (Bytes × ℕ)
last_value none = none
last_value (some (done, s)) = elim (get key_a s) [
  | none ↦ none
  | some (value, s') ↦ some (value, s'.size)
]

abbrev then_set : Bytes → Option (Bool × KvIndex) → Option (Bool × KvIndex)
then_set value none = none
then_set value (some (done, s)) = set true key_a value s

set_twice :
    last_value (then_set (50 ∷ []) (set true key_a (49 ∷ []) (start copies none)))
    ≡ some (50 ∷ [], 2)
unfolding set get start key_eq lookup assign erase
set_twice = refl

-- After that, `MemoryRecycle` leaves one slot.
abbrev recycled : Option (Bool × KvIndex) → ℕ
recycled none = 0
recycled (some (done, s)) = (memory_recycle s).size

recycled_size : recycled (then_set (50 ∷ []) (set true key_a (49 ∷ []) (start copies none))) ≡ 1
unfolding set memory_recycle start key_eq lookup assign erase
recycled_size = refl

-- `Get` twice and `Delete`, and the ring comes round to the first copy: `Get` of another key goes through
-- an iterator to the erased element.
abbrev stale_ring : KvIndex
stale_ring = record (start copies none) {
  kv = (98 ∷ [], record { node = 5; cached = none; slot = 0 }) ∷ [];
  store = record { key = 98 ∷ []; value = 49 ∷ []; flag = true } ∷ [];
  size = 1;
  cache_element = set_elem (replicate cache_size none) 0 (some 3);
}

get_dangling : get (98 ∷ []) stale_ring ≡ none
unfolding get start key_eq lookup
get_dangling = refl

copies_size : length copies ≡ cache_size
copies_size = length-replicate cache_size zero_slot

a-IsText : IsText key_a
unfolding c_string
a-IsText = record { plain = refl; short = omega arith }

-- A server that has one key.
abbrev one_key : KvIndex
one_key = appended key_a key_a (start copies none)

one_key-Holds : Holds one_key (assign key_a key_a [])
unfolding start key_eq
one_key-Holds =
    (append-appended key_a key_a (start copies none) [] a-IsText a-IsText (omega arith)
      (start-none-Holds copies copies_size)).1

one_key-IsDurable : IsDurable one_key
unfolding start lookup key_eq
one_key-IsDurable =
    appended-IsDurable key_a key_a (start copies none) [] (omega arith) (omega arith) refl
      (start-none-Holds copies copies_size) (start-none-IsDurable copies)

set-Holds_example :
    ((true ≡ false)
      × ((start copies none).size ≡ length (start copies none).store)
      × (set true key_a key_a (start copies none)
          ≡ some (false, record (start copies none) { mapped = false })))
    ⊎ ((s' : KvIndex) × (set true key_a key_a (start copies none) ≡ some (true, s'))
        × Holds s' (assign key_a key_a [])
        × IsQuiet (start copies none) s'
        × (0 < length key_a → IsDurable (start copies none) → IsDurable s'))
set-Holds_example =
    set-Holds true key_a key_a (start copies none) [] a-IsText a-IsText
      (start-none-Holds copies copies_size)

get-Holds_example :
    ((p : ℕ) × (get_or one_key.cache_element (turn one_key) none ≡ some p)
      × (is_live p one_key.kv ≡ false)
      × (get key_a one_key ≡ none))
    ⊎ ((s' : KvIndex) × (get key_a one_key ≡ some (97 ∷ [], s'))
        × Holds s' (assign key_a key_a [])
        × IsTurned one_key s')
unfolding lookup assign key_eq
get-Holds_example = get-Holds key_a key_a one_key (assign key_a key_a []) one_key-Holds refl

start-Holds_example : Holds (start copies (some one_key.store)) (assign key_a key_a [])
start-Holds_example =
    start-Holds copies one_key (assign key_a key_a []) copies_size one_key-Holds one_key-IsDurable

delete_missing_example :
    (s' : KvIndex) × (delete (98 ∷ []) one_key ≡ some s')
    × Holds s' (assign key_a key_a [])
    × ((slot_in s' 0).flag ≡ false)
unfolding start lookup assign key_eq
delete_missing_example =
    delete_missing (98 ∷ []) one_key (assign key_a key_a []) one_key-Holds refl
      (get_or-replicate {A = Option ℕ} cache_size 0 none)

-- `Start` where `mmap` fails.
start_no_mapping :
    start_checked (record { opens = true; truncates = true; maps = false }) copies none
    ≡ (some 3, none)
unfolding start_checked
start_no_mapping = refl
