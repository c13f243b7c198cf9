-- ===== src/FreeIndex/Disk/Restart.antt =====
-- `Start` after `Quit` finds the blocks again.
use simple_kv_svr.Base.{
  ℕ, ◌<◌, true, Option, none, some, List, [], ◌∷◌, ◌++◌, length, length-replicate, get_or,
  get_or-replicate, replicate, take, take-append_length, Bytes, Dict, lookup, key_eq_iff, ◌≡◌, refl,
  sym, ap, ◌∙◌, arith, Option-cases, inl, inr,
}
use simple_kv_svr.SlotIndex.{Entry, cache_size}
use simple_kv_svr.SlotIndex.Disk.{StartIo, place}
use simple_kv_svr.SlotIndex.Disk.Loading.{IsBare, nothing-IsBare, place-slot_under, place-IsBare}
use simple_kv_svr.FreeIndex.{KvIndex}
use simple_kv_svr.FreeIndex.Blocks.{Block, value, offset-none, length-bytes_of}
use simple_kv_svr.FreeIndex.Ring.{slot_of}
use simple_kv_svr.FreeIndex.Holds.{Holds}
use simple_kv_svr.FreeIndex.Disk.{by_key, quit, place_pairs, scan, read_key_file, open_index, start}
use simple_kv_svr.FreeIndex.Disk.KeyFile.{is_word, are_words, pairs_of, read_key_file-quit}
use simple_kv_svr.FreeIndex.Disk.Scanning.{has_texts, scan-frees}
use simple_kv_svr.FreeIndex.Disk.KeyOrder.{IsSorted, lookup-by_key, lookup-below, by_key-IsSorted}

-- The keys of the list are words where those that are found are.
words-are_words :
    (d : Dict Entry)
    → IsSorted d
    → ((k : Bytes) (e : Entry) → lookup k d ≡ some e → is_word k ≡ true)
    → are_words d ≡ true
unfolding are_words lookup IsSorted
words-are_words [] v h = refl
words-are_words ((k, e) ∷ d) (first, v) h =
    let here = h k e (ground (arith, key_eq_iff k k)) in
    let alone = lookup-below k d first in
    let rest = words-are_words d v (λ j f found. h j f (ground (arith, key_eq_iff k j))) in
    ground arith

-- What the map of `Start` has.
place_pairs-slots :
    (d : Dict Entry) (kv : Dict Entry × ℕ) (k : Bytes)
    → IsSorted d
    → slot_of (place_pairs (pairs_of d) kv).0 k
      ≡ elim (slot_of d k) [ none ↦ slot_of kv.0 k | some i ↦ some i ]
unfolding place_pairs pairs_of lookup IsSorted
place_pairs-slots [] kv k v = refl
place_pairs-slots ((j, e) ∷ d) kv k (first, v) = ground (
  arith,
  key_eq_iff j k,
  lookup-below j d first,
  place-slot_under j k e.slot kv.1 kv.0,
  place_pairs-slots d (place j e.slot kv) k v,
)

place_pairs-IsBare :
    (pairs : List (Bytes × ℕ)) (kv : Dict Entry × ℕ) → IsBare kv.0 → IsBare (place_pairs pairs kv).0
unfolding place_pairs
place_pairs-IsBare [] kv v = v
place_pairs-IsBare ((k, i) ∷ pairs) kv v =
    place_pairs-IsBare pairs (place k i kv) (place-IsBare k i kv.1 kv.0 v)

-- The whole file is mapped again.
open_index-store :
    (store : Bytes) → take (length store) (store ++ replicate (length store) 0) ≡ store
open_index-store store = take-append_length (length store) store (replicate (length store) 0) refl

open_index-Holds :
    (cache : List (Option Bytes)) (s : KvIndex) (blocks : List Block)
    → length cache ≡ cache_size
    → Holds s blocks
    → has_texts blocks ≡ true
    → Holds (open_index (length s.store) (pairs_of (by_key s.kv)) s.store cache) blocks
unfolding open_index lookup
open_index-Holds cache s blocks len v texts =
    let whole = open_index-store s.store in
    let bare = place_pairs-IsBare (pairs_of (by_key s.kv)) ([], 0) nothing-IsBare in
    record {
      mapped = refl;
      positive = v.positive;
      store = whole ∙ v.store;
      mem_list =
          ap (scan 0 0 none) (whole ∙ v.store) ∙ scan-frees 0 0 none blocks v.tidy texts (inr refl);
      tidy = v.tidy;
      slots = λ k. ground (
        arith,
        v.slots k,
        lookup-by_key k s.kv,
        place_pairs-slots (by_key s.kv) ([], 0) k (by_key-IsSorted s.kv),
      );
      ring = record {
        elements = length-replicate {A = Option ℕ} cache_size none;
        strings = len;
        copies = λ k e c h hc. absurd (ground (arith, bare k e h));
      };
    }

abbrev pub all_well : StartIo
all_well = record { opens = true; truncates = true; maps = true }

start-open_index :
    (text file : Bytes) (cache : List (Option Bytes)) (size : ℕ) (pairs : List (Bytes × ℕ))
    → read_key_file text ≡ some (size, pairs)
    → 0 < size
    → start all_well text file cache ≡ some (0, some (open_index size pairs file cache))
unfolding start
start-open_index text file cache size pairs e pos = ground arith

pub open_index-ring :
    (size : ℕ) (pairs : List (Bytes × ℕ)) (file : Bytes) (cache : List (Option Bytes)) (c : ℕ)
    → get_or (open_index size pairs file cache).cache_element c none ≡ none
unfolding open_index
open_index-ring size pairs file cache c = get_or-replicate {A = Option ℕ} cache_size c none

-- A key of the map has a value.
key_is_word :
    (s : KvIndex) (blocks : List Block) (k : Bytes) (e : Entry)
    → Holds s blocks
    → ((j w : Bytes) → value j blocks ≡ some w → is_word j ≡ true)
    → lookup k (by_key s.kv) ≡ some e
    → is_word k ≡ true
key_is_word s blocks k e v words found = elim (Option-cases (value k blocks)) [
  | inl new ↦ absurd (ground (arith, v.slots k, offset-none k 0 blocks new, lookup-by_key k s.kv))
  | inr (w, here) ↦ words k w here
]

-- `Quit` of an index that holds blocks, and `Start` on the files that it leaves, where the system calls succeed, no
-- value is empty, and every key that has one is a word without white space: the index has the same blocks then, so the same keys and
-- values, and the same list of free parts, and
-- no copies.
pub start-quit :
    (cache : List (Option Bytes)) (s : KvIndex) (blocks : List Block)
    → length cache ≡ cache_size
    → Holds s blocks
    → has_texts blocks ≡ true
    → ((k w : Bytes) → value k blocks ≡ some w → is_word k ≡ true)
    → (s' : KvIndex) × (start all_well (quit s) s.store cache ≡ some (0, some s'))
      × Holds s' blocks
      × (s'.mem_list ≡ s.mem_list)
      × ((c : ℕ) → get_or s'.cache_element c none ≡ none)
start-quit cache s blocks len v texts words =
    let keys =
      words-are_words (by_key s.kv) (by_key-IsSorted s.kv)
        (λ k e found. key_is_word s blocks k e v words found) in
    let holds = open_index-Holds cache s blocks len v texts in
    (
      open_index (length s.store) (pairs_of (by_key s.kv)) s.store cache,
      start-open_index (quit s) s.store cache (length s.store) (pairs_of (by_key s.kv))
          (read_key_file-quit s keys)
          (omega (arith, v.positive, length-bytes_of blocks, ap length v.store)),
      holds,
      holds.mem_list ∙ sym v.mem_list,
      λ c. open_index-ring (length s.store) (pairs_of (by_key s.kv)) s.store cache c,
    )
