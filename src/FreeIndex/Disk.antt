-- ===== src/FreeIndex/Disk.antt =====
-- `Quit` and `Start` of simplekvsvr/KVIndex.h.
pub mod Scanning
pub mod KeyFile
pub mod KeyOrder
pub mod Restart
use simple_kv_svr.Base.{
  ℕ, zero, suc, ◌+◌, ◌-◌, ◌≤◌, Bool, true, false, not, ◌&&◌, ◌||◌, Option, none, some, List, [],
  ◌∷◌, ◌++◌, length, replicate, take, ltb, leb, ◌==◌, if◌then◌else◌, Bytes, Dict, lookup, assign,
  key_eq, codes, decimal, read_digits, starts_digit,
}
use simple_kv_svr.SlotIndex.{Entry, cache_size}
use simple_kv_svr.SlotIndex.Disk.{StartIo, place}
use simple_kv_svr.FreeIndex.{Extent, KvIndex}

-- `operator<` of two strings
unfoldable pub key_lt : Bytes → Bytes → Bool
key_lt [] [] = false
key_lt [] (y ∷ ys) = true
key_lt (x ∷ xs) [] = false
key_lt (x ∷ xs) (y ∷ ys) = let rest = key_lt xs ys in if x == y then rest else ltb x y

-- The order in which a `map` is gone through: an element put in front of the first key that is not less.
unfoldable pub put_sorted : {V : Type 0} → Bytes → V → Dict V → Dict V
unfolding key_lt key_eq
put_sorted k v [] = (k, v) ∷ []
put_sorted k v ((j, w) ∷ d) =
    let rest = put_sorted k v d in
    if key_eq k j then (k, v) ∷ d else if key_lt j k then (j, w) ∷ rest else (k, v) ∷ (j, w) ∷ d

unfoldable pub by_key : {V : Type 0} → Dict V → Dict V
unfolding put_sorted
by_key [] = []
by_key ((k, v) ∷ d) = put_sorted k v (by_key d)

-- The loop of `Quit`.
unfoldable pub key_lines : Dict Entry → Bytes
unfolding decimal
key_lines [] = []
key_lines ((k, e) ∷ kv) = k ++ (32 ∷ (decimal e.slot ++ (10 ∷ key_lines kv)))

-- What `Quit` leaves in the file "key"; standard output leads there while it prints "here".
unfoldable pub quit : KvIndex → Bytes
unfolding by_key key_lines
quit s = decimal (length s.store) ++ (10 ∷ (key_lines (by_key s.kv) ++ codes "here\n"))

-- White space
abbrev pub is_space : ℕ → Bool
is_space c = c == 32 || (leb 9 c && leb c 13)

unfoldable pub skip_space : Bytes → Bytes
skip_space [] = []
skip_space (c ∷ text) = let rest = skip_space text in if is_space c then rest else c ∷ text

unfoldable pub cut_word : Bytes → Bytes × Bytes
cut_word [] = ([], [])
cut_word (c ∷ text) =
    let (word, rest) = cut_word text in if is_space c then ([], c ∷ text) else (c ∷ word, rest)

-- `cin >> key`: `none` where there is no word.
unfoldable pub read_word : Bytes → Option (Bytes × Bytes)
unfolding skip_space cut_word
read_word text = elim (skip_space text) [ [] ↦ none | c ∷ rest ↦ some (cut_word (c ∷ rest)) ]

-- `cin >> offset`, for a number with no sign
unfoldable pub read_number : Bytes → Option (ℕ × Bytes)
unfolding skip_space read_digits
read_number text =
    if starts_digit (skip_space text) then some (read_digits 0 (skip_space text)) else none

-- `while (cin >> key >> offset)`, for so many rounds.
unfoldable pub read_pairs : ℕ → Bytes → List (Bytes × ℕ)
unfolding read_word read_number
read_pairs zero text = []
read_pairs (suc rounds) text = elim (read_word text) [
  | none ↦ []
  | some (key, text₁) ↦ elim (read_number text₁) [
    | none ↦ []
    | some (offset, text₂) ↦ (key, offset) ∷ read_pairs rounds text₂
  ]
]

-- `kv_[key] = make_pair(-1, offset)` for each of them, with the next address of the map.
unfoldable pub place_pairs : List (Bytes × ℕ) → Dict Entry × ℕ → Dict Entry × ℕ
place_pairs [] kv = kv
place_pairs ((key, offset) ∷ pairs) kv = place_pairs pairs (place key offset kv)

-- `store_[i + 1] != 0` or the end
abbrev pub ends_zeros : Bytes → Bool
ends_zeros [] = true
ends_zeros (c ∷ rest) = not (c == 0)

-- `head`, at a 0 at the place `i`; `none` for no byte before it.
abbrev pub new_head : ℕ → ℕ → Option ℕ → ℕ
new_head i head none = i
new_head i head (some before) = if before == 0 then head else i + 1

-- The loop of `Start` over the bytes from `i` on, with `head` and the byte before them.
unfoldable pub scan : ℕ → ℕ → Option ℕ → Bytes → List Extent
scan i head before [] = []
scan i head before (c ∷ rest) =
    let head' = if c == 0 then new_head i head before else head in
    let later = scan (i + 1) head' (some c) rest in
    if c == 0 && (ends_zeros rest && leb head' i)
    then record { head = head'; tail = i } ∷ later
    else later

-- What `Start` leaves where the system calls succeed: `size` is `file_size_`, `file` the bytes of the
-- file "data", and `cache` what the array of pointers holds.
unfoldable pub open_index : ℕ → List (Bytes × ℕ) → Bytes → List (Option Bytes) → KvIndex
unfolding place_pairs scan
open_index size pairs file cache =
    let (kv, next) = place_pairs pairs ([], 0) in
    let store = take size (file ++ replicate size 0) in
    record {
      kv = kv;
      store = store;
      mapped = true;
      mem_list = scan 0 0 none store;
      cache_turn = 0;
      request = 0;
      hit = 0;
      cache_hit = 0;
      cache = cache;
      cache_element = replicate cache_size none;
      next_node = next;
    }

-- What `cin >> file_size_` and the loop behind it read: `none` where `file_size_` gets no value.
unfoldable pub read_key_file : Bytes → Option (ℕ × List (Bytes × ℕ))
unfolding read_number read_pairs
read_key_file text = elim (read_number text) [
  | some (size, rest) ↦ some (size, read_pairs (length rest) rest)
  | none ↦ elim (skip_space text) [ [] ↦ none | c ∷ rest ↦ some (0, []) ]
]

-- `Start`, of the texts of the files "key" and "data": the value returned with its sign changed, where
-- there is one, and the index. `mmap` of no bytes does not succeed.
unfoldable pub start : StartIo → Bytes → Bytes → List (Option Bytes) → Option (ℕ × Option KvIndex)
unfolding read_key_file open_index
start io text file cache = elim (read_key_file text) [
  | none ↦ none
  | some (size, pairs) ↦
      if not io.opens
      then some (1, none)
      else if not io.truncates
      then some (2, none)
      else if not io.maps || size == 0
      then some (3, none)
      else some (0, some (open_index size pairs file cache))
]
