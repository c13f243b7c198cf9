-- ===== src/FreeIndex/Tests.antt =====
-- Runs of the index of simplekvsvr/KVIndex.h, and its theorems at small files.
use simple_kv_svr.Base.{
  ℕ, ◌+◌, ◌≤◌, ◌<◌, true, false, Option, none, some, List, [], ◌∷◌, length, length-replicate,
  replicate, get_elem?, get_or, Bytes, lookup, assign, erase, key_eq, key_eq_iff, codes, decimal,
  ◌≡◌, refl, sym, ap, ◌∙◌, arith, ◌⊎◌,
}
use simple_kv_svr.SlotIndex.{cache_size, is_live, c_string}
use simple_kv_svr.FreeIndex.{
  Extent, KvIndex, grow, resize, take_room, put_string, insert_round, insert, split_at, join_before,
  join_after, add_free, string_len, erase_cache, delete, set,
}
use simple_kv_svr.FreeIndex.Blocks.{Block, bytes_of, frees, total, IsTidy, value, offset, is_plain}
use simple_kv_svr.FreeIndex.Cache.{get, exist, turn}
use simple_kv_svr.FreeIndex.Cache.Reading.{get-value}
use simple_kv_svr.FreeIndex.Disk.{
  quit, start, read_key_file, read_number, skip_space, by_key, put_sorted, key_lt, key_lines,
  place_pairs, open_index, scan,
}
use simple_kv_svr.FreeIndex.Disk.KeyFile.{is_word, has_no_space}
use simple_kv_svr.FreeIndex.Disk.Scanning.{has_texts}
use simple_kv_svr.FreeIndex.Disk.Restart.{all_well, start-quit}
use simple_kv_svr.FreeIndex.Holds.{Holds}
use simple_kv_svr.FreeIndex.Inserting.{IsDone, set-IsDone}
use simple_kv_svr.FreeIndex.Space.{IsAt, IsFreeAt, run_layout}
use simple_kv_svr.FreeIndex.Calls.{Update, run, after, are_fair}
use simple_kv_svr.FreeIndex.Session.{new_index, run_restart}

abbrev strings : List (Option Bytes)
strings = replicate cache_size none

strings_size : length strings ≡ cache_size
strings_size = length-replicate {A = Option Bytes} cache_size none

abbrev new_file : KvIndex
new_file = new_index 8 strings

-- Two values, the first one freed again, and one too long for the 8 bytes.
abbrev updates : List Update
updates =
    Update.put (codes "a") (codes "xy")
    ∷ Update.put (codes "b") (codes "z")
    ∷ Update.drop (codes "a")
    ∷ Update.put (codes "c") (codes "long text")
    ∷ Update.drop (codes "d")
    ∷ []

-- The file and the free parts.
abbrev layout : Option KvIndex → Bytes × List Extent
layout none = ([], [])
layout (some s) = (s.store, s.mem_list)

abbrev bounds : ℕ → ℕ → Extent
bounds head tail = record { head = head; tail = tail }

-- The room of "a" is free, and the long text stands behind "b" in the file of 16 bytes.
updates-layout : layout (run updates new_file) ≡ (
  0 ∷ 0 ∷ 0 ∷ 122 ∷ 0 ∷ 108 ∷ 111 ∷ 110 ∷ 103 ∷ 32 ∷ 116 ∷ 101 ∷ 120 ∷ 116 ∷ 0 ∷ 0 ∷ [],
  bounds 0 2 ∷ bounds 15 15 ∷ [],
)
unfolding run set insert insert_round take_room put_string resize grow delete add_free split_at
    join_before join_after string_len erase_cache lookup assign erase key_eq c_string open_index
    place_pairs scan
updates-layout = refl

-- What `Quit` writes for it.
abbrev key_file : Option KvIndex → Bytes
key_file none = []
key_file (some s) = quit s

updates-key_file : key_file (run updates new_file) ≡ codes "16\nb 3\nc 5\nhere\n"
unfolding run set insert insert_round take_room put_string resize grow delete add_free split_at
    join_before join_after string_len erase_cache lookup assign erase key_eq c_string open_index
    place_pairs scan quit by_key put_sorted key_lt key_lines decimal
updates-key_file = refl

-- No number in the file "key".
start_no_size : start all_well (codes "x 3") [] strings ≡ some (3, none)
unfolding start read_key_file read_number skip_space
start_no_size = refl

start_empty : start all_well [] [] strings ≡ none
unfolding start read_key_file read_number skip_space
start_empty = refl

run_restart_example :
    (s s' : KvIndex) × (run updates new_file ≡ some s)
    × (start all_well (quit s) s.store strings ≡ some (0, some s'))
    × ((k : Bytes)
        → (exist k s').0 ≡ (elim (lookup k (after updates [])) [ none ↦ false | some w ↦ true ]))
    × ((k w : Bytes)
        → lookup k (after updates []) ≡ some w
        → (s'' : KvIndex) × (get k s' ≡ some (w, s'')))
unfolding are_fair has_no_space is_plain
run_restart_example =
    run_restart 8 strings strings updates (omega arith) strings_size strings_size refl

-- A value at the start of a file of 8 bytes.
abbrev one_value : KvIndex
one_value = record {
  kv = (codes "k", record { node = 0; cached = none; slot = 0 }) ∷ [];
  store = 120 ∷ replicate 7 0;
  mapped = true;
  mem_list = bounds 2 7 ∷ [];
  cache_turn = 0;
  request = 0;
  hit = 0;
  cache_hit = 0;
  cache = strings;
  cache_element = replicate cache_size none;
  next_node = 1;
}

abbrev one_block : List Block
one_block = Block.used (codes "k") (codes "x") ∷ Block.free 6 ∷ []

one_value-Holds : Holds one_value one_block
unfolding IsTidy bytes_of frees total value offset is_plain lookup
one_value-Holds = record {
  mapped = refl;
  positive = omega arith;
  store = refl;
  mem_list = refl;
  tidy = (refl, refl, (omega arith, refl, tt));
  slots = λ k. ground arith;
  ring = record {
    elements = length-replicate {A = Option ℕ} cache_size none;
    strings = strings_size;
    copies = λ k e c h hc. ground arith;
  };
}

-- A longer value in its place: 17 bytes with its 0 need a file of 32.
set-IsDone_example :
    IsDone
      (λ n. true)
      (codes "k")
      (codes "sixteen letters!")
      one_block
      (set 19 (λ n. true) (codes "k") (codes "sixteen letters!") one_value)
unfolding is_plain
set-IsDone_example =
    set-IsDone 19 (λ n. true) (codes "k") (codes "sixteen letters!") one_value one_block
      one_value-Holds refl (omega arith)

k-is_word : (k : Bytes) → key_eq (codes "k") k ≡ true → is_word k ≡ true
unfolding has_no_space
k-is_word k h = sym (ap is_word ((key_eq_iff (codes "k") k).0 h)) ∙ refl

get-value_example :
    ((p : ℕ) × (get_or one_value.cache_element (turn one_value) none ≡ some p)
      × (is_live p one_value.kv ≡ false)
      × (get (codes "k") one_value ≡ none))
    ⊎ ((s' : KvIndex) × (get (codes "k") one_value ≡ some (codes "x", s')) × Holds s' one_block)
unfolding value key_eq
get-value_example = get-value (codes "k") (codes "x") one_value one_block one_value-Holds refl

start-quit_example :
    (s' : KvIndex) × (start all_well (quit one_value) one_value.store strings ≡ some (0, some s'))
    × Holds s' one_block
    × (s'.mem_list ≡ one_value.mem_list)
    × ((c : ℕ) → get_or s'.cache_element c none ≡ none)
unfolding value has_texts
start-quit_example =
    start-quit strings one_value one_block strings_size one_value-Holds refl
      (λ k w h. k-is_word k (ground (arith, h)))

run_layout_example :
    (s : KvIndex) × (run updates new_file ≡ some s)
    × ((i : ℕ) (e : Extent)
        → get_elem? s.mem_list i ≡ some e
        → (e.head ≤ e.tail)
          × (e.tail < length s.store)
          × ((key w : Bytes)
              → lookup key (after updates []) ≡ some w
              → (o : ℕ) × IsAt s key o × ((o + length w < e.head) ⊎ (e.tail < o))))
    × ((p : ℕ)
        → p < length s.store
        → IsFreeAt p s.mem_list
          ⊎ ((key : Bytes) × (w : Bytes) × (o : ℕ) × (lookup key (after updates []) ≡ some w)
              × IsAt s key o
              × (o ≤ p)
              × (p ≤ o + length w)))
unfolding are_fair has_no_space is_plain
run_layout_example = run_layout 8 strings updates (omega arith) strings_size refl
