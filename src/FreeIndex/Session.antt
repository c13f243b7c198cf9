-- ===== src/FreeIndex/Session.antt =====
-- A run of `Set` and `Delete` on a new index, then `Quit`, `Start` and `Get`, against a dictionary.
use simple_kv_svr.Base.{
  ℕ, zero, suc, ◌<◌, true, false, Option, none, some, List, [], ◌∷◌, length, length-replicate,
  replicate, take, append-nil, get_or, Bytes, Dict, lookup, key_eq_iff, ◌≡◌, refl, sym, ap, ◌∙◌,
  arith, Option-cases, inl, inr,
}
use simple_kv_svr.SlotIndex.{cache_size}
use simple_kv_svr.FreeIndex.{KvIndex}
use simple_kv_svr.FreeIndex.Blocks.{
  Block, bytes_of, frees, total, value, offset, IsTidy, offset-none, offset-some,
}
use simple_kv_svr.FreeIndex.Holds.{Holds}
use simple_kv_svr.FreeIndex.Cache.{get, exist, turn}
use simple_kv_svr.FreeIndex.Cache.Reading.{get-value}
use simple_kv_svr.FreeIndex.Disk.{quit, start, open_index, place_pairs, scan}
use simple_kv_svr.FreeIndex.Disk.Scanning.{has_texts, scan-frees}
use simple_kv_svr.FreeIndex.Disk.Restart.{all_well, start-quit}
use simple_kv_svr.FreeIndex.Calls.{Update, run, after, is_text, are_fair, Agrees, run-Holds}

-- Values that are not empty, by their keys.
values-has_texts :
    (blocks : List Block)
    → IsTidy blocks
    → ((k w : Bytes) → value k blocks ≡ some w → is_text w ≡ true)
    → has_texts blocks ≡ true
unfolding IsTidy has_texts value
values-has_texts [] t h = refl
values-has_texts (Block.free n ∷ blocks) (pos, alone, t) h = values-has_texts blocks t h
values-has_texts (Block.used k [] ∷ blocks) (plain, new, t) h =
    absurd (ground (arith, h k [], key_eq_iff k k))
values-has_texts (Block.used k (c ∷ v) ∷ blocks) (plain, new, t) h =
    values-has_texts blocks t (λ j w here. h j w (ground (arith, key_eq_iff k j)))

-- What `Start` makes of a file "key" with a number only, and no data: a file of so many zeros.
abbrev pub new_index : ℕ → List (Option Bytes) → KvIndex
new_index n cache = open_index n [] [] cache

pub new_index-Holds :
    (n : ℕ) (cache : List (Option Bytes))
    → 0 < n
    → length cache ≡ cache_size
    → Holds (new_index n cache) (Block.free n ∷ [])
unfolding open_index lookup IsTidy bytes_of frees total value offset place_pairs
new_index-Holds n cache pos len =
    let whole = take_all n in
    record {
      mapped = refl;
      positive = omega arith;
      store = whole ∙ sym (append-nil (replicate n 0));
      mem_list =
          ap (scan 0 0 none) (whole ∙ sym (append-nil (replicate n 0)))
          ∙ scan-frees 0 0 none (Block.free n ∷ []) (pos, refl, tt)
              (values-has_texts (Block.free n ∷ []) (pos, refl, tt) (λ k w h. absurd (cc)))
              (inr refl);
      tidy = (pos, refl, tt);
      slots = λ k. refl;
      ring = record {
        elements = length-replicate {A = Option ℕ} cache_size none;
        strings = len;
        copies = λ k e c h hc. absurd (cc);
      };
    }
  where
    take_all : (n : ℕ) → take n (replicate {A = ℕ} n 0) ≡ replicate n 0
    take_all zero = refl
    take_all (suc n) = ap (λ xs. 0 ∷ xs) (take_all n)

get-free :
    (key w : Bytes) (s : KvIndex) (blocks : List Block)
    → Holds s blocks
    → value key blocks ≡ some w
    → ((c : ℕ) → get_or s.cache_element c none ≡ none)
    → (s' : KvIndex) × (get key s ≡ some (w, s'))
get-free key w s blocks v here free = elim (get-value key w s blocks v here) [
  | inl (p, own, dead, bad) ↦ absurd (ground (arith, free (turn s)))
  | inr (s', got, holds) ↦ (s', got)
]

exist-value :
    (key : Bytes) (s : KvIndex) (blocks : List Block) (d : Dict Bytes)
    → Holds s blocks
    → value key blocks ≡ lookup key d
    → (exist key s).0 ≡ (elim (lookup key d) [ none ↦ false | some w ↦ true ])
unfolding exist
exist-value key s blocks d v same = elim (Option-cases (value key blocks)) [
  | inl new ↦ ground (arith, v.slots key, offset-none key 0 blocks new)
  | inr (w, here) ↦
      let (o, at, low, high) = offset-some key w 0 blocks here in ground (arith, v.slots key)
]

pub run_new :
    (n : ℕ) (cache : List (Option Bytes)) (updates : List Update)
    → 0 < n
    → length cache ≡ cache_size
    → are_fair updates ≡ true
    → (s : KvIndex) × (blocks : List Block) × (run updates (new_index n cache) ≡ some s)
      × Holds s blocks
      × Agrees blocks (after updates [])
unfolding value lookup
run_new n cache updates pos len fair =
    let empty : Agrees (Block.free n ∷ []) [] = record {
      same = λ k. refl;
      fair = λ k w h. absurd (cc);
    } in
    run-Holds updates (new_index n cache) (Block.free n ∷ []) [] (new_index-Holds n cache pos len)
      empty fair

-- A run of `Set` and `Delete` on a new file of `n` zeros, where the system calls succeed, of keys without
-- white space and values that are not empty and have no 0: every call returns. After `Quit` and `Start`, `Exist` tells
-- of every key whether the dictionary has it, and `Get` returns the value that the dictionary has.
pub run_restart :
    (n : ℕ) (cache cache' : List (Option Bytes)) (updates : List Update)
    → 0 < n
    → length cache ≡ cache_size
    → length cache' ≡ cache_size
    → are_fair updates ≡ true
    → (s s' : KvIndex) × (run updates (new_index n cache) ≡ some s)
      × (start all_well (quit s) s.store cache' ≡ some (0, some s'))
      × ((k : Bytes)
          → (exist k s').0 ≡ (elim (lookup k (after updates [])) [ none ↦ false | some w ↦ true ]))
      × ((k w : Bytes)
          → lookup k (after updates []) ≡ some w
          → (s'' : KvIndex) × (get k s' ≡ some (w, s'')))
run_restart n cache cache' updates pos len len' fair =
    let (s, blocks, ran, holds, agrees) = run_new n cache updates pos len fair in
    let texts =
      values-has_texts blocks holds.tidy (λ k w h. (agrees.fair k w (sym (agrees.same k) ∙ h)).1) in
    let (s', started, holds', parts, free) =
      start-quit cache' s blocks len' holds texts
        (λ k w h. (agrees.fair k w (sym (agrees.same k) ∙ h)).0) in
    (
      s,
      s',
      ran,
      started,
      λ k. exist-value k s' blocks (after updates []) holds' (agrees.same k),
      λ k w h. get-free k w s' blocks holds' (agrees.same k ∙ h) free,
    )
