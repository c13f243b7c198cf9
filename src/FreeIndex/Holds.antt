-- ===== src/FreeIndex/Holds.antt =====
-- The state of the index for a list of blocks, and what `Delete`, `Insert` and `Resize` make of it.
use simple_kv_svr.Base.{
  ℕ, ◌+◌, ◌≤◌, ◌<◌, true, false, none, some, List, length, length-append, replicate, ◌++◌, [], ◌∷◌,
  Bytes, lookup, erase, lookup-erase, lookup-assign, key_eq_iff, ◌≡◌, ◌≢◌, ap, ◌∙◌, arith,
  Option-cases, inl, inr,
}
use simple_kv_svr.SlotIndex.{Entry, c_string}
use simple_kv_svr.FreeIndex.{
  Extent, KvIndex, write_at, take_room, put_string, add_free, point_to, insert_round, drop_cached,
  give_back, len_at, delete,
}
use simple_kv_svr.FreeIndex.Blocks.{
  Block, bytes_of, total, frees, offset, value, IsTidy, release, offset-none, value-release,
  offset-release, total-release, release-IsTidy,
}
use simple_kv_svr.FreeIndex.Releasing.{release-frees, extent_of}
use simple_kv_svr.FreeIndex.Releasing.Strings.{IsStored, value-IsStored}
use simple_kv_svr.FreeIndex.Ring.{HasRing, KeepsFile, slot_of, drop_cached-HasRing, erase-HasRing}

pub record Holds (s : KvIndex) (blocks : List Block) : Type 0 where
  pub mapped : s.mapped ≡ true
  pub positive : 0 < total blocks
  pub store : s.store ≡ bytes_of blocks
  pub mem_list : s.mem_list ≡ frees 0 blocks
  pub tidy : IsTidy blocks
  pub slots : (k : Bytes) → slot_of s.kv k ≡ offset k 0 blocks
  pub ring : HasRing s (λ k. value k blocks)

-- A key has an element of the map just where it has a value.
pub lookup-none :
    (key : Bytes) (s : KvIndex) (blocks : List Block)
    → Holds s blocks
    → value key blocks ≡ none
    → lookup key s.kv ≡ none
lookup-none key s blocks v new = elim (Option-cases (lookup key s.kv)) [
  | inl absent ↦ absent
  | inr (e, found) ↦ absurd (ground (arith, v.slots key, offset-none key 0 blocks new))
]

pub lookup-some :
    (key : Bytes) (p : ℕ) (s : KvIndex) (blocks : List Block)
    → Holds s blocks
    → offset key 0 blocks ≡ some p
    → (e : Entry) × (lookup key s.kv ≡ some e) × (e.slot ≡ p)
lookup-some key p s blocks v at = elim (Option-cases (lookup key s.kv)) [
  | inl absent ↦ absurd (ground (arith, v.slots key))
  | inr (e, found) ↦ (e, found, ground (arith, v.slots key))
]

pub delete-missing :
    (key : Bytes) (s : KvIndex) (blocks : List Block)
    → Holds s blocks
    → value key blocks ≡ none
    → delete key s ≡ some (false, s)
unfolding delete
delete-missing key s blocks v new = ground (arith, lookup-none key s blocks v new)

-- The last steps of `Delete`, after the value was given back.
released :
    (key : Bytes) (e : Entry) (s t : KvIndex) (blocks : List Block)
    → Holds s blocks
    → HasRing t (λ k. value k blocks)
    → KeepsFile
        (record s {
          store = bytes_of (release key blocks);
          mem_list = frees 0 (release key blocks);
        })
        t
    → Holds (record t { kv = erase key t.kv }) (release key blocks)
released key e s t blocks v ring keeps = record {
  mapped = keeps.mapped ∙ v.mapped;
  positive = omega (arith, v.positive, total-release key blocks);
  store = keeps.store;
  mem_list = keeps.mem_list;
  tidy = release-IsTidy key blocks v.tidy;
  slots = λ k. ground (
    arith,
    lookup-erase key k t.kv,
    keeps.slots k,
    v.slots k,
    offset-release key k 0 blocks v.tidy,
  );
  ring =
      erase-HasRing key t (λ k. value k blocks) (λ k. value k (release key blocks)) ring
        (λ k other. ground (arith, value-release key k blocks v.tidy, key_eq_iff key k));
}

give_back-release :
    (key w : Bytes) (p : ℕ) (s : KvIndex) (blocks : List Block)
    → Holds s blocks
    → value key blocks ≡ some w
    → IsStored key w 0 p blocks
    → give_back p (length w) s
      ≡ record s { store = bytes_of (release key blocks); mem_list = frees 0 (release key blocks) }
give_back-release key w p s blocks v here stored =
    ap (λ l. record s { store = write_at p (replicate (length w) 0) s.store; mem_list = l })
      (ap (add_free (extent_of p w)) v.mem_list
        ∙ release-frees key w 0 p blocks v.tidy here
            (stored.there ∙ ap (λ o. some o) (omega arith)))
    ∙ ap (λ bs. record s { store = bs; mem_list = frees 0 (release key blocks) })
        (ap (write_at p (replicate (length w) 0)) v.store ∙ stored.bytes)

delete-steps :
    (key : Bytes) (n : ℕ) (e : Entry) (s t : KvIndex)
    → lookup key s.kv ≡ some e
    → len_at e.slot s ≡ some n
    → drop_cached e.cached (give_back e.slot n s) ≡ some t
    → delete key s ≡ some (true, record t { kv = erase key t.kv })
unfolding delete
delete-steps key n e s t found len dropped = ground arith

pub delete-Holds :
    (key w : Bytes) (s : KvIndex) (blocks : List Block)
    → Holds s blocks
    → value key blocks ≡ some w
    → (s' : KvIndex) × (delete key s ≡ some (true, s')) × Holds s' (release key blocks)
delete-Holds key w s blocks v here =
    let (p, stored) = value-IsStored key w 0 blocks v.tidy here in
    let (e, found, at) =
      lookup-some key p s blocks v (stored.there ∙ ap (λ o. some o) (omega arith)) in
    let given = record s {
      store = bytes_of (release key blocks);
      mem_list = frees 0 (release key blocks);
    } in
    let ring : HasRing given (λ k. value k blocks) = record {
      elements = v.ring.elements;
      strings = v.ring.strings;
      copies = v.ring.copies;
    } in
    let (t, dropped, ring', keeps) =
      drop_cached-HasRing key e given (λ k. value k blocks) ring found in
    let back = give_back-release key w p s blocks v here stored in
    (
      record t { kv = erase key t.kv },
      delete-steps key (length w) e s t found (ground (arith, at, v.mapped, v.store, stored.len)) (
          ap (λ o. drop_cached e.cached (give_back o (length w) s)) at
          ∙ ap (drop_cached e.cached) back
          ∙ dropped),
      released key e s t blocks v ring' keeps,
    )

-- The map of `Insert` for a new key.
pub point_to-HasRing :
    (key w : Bytes) (at : ℕ) (s : KvIndex) (blocks blocks' : List Block)
    → Holds s blocks
    → value key blocks ≡ none
    → ((k : Bytes) → key ≢ k → value k blocks' ≡ value k blocks)
    → HasRing (point_to key at s) (λ k. value k blocks')
point_to-HasRing key w at s blocks blocks' v new same =
    let absent = lookup-none key s blocks v new in
    let added : Entry = record { node = s.next_node; cached = none; slot = at } in
    record {
      elements = ground (arith, v.ring.elements);
      strings = ground (arith, v.ring.strings);
      copies = λ k e c h hc.
          ground
            (arith, lookup-assign key k added s.kv, v.ring.copies k e c, same k, key_eq_iff key k);
    }

pub insert_round-steps :
    (key w : Bytes) (at : ℕ) (rest : List Extent) (s : KvIndex)
    → take_room (length w + 1) s.mem_list ≡ some (at, rest)
    → lookup key s.kv ≡ none
    → s.mapped ≡ true
    → c_string w ≡ w
    → at + (length w + 1) ≤ length s.store
    → insert_round key w s
      ≡ some (
        true,
        record (point_to key at s) { store = write_at at (w ++ (0 ∷ [])) s.store; mem_list = rest },
      )
unfolding insert_round put_string
insert_round-steps key w at rest s room absent mapped plain fits =
    ground (arith, length-append w (0 ∷ []))
