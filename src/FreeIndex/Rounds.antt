-- ===== src/FreeIndex/Rounds.antt =====
-- The rounds of `Insert`: one that finds room, one that finds none, and the file after `Resize`.
use simple_kv_svr.Base.{
  ◌+◌, true, false, none, some, List, length, replicate, if◌then◌else◌, ◌++◌, [], ◌∷◌, Bytes,
  lookup-assign, key_eq, key_eq_iff, ◌≡◌, refl, sym, ap, ◌∙◌, arith,
}
use simple_kv_svr.SlotIndex.{Entry, c_string}
use simple_kv_svr.FreeIndex.{KvIndex, grow, insert_round, resize}
use simple_kv_svr.FreeIndex.Blocks.{
  Block, total, frees, value, is_plain, fill, extend, length-bytes_of,
}
use simple_kv_svr.FreeIndex.Filling.{take_room-none, fill-IsFilled}
use simple_kv_svr.FreeIndex.Filling.Values.{value-fill, offset-fill, fill-IsTidy}
use simple_kv_svr.FreeIndex.Growing.{
  grow-extend, bytes_of-extend, total-extend, value-extend, offset-extend, extend-IsTidy,
}
use simple_kv_svr.FreeIndex.Holds.{Holds, lookup-none, point_to-HasRing, insert_round-steps}

is_plain-c_string : (w : Bytes) → is_plain w ≡ true → c_string w ≡ w
unfolding c_string is_plain
is_plain-c_string [] h = refl
is_plain-c_string (c ∷ w) h = ground (arith, is_plain-c_string w)

-- What the keys have after a key got a value.
abbrev pub IsUpdated : Bytes → Bytes → List Block → List Block → Type 0
IsUpdated key w blocks blocks' =
    (k : Bytes) → value k blocks' ≡ (if key_eq key k then some w else value k blocks)

-- A round that finds room.
pub insert_round-Holds :
    (key w : Bytes) (s : KvIndex) (blocks blocks' : List Block)
    → Holds s blocks
    → value key blocks ≡ none
    → is_plain w ≡ true
    → fill key w blocks ≡ some blocks'
    → (s' : KvIndex) × (insert_round key w s ≡ some (true, s')) × Holds s' blocks'
insert_round-Holds key w s blocks blocks' v new plain filled =
    let (p, f) = fill-IsFilled key w 0 blocks blocks' v.tidy new filled in
    let absent = lookup-none key s blocks v new in
    let updated = λ (k : Bytes). value-fill key w k blocks blocks' filled new in
    let at : 0 + p ≡ p = omega arith in
    let ring =
      point_to-HasRing key w p s blocks blocks' v new
        (λ k other. ground (arith, updated k, key_eq_iff key k)) in
    let added : Entry = record { node = s.next_node; cached = none; slot = p } in
    (
      _,
      insert_round-steps key w p (frees 0 blocks') s (ground (arith, v.mem_list, f.room)) absent
          v.mapped (is_plain-c_string w plain)
          (omega (arith, f.inside, length-bytes_of blocks, ap length v.store)),
      record {
        mapped = ground (arith, v.mapped);
        positive = omega (arith, f.same, v.positive);
        store = ground (arith, v.store, f.bytes);
        mem_list = refl;
        tidy = fill-IsTidy key w blocks blocks' filled new plain v.tidy;
        slots = λ k. ground (
          arith,
          v.slots k,
          lookup-assign key k added s.kv,
          offset-fill key w k 0 blocks blocks' filled new,
          f.here,
          key_eq_iff key k,
        );
        ring = record { elements = ring.elements; strings = ring.strings; copies = ring.copies };
      },
    )

pub insert_round-full :
    (key w : Bytes) (s : KvIndex) (blocks : List Block)
    → Holds s blocks
    → fill key w blocks ≡ none
    → insert_round key w s ≡ some (false, s)
unfolding insert_round
insert_round-full key w s blocks v full =
    ground (arith, v.mem_list, take_room-none key w 0 blocks v.tidy full)

-- The file after `Resize`.
abbrev pub larger : KvIndex → KvIndex
larger s = (resize true s).1

pub resize-Holds :
    (s : KvIndex) (blocks : List Block)
    → Holds s blocks
    → Holds (larger s) (extend (total blocks) blocks)
unfolding resize
resize-Holds s blocks v =
    let len = ap length v.store ∙ length-bytes_of blocks in
    record {
      mapped = refl;
      positive = omega (arith, v.positive, total-extend (total blocks) blocks);
      store =
          ap (λ n. s.store ++ replicate n 0) len
          ∙ ap (λ xs. xs ++ replicate (total blocks) 0) v.store
          ∙ sym (bytes_of-extend (total blocks) blocks);
      mem_list =
          ap (λ n. grow n s.mem_list) len
          ∙ ap (grow (total blocks)) v.mem_list
          ∙ grow-extend 0 (total blocks) blocks v.tidy (omega arith) v.positive;
      tidy = extend-IsTidy (total blocks) blocks v.positive v.tidy;
      slots = λ k. v.slots k ∙ sym (offset-extend k 0 (total blocks) blocks);
      ring = record {
        elements = v.ring.elements;
        strings = v.ring.strings;
        copies =
            λ k e c h hc. ground (arith, v.ring.copies k e c, value-extend k (total blocks) blocks);
      };
    }
