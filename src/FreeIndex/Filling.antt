-- ===== src/FreeIndex/Filling.antt =====
-- `Insert` takes the first free part with room: `take_room` on the list, `fill` on the blocks.
pub mod Values
use native.Mathlib.Decide.{ℕ_discrete, dec_lt}
use simple_kv_svr.Base.{
  ℕ, zero, suc, ◌+◌, ◌-◌, ◌≤◌, ◌<◌, true, false, none, some, List, [], ◌∷◌, ◌++◌, length,
  length-append, length-replicate, take, drop, replicate, ◌==◌, if◌then◌else◌, Bytes, key_eq,
  key_eq_iff, ◌≡◌, refl, sym, ap, ◌∙◌, arith, Option-cases, inl, inr, append_assoc,
  take-append_past, drop-append_past, drop-replicate,
}
use simple_kv_svr.FreeIndex.{take_room, write_at}
use simple_kv_svr.FreeIndex.Blocks.{
  Block, bytes_of, total, frees, offset, value, is_plain, starts_used, IsTidy, fill,
}

pub take_room-none :
    (k v : Bytes) (a : ℕ) (blocks : List Block)
    → IsTidy blocks
    → fill k v blocks ≡ none
    → take_room (length v + 1) (frees a blocks) ≡ none
unfolding take_room frees fill IsTidy
take_room-none k v a [] t h = refl
take_room-none k v a (Block.free n ∷ blocks) (pos, alone, t) h =
    elim (Option-cases (fill k v blocks)) [
      | inl full ↦ ground (arith, take_room-none k v (a + n) blocks t full)
      | inr (rest, filled) ↦ absurd (ground arith)
    ]
take_room-none k v a (Block.used k' v' ∷ blocks) (plain, new, t) h =
    elim (Option-cases (fill k v blocks)) [
      | inl full ↦ take_room-none k v (a + (length v' + 1)) blocks t full
      | inr (rest, filled) ↦ absurd (ground arith)
    ]

-- What filling a block does to the places.
pub record IsFilled (k v : Bytes) (a p : ℕ) (blocks blocks' : List Block) : Type 0 where
  pub here : offset k a blocks' ≡ some (a + p)
  pub room : take_room (length v + 1) (frees a blocks) ≡ some (a + p, frees a blocks')
  pub bytes : write_at p (v ++ (0 ∷ [])) (bytes_of blocks) ≡ bytes_of blocks'
  pub same : total blocks' ≡ total blocks
  pub inside : p + (length v + 1) ≤ total blocks

-- Bytes written behind a first part leave it alone.
pub write_at-append :
    (first bs store : Bytes) (p q : ℕ)
    → q ≡ length first + p
    → write_at q bs (first ++ store) ≡ first ++ write_at p bs store
write_at-append first bs store p q h =
    ap (λ xs. xs ++ (bs ++ drop (q + length bs) (first ++ store)))
      (take-append_past first store p q h)
    ∙ ap (λ xs. (first ++ take p store) ++ (bs ++ xs))
        (drop-append_past first store (p + length bs) (q + length bs) (omega arith))
    ∙ append_assoc first (take p store) (bs ++ drop (p + length bs) store)

-- What is left of a free part of `n` bytes.
abbrev pub remainder : ℕ → ℕ → List Block → List Block
remainder n len blocks = if n == len then blocks else Block.free (n - len) ∷ blocks

replicate_none : (m : ℕ) → m ≡ 0 → replicate {A = ℕ} m 0 ≡ []
replicate_none zero e = refl
replicate_none (suc m) e = absurd (omega arith)

remainder-replicate :
    (n len : ℕ) (blocks : List Block)
    → len ≤ n
    → bytes_of (remainder n len blocks) ≡ replicate (n - len) 0 ++ bytes_of blocks
unfolding bytes_of
remainder-replicate n len blocks h = elim (ℕ_discrete n len) [
  | yes exact ↦ ground (arith, replicate_none (n - len))
  | no more ↦ ground arith
]

remainder-bytes :
    (n len : ℕ) (blocks : List Block)
    → len ≤ n
    → bytes_of (remainder n len blocks) ≡ drop len (replicate n 0 ++ bytes_of blocks)
remainder-bytes n len blocks h =
    remainder-replicate n len blocks h ∙ sym (drop-replicate len n 0 (bytes_of blocks) h)

remainder-frees :
    (n len a : ℕ) (blocks : List Block)
    → 0 < n
    → len ≤ n
    → frees (a + len) (remainder n len blocks) ≡ (
        if a + n - 1 + 1 - a == len
        then frees (a + n) blocks
        else record { head = a + len; tail = a + n - 1 } ∷ frees (a + n) blocks)
unfolding frees
remainder-frees n len a blocks pos h = elim (ℕ_discrete n len) [
  | yes exact ↦ ground arith
  | no more ↦ let e : a + len + (n - len) ≡ a + n = omega arith in ground arith
]

fill-here :
    (k v : Bytes) (a n : ℕ) (blocks : List Block)
    → 0 < n
    → length v + 1 ≤ n
    → IsFilled k v a 0 (Block.free n ∷ blocks) (Block.used k v ∷ remainder n (length v + 1) blocks)
unfolding take_room frees offset total bytes_of
fill-here k v a n blocks pos fits = record {
  here = ground (arith, key_eq_iff k k);
  room = ground (arith, remainder-frees n (length v + 1) a blocks);
  bytes =
      ap (λ m. (v ++ (0 ∷ [])) ++ drop m (replicate n 0 ++ bytes_of blocks))
        (omega (arith, length-append v (0 ∷ [])))
      ∙ ap (λ xs. (v ++ (0 ∷ [])) ++ xs) (sym (remainder-bytes n (length v + 1) blocks fits));
  same = ground arith;
  inside = omega arith;
}

pub fill-IsFilled :
    (k v : Bytes) (a : ℕ) (blocks blocks' : List Block)
    → IsTidy blocks
    → value k blocks ≡ none
    → fill k v blocks ≡ some blocks'
    → (p : ℕ) × IsFilled k v a p blocks blocks'
unfolding fill IsTidy value take_room frees offset total bytes_of
fill-IsFilled k v a [] blocks' t new h = absurd (cc)
fill-IsFilled k v a (Block.free n ∷ blocks) blocks' (pos, alone, t) new h =
    elim (dec_lt n (length v + 1)) [
      | yes small ↦ elim (Option-cases (fill k v blocks)) [
        | inl full ↦ absurd (ground arith)
        | inr (rest, filled) ↦
            let (p, ih) = fill-IsFilled k v (a + n) blocks rest t new filled in
            let e : blocks' ≡ Block.free n ∷ rest = ground arith in
            rw e (
              n + p,
              record {
                here = ground (arith, ih.here);
                room = ground (arith, ih.room);
                bytes =
                    write_at-append (replicate n 0) (v ++ (0 ∷ [])) (bytes_of blocks) p (n + p)
                      (omega (arith, length-replicate {A = ℕ} n 0))
                    ∙ ap (λ xs. replicate n 0 ++ xs) ih.bytes;
                same = omega (arith, ih.same);
                inside = omega (arith, ih.inside);
              },
            )
      ]
      | no large ↦
          let e : blocks' ≡ Block.used k v ∷ remainder n (length v + 1) blocks = ground arith in
          rw e (0, fill-here k v a n blocks pos (omega arith))
    ]
fill-IsFilled k v a (Block.used k' v' ∷ blocks) blocks' (plain, other, t) new h =
    elim (Option-cases (fill k v blocks)) [
      | inl full ↦ absurd (ground arith)
      | inr (rest, filled) ↦
          let (p, ih) =
            fill-IsFilled k v (a + (length v' + 1)) blocks rest t (ground arith) filled in
          let e : blocks' ≡ Block.used k' v' ∷ rest = ground arith in
          rw e (
            length v' + 1 + p,
            record {
              here = ground (arith, ih.here);
              room = ground (arith, ih.room);
              bytes =
                  write_at-append (v' ++ (0 ∷ [])) (v ++ (0 ∷ [])) (bytes_of blocks) p
                    (length v' + 1 + p) (omega (arith, length-append v' (0 ∷ [])))
                  ∙ ap (λ xs. (v' ++ (0 ∷ [])) ++ xs) ih.bytes;
              same = omega (arith, ih.same);
              inside = omega (arith, ih.inside);
            },
          )
    ]
