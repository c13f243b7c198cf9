-- ===== src/FreeIndex/Releasing.antt =====
-- `Delete` gives a value's bytes back: `add_free` on the list, `release` on the blocks.
pub mod Strings
use simple_kv_svr.Base.{
  ℕ, ◌+◌, ◌-◌, ◌≤◌, ◌<◌, true, some, List, [], ◌∷◌, ◌++◌, length, length-append, length-replicate,
  drop, replicate, Bytes, key_eq, ◌≡◌, ◌≢◌, refl, sym, ap, ◌∙◌, arith, Bool-cases, inl, inr,
  append_assoc, drop-append_length, drop-append_past,
}
use simple_kv_svr.SlotIndex.{c_string}
use simple_kv_svr.FreeIndex.{
  Extent, split_at, join_before, join_after, add_free, write_at, string_len,
}
use simple_kv_svr.FreeIndex.Blocks.{
  Block, bytes_of, total, frees, offset, value, is_plain, IsTidy, cons_free, release, offset-some,
  bytes_of-cons_free, replicate-add,
}
use simple_kv_svr.FreeIndex.Filling.{write_at-append}

-- Free parts behind the new one.
split_at-frees :
    (tail a : ℕ) (blocks : List Block)
    → tail < a
    → split_at tail (frees a blocks) ≡ ([], frees a blocks)
unfolding split_at frees
split_at-frees tail a [] h = refl
split_at-frees tail a (Block.free n ∷ blocks) h = ground arith
split_at-frees tail a (Block.used k v ∷ blocks) h =
    split_at-frees tail (a + (length v + 1)) blocks (omega arith)

join_after-far :
    (p : Extent) (a : ℕ) (blocks : List Block)
    → p.tail + 1 < a
    → join_after p (frees a blocks) ≡ p ∷ frees a blocks
unfolding join_after frees
join_after-far p a [] h = refl
join_after-far p a (Block.free n ∷ blocks) h = ground arith
join_after-far p a (Block.used k v ∷ blocks) h =
    join_after-far p (a + (length v + 1)) blocks (omega arith)

-- The part of `n` bytes in front of the blocks joins a free block there.
join_after-cons_free :
    (a n : ℕ) (blocks : List Block)
    → 0 < n
    → IsTidy blocks
    → join_after (record { head = a; tail = a + n - 1 }) (frees (a + n) blocks)
      ≡ frees a (cons_free n blocks)
unfolding join_after frees IsTidy
join_after-cons_free a n [] h t = refl
join_after-cons_free a n (Block.free m ∷ blocks) h t =
    let e : a + n + m ≡ a + (n + m) = omega arith in ground arith
join_after-cons_free a n (Block.used k v ∷ blocks) h t =
    join_after-far (record { head = a; tail = a + n - 1 }) (a + n + (length v + 1)) blocks
      (omega arith)

-- A part that begins before the new one, and does not touch it, stays.
join_before-skip :
    (e p : Extent) (before after : List Extent)
    → p.head ≢ e.tail + 1
    → (let (rest, q) = join_before (e ∷ before) p in rest ++ join_after q after)
      ≡ e ∷ (let (rest, q) = join_before before p in rest ++ join_after q after)
unfolding join_before
join_before-skip e p [] after h = ground arith
join_before-skip e p (f ∷ before) after h = refl

add_free-skip :
    (e p : Extent) (extents : List Extent)
    → e.head ≤ p.tail
    → p.head ≢ e.tail + 1
    → add_free p (e ∷ extents) ≡ e ∷ add_free p extents
unfolding add_free split_at
add_free-skip e p extents low apart =
    ground
      (arith, join_before-skip e p (split_at p.tail extents).0 (split_at p.tail extents).1 apart)

-- A new part in front of the blocks.
add_free-front :
    (p : Extent) (a : ℕ) (blocks : List Block)
    → p.tail < a
    → add_free p (frees a blocks) ≡ join_after p (frees a blocks)
unfolding add_free join_before
add_free-front p a blocks h = ground (arith, split_at-frees p.tail a blocks h)

-- A part that the new one, in front of the blocks, touches.
add_free-touch :
    (e p : Extent) (a : ℕ) (blocks : List Block)
    → e.head ≤ p.tail
    → p.head ≡ e.tail + 1
    → p.tail < a
    → add_free p (e ∷ frees a blocks) ≡ join_after (record p { head = e.head }) (frees a blocks)
unfolding add_free join_before split_at
add_free-touch e p a blocks low touch h = ground (arith, split_at-frees p.tail a blocks h)

cons_free_twice :
    (n m : ℕ) (blocks : List Block) → cons_free n (cons_free m blocks) ≡ cons_free (n + m) blocks
cons_free_twice n m [] = refl
cons_free_twice n m (Block.free l ∷ blocks) = ap (λ k. Block.free k ∷ blocks) (omega arith)
cons_free_twice n m (Block.used k v ∷ blocks) = refl

-- The part of a value.
abbrev pub extent_of : ℕ → Bytes → Extent
extent_of o v = record { head = o; tail = o + length v }

pub release-frees :
    (key v : Bytes) (a o : ℕ) (blocks : List Block)
    → IsTidy blocks
    → value key blocks ≡ some v
    → offset key a blocks ≡ some o
    → add_free (extent_of o v) (frees a blocks) ≡ frees a (release key blocks)
unfolding IsTidy value offset frees release
release-frees key v a o [] t h at = absurd (cc)
release-frees key v a o (Block.used k w ∷ blocks) (plain, new, t) h at =
    elim (Bool-cases (key_eq k key)) [
      | inl same ↦
          let e : o ≡ a = ground arith in
          let e' : v ≡ w = ground arith in
          rw (same, e, e')
            (add_free-front (extent_of a w) (a + (length w + 1)) blocks (omega arith)
              ∙ ap
                  (λ tail.
                    join_after (record { head = a; tail = tail })
                      (frees (a + (length w + 1)) blocks))
                  (omega arith)
              ∙ join_after-cons_free a (length w + 1) blocks (omega arith) t)
      | inr other ↦ ground (arith, release-frees key v (a + (length w + 1)) o blocks t)
    ]
release-frees key v a o (Block.free n ∷ []) (pos, alone, t) h at = absurd (cc)
release-frees key v a o (Block.free n ∷ Block.free m ∷ blocks) (pos, alone, t) h at = absurd (cc)
release-frees key v a o (Block.free n ∷ Block.used k w ∷ blocks) (pos, alone, (plain, new, t)) h
      at =
    elim (Bool-cases (key_eq k key)) [
      | inl same ↦
          let e : o ≡ a + n = ground arith in
          let e' : v ≡ w = ground arith in
          let far = a + n + (length w + 1) in
          let near = a + (n + (length w + 1)) in
          let first : Extent = record { head = a; tail = a + n - 1 } in
          rw (same, e, e')
            (add_free-touch first (extent_of (a + n) w) far blocks (omega arith) (omega arith)
                (omega arith)
              ∙ ap (λ tail. join_after (record { head = a; tail = tail }) (frees far blocks))
                  (omega arith)
              ∙ ap (λ b. join_after (record { head = a; tail = near - 1 }) (frees b blocks))
                  (omega arith)
              ∙ join_after-cons_free a (n + (length w + 1)) blocks (omega arith) t
              ∙ ap (λ l. frees a l) (sym (cons_free_twice n (length w + 1) blocks)))
      | inr other ↦
          let later =
            release-frees key v (a + n) o (Block.used k w ∷ blocks) (plain, new, t) h at in
          let (o', at', low, high) =
            offset-some key v (a + n + (length w + 1)) blocks (ground arith) in
          let first : Extent = record { head = a; tail = a + n - 1 } in
          let same_place : o' ≡ o = ground arith in
          let skip =
            add_free-skip first (extent_of o v) (frees (a + n) (Block.used k w ∷ blocks))
              (omega arith) (omega arith) in
          ground (arith, later, skip)
    ]
