-- ===== src/FreeIndex/Growing.antt =====
-- `Resize` puts a free part behind the others: `grow` on the list, `extend` on the blocks.
use native.Mathlib.Decide.{dec_lt}
use simple_kv_svr.Base.{
  ℕ, ◌+◌, ◌-◌, ◌≤◌, ◌<◌, some, List, [], ◌∷◌, ◌++◌, length, replicate, Bytes, ◌≡◌, ◌≢◌, refl, sym,
  ap, ◌∙◌, arith, append_assoc, append-nil,
}
use simple_kv_svr.FreeIndex.{Extent, grow}
use simple_kv_svr.FreeIndex.Blocks.{
  Block, bytes_of, total, frees, offset, value, IsTidy, fill, extend, replicate-add,
}
use simple_kv_svr.FreeIndex.Filling.{remainder}

grow-cons :
    (e : Extent) (n : ℕ) (extents : List Extent)
    → e.tail + 1 ≢ n
    → grow n (e ∷ extents) ≡ e ∷ grow n extents
unfolding grow
grow-cons e n [] h = ground arith
grow-cons e n (f ∷ extents) h = refl

-- The blocks end at `n`.
pub grow-extend :
    (a n : ℕ) (blocks : List Block)
    → IsTidy blocks
    → a + total blocks ≡ n
    → 0 < n
    → grow n (frees a blocks) ≡ frees a (extend n blocks)
unfolding grow frees extend total IsTidy
grow-extend a n [] t e pos = ground arith
grow-extend a n (Block.free m ∷ []) (some_bytes, alone, t) e pos = ground arith
grow-extend a n (Block.free m ∷ Block.free l ∷ blocks) (some_bytes, alone, t) e pos = absurd (cc)
grow-extend a n (Block.free m ∷ Block.used k v ∷ blocks) (some_bytes, alone, t) e pos =
    grow-cons (record { head = a; tail = a + m - 1 }) n (frees (a + m + (length v + 1)) blocks)
      (omega arith)
    ∙ ap (λ l. record { head = a; tail = a + m - 1 } ∷ l)
        (grow-extend (a + m) n (Block.used k v ∷ blocks) t (omega arith) pos)
grow-extend a n (Block.used k v ∷ blocks) (plain, new, t) e pos =
    grow-extend (a + (length v + 1)) n blocks t (omega arith) pos

pub bytes_of-extend :
    (n : ℕ) (blocks : List Block) → bytes_of (extend n blocks) ≡ bytes_of blocks ++ replicate n 0
unfolding bytes_of extend
bytes_of-extend n [] = append-nil (replicate n 0)
bytes_of-extend n (Block.free m ∷ []) =
    sym (replicate-add m n [])
    ∙ ap (λ xs. replicate m 0 ++ xs) (append-nil (replicate n 0))
    ∙ ap (λ xs. xs ++ replicate n 0) (sym (append-nil (replicate m 0)))
bytes_of-extend n (Block.free m ∷ b ∷ blocks) =
    ap (λ xs. replicate m 0 ++ xs) (bytes_of-extend n (b ∷ blocks))
    ∙ sym (append_assoc (replicate m 0) (bytes_of (b ∷ blocks)) (replicate n 0))
bytes_of-extend n (Block.used k v ∷ blocks) =
    ap (λ xs. (v ++ (0 ∷ [])) ++ xs) (bytes_of-extend n blocks)
    ∙ sym (append_assoc (v ++ (0 ∷ [])) (bytes_of blocks) (replicate n 0))

pub total-extend : (n : ℕ) (blocks : List Block) → total (extend n blocks) ≡ total blocks + n
unfolding total extend
total-extend n [] = omega arith
total-extend n (Block.free m ∷ []) = omega arith
total-extend n (Block.free m ∷ b ∷ blocks) = omega (arith, total-extend n (b ∷ blocks))
total-extend n (Block.used k v ∷ blocks) = omega (arith, total-extend n blocks)

pub value-extend :
    (k : Bytes) (n : ℕ) (blocks : List Block) → value k (extend n blocks) ≡ value k blocks
unfolding value extend
value-extend k n [] = refl
value-extend k n (Block.free m ∷ []) = refl
value-extend k n (Block.free m ∷ b ∷ blocks) = value-extend k n (b ∷ blocks)
value-extend k n (Block.used j v ∷ blocks) = ground (arith, value-extend k n blocks)

pub offset-extend :
    (k : Bytes) (a n : ℕ) (blocks : List Block) → offset k a (extend n blocks) ≡ offset k a blocks
unfolding offset extend
offset-extend k a n [] = refl
offset-extend k a n (Block.free m ∷ []) = refl
offset-extend k a n (Block.free m ∷ b ∷ blocks) = offset-extend k (a + m) n (b ∷ blocks)
offset-extend k a n (Block.used j v ∷ blocks) =
    ground (arith, offset-extend k (a + (length v + 1)) n blocks)

pub extend-IsTidy : (n : ℕ) (blocks : List Block) → 0 < n → IsTidy blocks → IsTidy (extend n blocks)
unfolding extend IsTidy
extend-IsTidy n [] pos t = (pos, refl, tt)
extend-IsTidy n (Block.free m ∷ []) pos (some_bytes, alone, t) = (omega arith, refl, tt)
extend-IsTidy n (Block.free m ∷ Block.free l ∷ blocks) pos (some_bytes, alone, t) = absurd (cc)
extend-IsTidy n (Block.free m ∷ Block.used k v ∷ blocks) pos (some_bytes, alone, t) =
    (some_bytes, refl, extend-IsTidy n (Block.used k v ∷ blocks) pos t)
extend-IsTidy n (Block.used k v ∷ blocks) pos (plain, new, t) =
    (plain, value-extend k n blocks ∙ new, extend-IsTidy n blocks pos t)

-- A value that fits the new part finds room.
pub fill-extend :
    (k v : Bytes) (n : ℕ) (blocks : List Block)
    → length v + 1 ≤ n
    → (blocks' : List Block) × (fill k v (extend n blocks) ≡ some blocks')
unfolding fill extend
fill-extend k v n [] h = (Block.used k v ∷ remainder n (length v + 1) [], ground arith)
fill-extend k v n (Block.free m ∷ []) h =
    (Block.used k v ∷ remainder (m + n) (length v + 1) [], ground arith)
fill-extend k v n (Block.free m ∷ b ∷ blocks) h =
    let (rest, filled) = fill-extend k v n (b ∷ blocks) h in
    elim (dec_lt m (length v + 1)) [
      | yes small ↦ (Block.free m ∷ rest, ground arith)
      | no large ↦
          (Block.used k v ∷ remainder m (length v + 1) (extend n (b ∷ blocks)), ground arith)
    ]
fill-extend k v n (Block.used j w ∷ blocks) h =
    let (rest, filled) = fill-extend k v n blocks h in (Block.used j w ∷ rest, ground arith)
