-- ===== src/FreeIndex/Blocks.antt =====
-- The file of the index as a list of blocks: a free part, or a key's value with the 0 behind it.
use simple_kv_svr.Base.{
  ℕ, zero, suc, ◌+◌, ◌-◌, ◌≤◌, ◌<◌, Bool, true, false, not, ◌&&◌, Option, none, some, List, [], ◌∷◌,
  ◌++◌, length, length-append, length-replicate, replicate, ltb, ◌==◌, if◌then◌else◌, Bytes, key_eq,
  key_eq_iff, ◌≡◌, refl, sym, ap, ◌∙◌, arith, Bool-cases, inl, inr,
}
use simple_kv_svr.FreeIndex.{Extent}

pub data Block : Type 0 where
  free : ℕ → Block
  used : Bytes → Bytes → Block

abbrev pub size : Block → ℕ
size (Block.free n) = n
size (Block.used k v) = length v + 1

abbrev pub content : Block → Bytes
content (Block.free n) = replicate n 0
content (Block.used k v) = v ++ (0 ∷ [])

-- The bytes of the file.
unfoldable pub bytes_of : List Block → Bytes
bytes_of [] = []
bytes_of (b ∷ blocks) = content b ++ bytes_of blocks

unfoldable pub total : List Block → ℕ
total [] = 0
total (b ∷ blocks) = size b + total blocks

-- The free parts of blocks that begin at `a`.
unfoldable pub frees : ℕ → List Block → List Extent
frees a [] = []
frees a (Block.free n ∷ blocks) = record { head = a; tail = a + n - 1 } ∷ frees (a + n) blocks
frees a (Block.used k v ∷ blocks) = frees (a + (length v + 1)) blocks

-- The place of a key's value, and the value.
unfoldable pub offset : Bytes → ℕ → List Block → Option ℕ
offset key a [] = none
offset key a (Block.free n ∷ blocks) = offset key (a + n) blocks
offset key a (Block.used k v ∷ blocks) =
    let rest = offset key (a + (length v + 1)) blocks in if key_eq k key then some a else rest

unfoldable pub value : Bytes → List Block → Option Bytes
value key [] = none
value key (Block.free n ∷ blocks) = value key blocks
value key (Block.used k v ∷ blocks) =
    let rest = value key blocks in if key_eq k key then some v else rest

-- No 0 stands in a value.
unfoldable pub is_plain : Bytes → Bool
is_plain [] = true
is_plain (c ∷ v) = not (c == 0) && is_plain v

abbrev pub starts_used : List Block → Bool
starts_used (Block.free n ∷ blocks) = false
starts_used _ = true

-- The free parts are as large as they can be, and no key stands twice.
unfoldable pub IsTidy : List Block → Type 0
unfolding is_plain value
IsTidy [] = Unit
IsTidy (Block.free n ∷ blocks) = (0 < n) × (starts_used blocks ≡ true) × IsTidy blocks
IsTidy (Block.used k v ∷ blocks) = (is_plain v ≡ true) × (value k blocks ≡ none) × IsTidy blocks

-- The first free block with room takes a new value.
unfoldable pub fill : Bytes → Bytes → List Block → Option (List Block)
fill k v [] = none
fill k v (Block.free n ∷ blocks) =
    let later = fill k v blocks in
    if ltb n (length v + 1)
    then elim later [ none ↦ none | some rest ↦ some (Block.free n ∷ rest) ]
    else some (
        Block.used k v
        ∷ (if n == length v + 1 then blocks else Block.free (n - (length v + 1)) ∷ blocks))
fill k v (Block.used k' v' ∷ blocks) = elim (fill k v blocks) [
  | none ↦ none
  | some rest ↦ some (Block.used k' v' ∷ rest)
]

-- A free block in front, joined with one that stands there.
abbrev pub cons_free : ℕ → List Block → List Block
cons_free n (Block.free m ∷ blocks) = Block.free (n + m) ∷ blocks
cons_free n blocks = Block.free n ∷ blocks

-- The block of a key becomes free.
unfoldable pub release : Bytes → List Block → List Block
release key [] = []
release key (Block.free n ∷ blocks) = cons_free n (release key blocks)
release key (Block.used k v ∷ blocks) =
    let rest = release key blocks in
    if key_eq k key then cons_free (length v + 1) blocks else Block.used k v ∷ rest

-- A free block at the end.
unfoldable pub extend : ℕ → List Block → List Block
extend n [] = Block.free n ∷ []
extend n (Block.free m ∷ []) = Block.free (m + n) ∷ []
extend n (b ∷ blocks) = b ∷ extend n blocks

pub length-bytes_of : (blocks : List Block) → length (bytes_of blocks) ≡ total blocks
unfolding bytes_of total
length-bytes_of [] = refl
length-bytes_of (Block.free n ∷ blocks) = omega (
  arith,
  length-append (replicate n 0) (bytes_of blocks),
  length-replicate {A = ℕ} n 0,
  length-bytes_of blocks,
)
length-bytes_of (Block.used k v ∷ blocks) = omega (
  arith,
  length-append (v ++ (0 ∷ [])) (bytes_of blocks),
  length-append v (0 ∷ []),
  length-bytes_of blocks,
)

-- A value is there just where its place is.
pub offset-none :
    (key : Bytes) (a : ℕ) (blocks : List Block)
    → value key blocks ≡ none
    → offset key a blocks ≡ none
unfolding offset value
offset-none key a [] h = refl
offset-none key a (Block.free n ∷ blocks) h = offset-none key (a + n) blocks h
offset-none key a (Block.used k v ∷ blocks) h =
    ground (arith, offset-none key (a + (length v + 1)) blocks)

pub offset-some :
    (key v : Bytes) (a : ℕ) (blocks : List Block)
    → value key blocks ≡ some v
    → (o : ℕ) × (offset key a blocks ≡ some o) × (a ≤ o) × (o + (length v + 1) ≤ a + total blocks)
unfolding offset value total
offset-some key v a [] h = absurd (cc)
offset-some key v a (Block.free n ∷ blocks) h =
    let (o, at, low, high) = offset-some key v (a + n) blocks h in (o, at, omega arith, omega arith)
offset-some key v a (Block.used k w ∷ blocks) h = elim (Bool-cases (key_eq k key)) [
  | inl same ↦ (a, ground arith, omega arith, ground arith)
  | inr other ↦
      let (o, at, low, high) = offset-some key v (a + (length w + 1)) blocks (ground arith) in
      (o, ground arith, omega arith, omega arith)
]

pub replicate-add :
    (n m : ℕ) (rest : Bytes)
    → replicate n 0 ++ (replicate m 0 ++ rest) ≡ replicate (n + m) 0 ++ rest
replicate-add zero m rest = ap (λ k. replicate k 0 ++ rest) (omega arith)
replicate-add (suc n) m rest =
    let e : suc (n + m) ≡ suc n + m = omega arith in
    ap (λ l. 0 ∷ l) (replicate-add n m rest) ∙ ap (λ k. replicate k 0 ++ rest) e

-- What the joined free block is.
pub bytes_of-cons_free :
    (n : ℕ) (blocks : List Block) → bytes_of (cons_free n blocks) ≡ replicate n 0 ++ bytes_of blocks
unfolding bytes_of
bytes_of-cons_free n [] = refl
bytes_of-cons_free n (Block.free m ∷ blocks) = sym (replicate-add n m (bytes_of blocks))
bytes_of-cons_free n (Block.used k v ∷ blocks) = refl

pub total-cons_free : (n : ℕ) (blocks : List Block) → total (cons_free n blocks) ≡ n + total blocks
unfolding total
total-cons_free n [] = refl
total-cons_free n (Block.free m ∷ blocks) = omega arith
total-cons_free n (Block.used k v ∷ blocks) = refl

pub value-cons_free :
    (k : Bytes) (n : ℕ) (blocks : List Block) → value k (cons_free n blocks) ≡ value k blocks
unfolding value
value-cons_free k n [] = refl
value-cons_free k n (Block.free m ∷ blocks) = refl
value-cons_free k n (Block.used j v ∷ blocks) = refl

pub offset-cons_free :
    (k : Bytes) (a n : ℕ) (blocks : List Block)
    → offset k a (cons_free n blocks) ≡ offset k (a + n) blocks
unfolding offset
offset-cons_free k a n [] = refl
offset-cons_free k a n (Block.free m ∷ blocks) = ap (λ b. offset k b blocks) (omega arith)
offset-cons_free k a n (Block.used j v ∷ blocks) = refl

pub cons_free-IsTidy :
    (n : ℕ) (blocks : List Block) → 0 < n → IsTidy blocks → IsTidy (cons_free n blocks)
unfolding IsTidy
cons_free-IsTidy n [] h t = (h, refl, tt)
cons_free-IsTidy n (Block.free m ∷ blocks) h (pos, alone, t) = (omega arith, alone, t)
cons_free-IsTidy n (Block.used k v ∷ blocks) h t = (h, refl, t)

-- The keys after a value was given back.
pub value-release :
    (key k : Bytes) (blocks : List Block)
    → IsTidy blocks
    → value k (release key blocks) ≡ (if key_eq key k then none else value k blocks)
unfolding value release IsTidy
value-release key k [] t = ground arith
value-release key k (Block.free n ∷ blocks) (pos, alone, t) =
    value-cons_free k n (release key blocks) ∙ value-release key k blocks t
value-release key k (Block.used j v ∷ blocks) (plain, new, t) = ground (
  arith,
  key_eq_iff j key,
  key_eq_iff j k,
  key_eq_iff key k,
  value-cons_free k (length v + 1) blocks,
  value-release key k blocks t,
)

pub offset-release :
    (key k : Bytes) (a : ℕ) (blocks : List Block)
    → IsTidy blocks
    → offset k a (release key blocks) ≡ (if key_eq key k then none else offset k a blocks)
unfolding offset release IsTidy
offset-release key k a [] t = ground arith
offset-release key k a (Block.free n ∷ blocks) (pos, alone, t) =
    offset-cons_free k a n (release key blocks) ∙ offset-release key k (a + n) blocks t
offset-release key k a (Block.used j v ∷ blocks) (plain, new, t) = ground (
  arith,
  key_eq_iff j key,
  key_eq_iff j k,
  key_eq_iff key k,
  offset-cons_free k a (length v + 1) blocks,
  offset-none j (a + (length v + 1)) blocks new,
  offset-release key k (a + (length v + 1)) blocks t,
)

pub total-release : (key : Bytes) (blocks : List Block) → total (release key blocks) ≡ total blocks
unfolding total release
total-release key [] = refl
total-release key (Block.free n ∷ blocks) =
    omega (arith, total-cons_free n (release key blocks), total-release key blocks)
total-release key (Block.used j v ∷ blocks) =
    ground (arith, total-cons_free (length v + 1) blocks, total-release key blocks)

pub release-IsTidy :
    (key : Bytes) (blocks : List Block) → IsTidy blocks → IsTidy (release key blocks)
unfolding release IsTidy
release-IsTidy key [] t = t
release-IsTidy key (Block.free n ∷ blocks) (pos, alone, t) =
    cons_free-IsTidy n (release key blocks) pos (release-IsTidy key blocks t)
release-IsTidy key (Block.used j v ∷ blocks) (plain, new, t) = elim (Bool-cases (key_eq j key)) [
  | inl same ↦ rw same (cons_free-IsTidy (length v + 1) blocks (omega arith) t)
  | inr other ↦
      rw other (plain, ground (arith, value-release key j blocks t), release-IsTidy key blocks t)
]
