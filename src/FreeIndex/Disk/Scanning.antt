-- ===== src/FreeIndex/Disk/Scanning.antt =====
-- The loop of `Start` finds the free parts again.
use simple_kv_svr.Base.{
  ℕ, zero, suc, ◌+◌, ◌-◌, ◌≤◌, Bool, true, false, Option, some, List, [], ◌∷◌, ◌++◌, length,
  replicate, Bytes, ◌≡◌, refl, ap, ◌∙◌, arith, append_assoc, inl, inr, ◌⊎◌,
}
use simple_kv_svr.FreeIndex.Blocks.{Block, bytes_of, frees, is_plain, starts_used, IsTidy}
use simple_kv_svr.FreeIndex.Disk.{ends_zeros, new_head, scan}

-- No value is empty.
unfoldable pub has_texts : List Block → Bool
has_texts [] = true
has_texts (Block.free n ∷ blocks) = has_texts blocks
has_texts (Block.used k [] ∷ blocks) = false
has_texts (Block.used k (c ∷ v) ∷ blocks) = has_texts blocks

scan-zeros :
    (n i head h : ℕ) (before : Option ℕ) (rest : Bytes)
    → new_head i head before ≡ h
    → h ≤ i
    → ends_zeros rest ≡ true
    → scan i head before (0 ∷ (replicate n 0 ++ rest))
      ≡ record { head = h; tail = i + n } ∷ scan (i + n + 1) h (some 0) rest
unfolding scan
scan-zeros zero i head h before rest e low last = ground arith
scan-zeros (suc n) i head h before rest e low last =
    let ih = scan-zeros n (i + 1) h h (some 0) rest refl (omega arith) last in
    let e₁ : i + 1 + n ≡ i + suc n = omega arith in
    let e₂ : i + 1 + n + 1 ≡ i + suc n + 1 = omega arith in ground arith

scan-value :
    (v : Bytes) (c i head : ℕ) (before : Option ℕ) (rest : Bytes)
    → is_plain (c ∷ v) ≡ true
    → scan i head before (c ∷ (v ++ (0 ∷ rest)))
      ≡ scan (i + (length (c ∷ v) + 1)) (i + (length (c ∷ v) + 1)) (some 0) rest
unfolding scan is_plain
scan-value [] c i head before rest plain =
    let e : i + 1 + 1 ≡ i + (1 + 1) = omega arith in ground arith
scan-value (c' ∷ v) c i head before rest plain =
    let ih = scan-value v c' (i + 1) head (some c) rest (ground arith) in
    let e : i + 1 + (length (c' ∷ v) + 1) ≡ i + (length (c ∷ c' ∷ v) + 1) = omega arith in
    ground arith

ends_zeros-bytes_of :
    (blocks : List Block)
    → IsTidy blocks
    → has_texts blocks ≡ true
    → starts_used blocks ≡ true
    → ends_zeros (bytes_of blocks) ≡ true
unfolding IsTidy has_texts bytes_of is_plain
ends_zeros-bytes_of [] t texts used = refl
ends_zeros-bytes_of (Block.free n ∷ blocks) t texts used = absurd (cc)
ends_zeros-bytes_of (Block.used k [] ∷ blocks) t texts used = absurd (cc)
ends_zeros-bytes_of (Block.used k (c ∷ v) ∷ blocks) (plain, new, t) texts used = ground arith

-- The bytes of tidy blocks, from the place `a` on.
pub scan-frees :
    (a head : ℕ) (before : Option ℕ) (blocks : List Block)
    → IsTidy blocks
    → has_texts blocks ≡ true
    → (starts_used blocks ≡ true) ⊎ (new_head a head before ≡ a)
    → scan a head before (bytes_of blocks) ≡ frees a blocks
unfolding IsTidy has_texts bytes_of frees scan
scan-frees a head before [] t texts start = refl
scan-frees a head before (Block.free zero ∷ blocks) (pos, alone, t) texts start =
    absurd (omega arith)
scan-frees a head before (Block.free (suc n) ∷ blocks) (pos, alone, t) texts (inl used) =
    absurd (cc)
scan-frees a head before (Block.free (suc n) ∷ blocks) (pos, alone, t) texts (inr start) =
    let first =
      scan-zeros n a head a before (bytes_of blocks) start (omega arith)
        (ends_zeros-bytes_of blocks t texts alone) in
    let rest = scan-frees (a + suc n) a (some 0) blocks t texts (inl alone) in
    let e₁ : a + n ≡ a + suc n - 1 = omega arith in
    let e₂ : a + n + 1 ≡ a + suc n = omega arith in ground arith
scan-frees a head before (Block.used k [] ∷ blocks) t texts start = absurd (cc)
scan-frees a head before (Block.used k (c ∷ v) ∷ blocks) (plain, new, t) texts start =
    ap (λ xs. scan a head before (c ∷ xs)) (append_assoc v (0 ∷ []) (bytes_of blocks))
    ∙ scan-value v c a head before (bytes_of blocks) plain
    ∙ scan-frees (a + (length (c ∷ v) + 1)) (a + (length (c ∷ v) + 1)) (some 0) blocks t texts
        (inr refl)
