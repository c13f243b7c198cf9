-- ===== src/FreeIndex/Releasing/Strings.antt =====
-- The bytes of a value in the file, and the string that starts there.
use simple_kv_svr.Base.{
  ℕ, ◌+◌, ◌≤◌, true, some, List, [], ◌∷◌, ◌++◌, length, length-append, length-replicate, drop,
  replicate, Bytes, key_eq, ◌≡◌, refl, sym, ap, ◌∙◌, arith, Bool-cases, inl, inr, append_assoc,
  drop-append_length, drop-append_past,
}
use simple_kv_svr.SlotIndex.{c_string}
use simple_kv_svr.FreeIndex.{write_at, string_len}
use simple_kv_svr.FreeIndex.Blocks.{
  Block, bytes_of, total, offset, value, is_plain, IsTidy, cons_free, release, bytes_of-cons_free,
  replicate-add,
}
use simple_kv_svr.FreeIndex.Filling.{write_at-append}

write_at-front :
    (bs first rest : Bytes) (n : ℕ)
    → length bs ≡ n
    → length first ≡ n
    → write_at 0 bs (first ++ rest) ≡ bs ++ rest
write_at-front bs first rest n e e' =
    ap (λ xs. bs ++ xs) (drop-append_length (0 + length bs) first rest (omega arith))

string_len-plain :
    (v rest : Bytes) → is_plain v ≡ true → string_len ((v ++ (0 ∷ [])) ++ rest) ≡ some (length v)
unfolding string_len is_plain
string_len-plain [] rest h = refl
string_len-plain (c ∷ v) rest h = ground (arith, string_len-plain v rest)

c_string-plain : (v rest : Bytes) → is_plain v ≡ true → c_string ((v ++ (0 ∷ [])) ++ rest) ≡ v
unfolding c_string is_plain
c_string-plain [] rest h = refl
c_string-plain (c ∷ v) rest h = ground (arith, c_string-plain v rest)

-- What stands in the file at the place of a value, and what the bytes become when it is given back.
pub record IsStored (key v : Bytes) (a p : ℕ) (blocks : List Block) : Type 0 where
  pub there : offset key a blocks ≡ some (a + p)
  pub len : string_len (drop p (bytes_of blocks)) ≡ some (length v)
  pub text : c_string (drop p (bytes_of blocks)) ≡ v
  pub bytes : write_at p (replicate (length v) 0) (bytes_of blocks) ≡ bytes_of (release key blocks)
  pub inside : p + (length v + 1) ≤ total blocks

used-bytes :
    (w : Bytes) (blocks : List Block)
    → write_at 0 (replicate (length w) 0) ((w ++ (0 ∷ [])) ++ bytes_of blocks)
      ≡ bytes_of (cons_free (length w + 1) blocks)
used-bytes w blocks =
    ap (λ xs. write_at 0 (replicate (length w) 0) xs) (append_assoc w (0 ∷ []) (bytes_of blocks))
    ∙ write_at-front (replicate (length w) 0) w (0 ∷ bytes_of blocks) (length w)
        (length-replicate {A = ℕ} (length w) 0) refl
    ∙ replicate-add (length w) 1 (bytes_of blocks)
    ∙ sym (bytes_of-cons_free (length w + 1) blocks)

pub value-IsStored :
    (key v : Bytes) (a : ℕ) (blocks : List Block)
    → IsTidy blocks
    → value key blocks ≡ some v
    → (p : ℕ) × IsStored key v a p blocks
unfolding IsTidy value offset bytes_of release total
value-IsStored key v a [] t h = absurd (cc)
value-IsStored key v a (Block.free n ∷ blocks) (pos, alone, t) h =
    let (p, ih) = value-IsStored key v (a + n) blocks t h in
    let len = length-replicate {A = ℕ} n 0 in
    let further =
      drop-append_past (replicate n 0) (bytes_of blocks) p (n + p) (omega (arith, len)) in
    (
      n + p,
      record {
        there = ih.there ∙ ap (λ o. some o) (omega arith);
        len = ap string_len further ∙ ih.len;
        text = ap c_string further ∙ ih.text;
        bytes =
            write_at-append (replicate n 0) (replicate (length v) 0) (bytes_of blocks) p (n + p)
              (omega (arith, len))
            ∙ ap (λ xs. replicate n 0 ++ xs) ih.bytes
            ∙ sym (bytes_of-cons_free n (release key blocks));
        inside = omega (arith, ih.inside);
      },
    )
value-IsStored key v a (Block.used k w ∷ blocks) (plain, new, t) h =
    elim (Bool-cases (key_eq k key)) [
      | inl same ↦
          let e : v ≡ w = ground arith in
          (
            0,
            record {
              there = ground arith;
              len = string_len-plain w (bytes_of blocks) plain ∙ ap (λ x. some (length x)) (sym e);
              text = c_string-plain w (bytes_of blocks) plain ∙ sym e;
              bytes = ground (arith, used-bytes w blocks);
              inside = ground arith;
            },
          )
      | inr other ↦
          let (p, ih) = value-IsStored key v (a + (length w + 1)) blocks t (ground arith) in
          let len = length-append w (0 ∷ []) in
          let further =
            drop-append_past (w ++ (0 ∷ [])) (bytes_of blocks) p (length w + 1 + p)
              (omega (arith, len)) in
          (
            length w + 1 + p,
            record {
              there = ground (arith, ih.there);
              len = ap string_len further ∙ ih.len;
              text = ap c_string further ∙ ih.text;
              bytes = ground (
                arith,
                ih.bytes,
                write_at-append (w ++ (0 ∷ [])) (replicate (length v) 0) (bytes_of blocks) p
                    (length w + 1 + p) (omega (arith, len)),
              );
              inside = omega (arith, ih.inside);
            },
          )
    ]
