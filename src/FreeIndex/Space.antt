-- ===== src/FreeIndex/Space.antt =====
-- The free parts and the values lie in the file, side by side, and fill it.
use mathlib.Core.Path.{subst}
use native.Mathlib.Decide.{dec_lt}
use simple_kv_svr.Base.{
  key_eq_iff, lookup, Option, true, ℕ, zero, suc, ◌+◌, ◌-◌, ◌≤◌, ◌<◌, some, List, [], ◌∷◌, length,
  get_elem?, Bytes, key_eq, ◌≡◌, refl, sym, ap, ◌∙◌, arith, Bool-cases, inl, inr, ◌⊎◌,
}
use simple_kv_svr.SlotIndex.{Entry, cache_size}
use simple_kv_svr.FreeIndex.{Extent, KvIndex}
use simple_kv_svr.FreeIndex.Calls.{Update, run, after, are_fair}
use simple_kv_svr.FreeIndex.Session.{new_index, run_new}
use simple_kv_svr.FreeIndex.Blocks.{
  Block, value, offset, total, frees, IsTidy, length-bytes_of, offset-some,
}
use simple_kv_svr.FreeIndex.Holds.{lookup-some}

frees-inside :
    (a i : ℕ) (blocks : List Block) (e : Extent)
    → IsTidy blocks
    → get_elem? (frees a blocks) i ≡ some e
    → (a ≤ e.head) × (e.head ≤ e.tail) × (e.tail < a + total blocks)
unfolding frees total IsTidy
frees-inside a i [] e t h = absurd (cc)
frees-inside a zero (Block.free n ∷ blocks) e (pos, alone, t) h = ground arith
frees-inside a (suc i) (Block.free n ∷ blocks) e (pos, alone, t) h =
    omega (arith, frees-inside (a + n) i blocks e t h)
frees-inside a i (Block.used k v ∷ blocks) e (plain, new, t) h =
    omega (arith, frees-inside (a + (length v + 1)) i blocks e t h)

frees-apart :
    (a i o : ℕ) (key w : Bytes) (blocks : List Block) (e : Extent)
    → IsTidy blocks
    → get_elem? (frees a blocks) i ≡ some e
    → value key blocks ≡ some w
    → offset key a blocks ≡ some o
    → (o + length w < e.head) ⊎ (e.tail < o)
unfolding frees value offset IsTidy
frees-apart a i o key w [] e t h here at = absurd (cc)
frees-apart a zero o key w (Block.free n ∷ blocks) e (pos, alone, t) h here at =
    let (p, at', low, high) = offset-some key w (a + n) blocks here in inr (ground arith)
frees-apart a (suc i) o key w (Block.free n ∷ blocks) e (pos, alone, t) h here at =
    frees-apart (a + n) i o key w blocks e t h here at
frees-apart a i o key w (Block.used k v ∷ blocks) e (plain, new, t) h here at =
    elim (Bool-cases (key_eq k key)) [
      | inl same ↦
          let inside = frees-inside (a + (length v + 1)) i blocks e t h in inl (ground arith)
      | inr other ↦
          frees-apart (a + (length v + 1)) i o key w blocks e t h (ground arith) (ground arith)
    ]

-- A place in an extent; and a place in the value of a key, or its 0.
abbrev pub IsFreeAt : ℕ → List Extent → Type 0
IsFreeAt p extents =
    (i : ℕ) × (e : Extent) × (get_elem? extents i ≡ some e) × (e.head ≤ p) × (p ≤ e.tail)

abbrev IsUsedAt : ℕ → ℕ → List Block → Type 0
IsUsedAt p a blocks =
    (key : Bytes) × (w : Bytes) × (o : ℕ) × (value key blocks ≡ some w)
    × (offset key a blocks ≡ some o)
    × (o ≤ p)
    × (p ≤ o + length w)

blocks-cover :
    (a p : ℕ) (blocks : List Block)
    → IsTidy blocks
    → a ≤ p
    → p < a + total blocks
    → IsFreeAt p (frees a blocks) ⊎ IsUsedAt p a blocks
unfolding frees total value offset IsTidy
blocks-cover a p [] t low high = absurd (omega arith)
blocks-cover a p (Block.free n ∷ blocks) (pos, alone, t) low high = elim (dec_lt p (a + n)) [
  | yes here ↦ inl (0, record { head = a; tail = a + n - 1 }, refl, low, omega arith)
  | no behind ↦ elim (blocks-cover (a + n) p blocks t (omega arith) (omega arith)) [
    | inl (i, e, at, first, last) ↦ inl (suc i, e, at, first, last)
    | inr found ↦ inr found
  ]
]
blocks-cover a p (Block.used k v ∷ blocks) (plain, new, t) low high =
    elim (dec_lt p (a + (length v + 1))) [
      | yes here ↦ inr (
        k,
        v,
        a,
        ground (arith, key_eq_iff k k),
        ground (arith, key_eq_iff k k),
        low,
        omega arith,
      )
      | no behind ↦
          elim (blocks-cover (a + (length v + 1)) p blocks t (omega arith) (omega arith)) [
            | inl free ↦ inl free
            | inr (key, w, o, there, at, first, last) ↦ inr (
              key,
              w,
              o,
              ground (arith, key_eq_iff k key),
              ground (arith, key_eq_iff k key),
              first,
              last,
            )
          ]
    ]

-- Where the map has the value of a key.
abbrev pub IsAt : KvIndex → Bytes → ℕ → Type 0
IsAt s key o = (e : Entry) × (lookup key s.kv ≡ some e) × (e.slot ≡ o)

-- A run of `Set` and `Delete` on a new file of `n` zeros, where the system calls succeed, of keys without
-- white space and values that are not empty and have no 0: every call returns. Then every free part lies in the file,
-- and has no byte of a value that the dictionary has, or of the 0 behind it, at the place where the map has that value;
-- and every byte of the file is in a free part or in such a value, its 0 included.
pub run_layout :
    (n : ℕ) (cache : List (Option Bytes)) (updates : List Update)
    → 0 < n
    → length cache ≡ cache_size
    → are_fair updates ≡ true
    → (s : KvIndex) × (run updates (new_index n cache) ≡ some s)
      × ((i : ℕ) (e : Extent)
          → get_elem? s.mem_list i ≡ some e
          → (e.head ≤ e.tail)
            × (e.tail < length s.store)
            × ((key w : Bytes)
                → lookup key (after updates []) ≡ some w
                → (o : ℕ) × IsAt s key o × ((o + length w < e.head) ⊎ (e.tail < o))))
      × ((p : ℕ)
          → p < length s.store
          → IsFreeAt p s.mem_list
            ⊎ ((key : Bytes) × (w : Bytes) × (o : ℕ) × (lookup key (after updates []) ≡ some w)
                × IsAt s key o
                × (o ≤ p)
                × (p ≤ o + length w)))
run_layout n cache updates pos len fair =
    let (s, blocks, ran, v, agrees) = run_new n cache updates pos len fair in
    let size = ap length v.store ∙ length-bytes_of blocks in
    (
      s,
      ran,
      λ i e h.
          let h' : get_elem? (frees 0 blocks) i ≡ some e =
            sym (ap (λ l. get_elem? l i) v.mem_list) ∙ h in
          let (low, order, high) = frees-inside 0 i blocks e v.tidy h' in
          (
            order,
            omega (arith, size),
            λ key w there.
                let here = agrees.same key ∙ there in
                let (o, at, first, last) = offset-some key w 0 blocks here in
                (
                  o,
                  lookup-some key o s blocks v at,
                  frees-apart 0 i o key w blocks e v.tidy h' here at,
                ),
          ),
      λ p h. elim (blocks-cover 0 p blocks v.tidy (omega arith) (omega (arith, size))) [
        | inl free ↦ inl (subst (λ l. IsFreeAt p l) (sym v.mem_list) free)
        | inr (key, w, o, here, at, first, last) ↦
            inr (
              key,
              w,
              o,
              sym (agrees.same key) ∙ here,
              lookup-some key o s blocks v at,
              first,
              last,
            )
      ],
    )
