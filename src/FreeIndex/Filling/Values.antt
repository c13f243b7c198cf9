-- ===== src/FreeIndex/Filling/Values.antt =====
-- The values and their places after a free part took a new one.
use native.Mathlib.Decide.{ℕ_discrete, dec_lt}
use simple_kv_svr.Base.{
  ℕ, ◌+◌, ◌-◌, ◌≤◌, true, false, none, some, List, [], ◌∷◌, length, ◌==◌, if◌then◌else◌, Bytes,
  key_eq, key_eq_iff, ◌≡◌, ap, ◌∙◌, arith, Option-cases, inl, inr,
}
use simple_kv_svr.FreeIndex.Blocks.{Block, offset, value, is_plain, starts_used, IsTidy, fill}
use simple_kv_svr.FreeIndex.Filling.{remainder}

-- The keys after a block was filled.
pub value-fill :
    (k v j : Bytes) (blocks blocks' : List Block)
    → fill k v blocks ≡ some blocks'
    → value k blocks ≡ none
    → value j blocks' ≡ (if key_eq k j then some v else value j blocks)
unfolding fill value
value-fill k v j [] blocks' h new = absurd (cc)
value-fill k v j (Block.free n ∷ blocks) blocks' h new = elim (dec_lt n (length v + 1)) [
  | yes small ↦ elim (Option-cases (fill k v blocks)) [
    | inl full ↦ absurd (ground arith)
    | inr (rest, filled) ↦
        let e : blocks' ≡ Block.free n ∷ rest = ground arith in
        ap (value j) e ∙ value-fill k v j blocks rest filled new
  ]
  | no large ↦
      let e : blocks' ≡ Block.used k v ∷ remainder n (length v + 1) blocks = ground arith in
      ap (value j) e
      ∙ elim (ℕ_discrete n (length v + 1)) [ yes exact ↦ ground arith | no more ↦ ground arith ]
]
value-fill k v j (Block.used i w ∷ blocks) blocks' h new = elim (Option-cases (fill k v blocks)) [
  | inl full ↦ absurd (ground arith)
  | inr (rest, filled) ↦
      let e : blocks' ≡ Block.used i w ∷ rest = ground arith in
      ap (value j) e
      ∙ ground (
        arith,
        value-fill k v j blocks rest filled,
        key_eq_iff i j,
        key_eq_iff i k,
        key_eq_iff k j,
      )
]

pub offset-fill :
    (k v j : Bytes) (a : ℕ) (blocks blocks' : List Block)
    → fill k v blocks ≡ some blocks'
    → value k blocks ≡ none
    → offset j a blocks' ≡ (if key_eq k j then offset k a blocks' else offset j a blocks)
unfolding fill value offset
offset-fill k v j a [] blocks' h new = absurd (cc)
offset-fill k v j a (Block.free n ∷ blocks) blocks' h new = elim (dec_lt n (length v + 1)) [
  | yes small ↦ elim (Option-cases (fill k v blocks)) [
    | inl full ↦ absurd (ground arith)
    | inr (rest, filled) ↦
        let e : blocks' ≡ Block.free n ∷ rest = ground arith in
        rw e (offset-fill k v j (a + n) blocks rest filled new)
  ]
  | no large ↦
      let e : blocks' ≡ Block.used k v ∷ remainder n (length v + 1) blocks = ground arith in
      rw e (offset-here k v j a n blocks (omega arith))
]
  where
    offset-here :
        (k v j : Bytes) (a n : ℕ) (blocks : List Block)
        → length v + 1 ≤ n
        → offset j a (Block.used k v ∷ remainder n (length v + 1) blocks) ≡ (
            if key_eq k j
            then offset k a (Block.used k v ∷ remainder n (length v + 1) blocks)
            else offset j (a + n) blocks)
    offset-here k v j a n blocks fits =
        let e : a + (length v + 1) + (n - (length v + 1)) ≡ a + n = omega arith in
        elim (ℕ_discrete n (length v + 1)) [
          | yes exact ↦ ground (arith, key_eq_iff k k, key_eq_iff k j)
          | no more ↦ ground (arith, key_eq_iff k k, key_eq_iff k j)
        ]
offset-fill k v j a (Block.used i w ∷ blocks) blocks' h new =
    elim (Option-cases (fill k v blocks)) [
      | inl full ↦ absurd (ground arith)
      | inr (rest, filled) ↦
          let e : blocks' ≡ Block.used i w ∷ rest = ground arith in
          rw e (
            ground (
              arith,
              offset-fill k v j (a + (length w + 1)) blocks rest filled,
              key_eq_iff i j,
              key_eq_iff i k,
              key_eq_iff k j,
            ))
    ]

remainder-IsTidy :
    (n len : ℕ) (blocks : List Block)
    → len ≤ n
    → starts_used blocks ≡ true
    → IsTidy blocks
    → IsTidy (remainder n len blocks)
unfolding IsTidy
remainder-IsTidy n len blocks fits alone t = elim (ℕ_discrete n len) [
  | yes exact ↦ let e : (n == len) ≡ true = ground arith in rw e t
  | no more ↦ let e : (n == len) ≡ false = ground arith in rw e (omega arith, alone, t)
]

value-remainder :
    (k : Bytes) (n len : ℕ) (blocks : List Block)
    → value k (remainder n len blocks) ≡ value k blocks
unfolding value
value-remainder k n len blocks = ground arith

fill-starts_used :
    (k v : Bytes) (blocks blocks' : List Block)
    → fill k v blocks ≡ some blocks'
    → starts_used blocks ≡ true
    → starts_used blocks' ≡ true
unfolding fill
fill-starts_used k v [] blocks' h used = absurd (cc)
fill-starts_used k v (Block.free n ∷ blocks) blocks' h used = absurd (cc)
fill-starts_used k v (Block.used i w ∷ blocks) blocks' h used =
    elim (Option-cases (fill k v blocks)) [
      | inl full ↦ absurd (ground arith)
      | inr (rest, filled) ↦ ground arith
    ]

pub fill-IsTidy :
    (k v : Bytes) (blocks blocks' : List Block)
    → fill k v blocks ≡ some blocks'
    → value k blocks ≡ none
    → is_plain v ≡ true
    → IsTidy blocks
    → IsTidy blocks'
unfolding fill value IsTidy
fill-IsTidy k v [] blocks' h new plain t = absurd (cc)
fill-IsTidy k v (Block.free n ∷ blocks) blocks' h new plain (pos, alone, t) =
    elim (dec_lt n (length v + 1)) [
      | yes small ↦ elim (Option-cases (fill k v blocks)) [
        | inl full ↦ absurd (ground arith)
        | inr (rest, filled) ↦
            let e : blocks' ≡ Block.free n ∷ rest = ground arith in
            rw e (
              pos,
              fill-starts_used k v blocks rest filled alone,
              fill-IsTidy k v blocks rest filled new plain t,
            )
      ]
      | no large ↦
          let e : blocks' ≡ Block.used k v ∷ remainder n (length v + 1) blocks = ground arith in
          rw e (
            plain,
            value-remainder k n (length v + 1) blocks ∙ new,
            remainder-IsTidy n (length v + 1) blocks (omega arith) alone t,
          )
    ]
fill-IsTidy k v (Block.used i w ∷ blocks) blocks' h new plain (plain', new', t) =
    elim (Option-cases (fill k v blocks)) [
      | inl full ↦ absurd (ground arith)
      | inr (rest, filled) ↦
          let e : blocks' ≡ Block.used i w ∷ rest = ground arith in
          rw e (
            plain',
            ground (arith, value-fill k v i blocks rest filled, key_eq_iff i k, key_eq_iff k i),
            fill-IsTidy k v blocks rest filled (ground arith) plain t,
          )
    ]
