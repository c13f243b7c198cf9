-- ===== src/FreeIndex/Inserting.antt =====
-- `Insert`: its rounds come to an end, and the key has its value then.
use native.Mathlib.Decide.{dec_lt}
use simple_kv_svr.Base.{
  ℕ, zero, suc, ◌+◌, ◌-◌, ◌≤◌, Bool, true, false, none, some, List, length, Bytes, lookup,
  key_eq_iff, ◌≡◌, refl, ◌∙◌, arith, Option-cases, Bool-cases, inl, inr, ◌⊎◌,
}
use simple_kv_svr.SlotIndex.{Entry}
use simple_kv_svr.FreeIndex.{KvIndex, Outcome, insert_round, resize, insert, delete, set}
use simple_kv_svr.FreeIndex.Blocks.{
  Block, total, value, is_plain, IsTidy, fill, release, extend, offset-some, value-release,
}
use simple_kv_svr.FreeIndex.Filling.Values.{value-fill}
use simple_kv_svr.FreeIndex.Growing.{total-extend, value-extend, fill-extend}
use simple_kv_svr.FreeIndex.Holds.{Holds, lookup-none, lookup-some, delete-Holds}
use simple_kv_svr.FreeIndex.Rounds.{
  IsUpdated, insert_round-Holds, insert_round-full, larger, resize-Holds,
}

-- What a call of `Insert` or `Set` has done: a system call failed for some size of the file, it returned -1 and the
-- file is not mapped; or it returned 0 and the key has its value.
abbrev pub IsDone : (ℕ → Bool) → Bytes → Bytes → List Block → Outcome → Type 0
IsDone works key w blocks outcome =
    ((s' : KvIndex) × (n : ℕ) × (works n ≡ false)
      × (outcome ≡ Outcome.returned false s')
      × (s'.mapped ≡ false))
    ⊎ ((s' : KvIndex) × (blocks' : List Block) × (outcome ≡ Outcome.returned true s')
        × Holds s' blocks'
        × IsUpdated key w blocks blocks')

insert-found :
    (rounds : ℕ) (works : ℕ → Bool) (key w : Bytes) (s s' : KvIndex)
    → insert_round key w s ≡ some (true, s')
    → insert (suc rounds) works key w s ≡ Outcome.returned true s'
unfolding insert
insert-found rounds works key w s s' e = ground arith

insert-fails :
    (rounds : ℕ) (works : ℕ → Bool) (key w : Bytes) (s : KvIndex)
    → insert_round key w s ≡ some (false, s)
    → works (length s.store) ≡ false
    → insert (suc rounds) works key w s ≡ Outcome.returned false (record s { mapped = false })
unfolding insert resize
insert-fails rounds works key w s e bad = ground arith

insert-again :
    (rounds : ℕ) (works : ℕ → Bool) (key w : Bytes) (s : KvIndex)
    → insert_round key w s ≡ some (false, s)
    → works (length s.store) ≡ true
    → insert (suc rounds) works key w s ≡ insert rounds works key w (larger s)
unfolding insert resize
insert-again rounds works key w s e good = ground arith

-- The values before `Resize` are those after it.
IsUpdated-extend :
    (key w : Bytes) (n : ℕ) (blocks blocks' : List Block)
    → IsUpdated key w (extend n blocks) blocks'
    → IsUpdated key w blocks blocks'
IsUpdated-extend key w n blocks blocks' u k = ground (arith, u k, value-extend k n blocks)

insert-filled :
    (rounds : ℕ) (works : ℕ → Bool) (key w : Bytes) (s : KvIndex) (blocks blocks' : List Block)
    → Holds s blocks
    → value key blocks ≡ none
    → is_plain w ≡ true
    → fill key w blocks ≡ some blocks'
    → IsDone works key w blocks (insert (suc rounds) works key w s)
insert-filled rounds works key w s blocks blocks' v new plain filled =
    let (s', round, holds) = insert_round-Holds key w s blocks blocks' v new plain filled in
    inr (
      s',
      blocks',
      insert-found rounds works key w s s' round,
      holds,
      λ k. value-fill key w k blocks blocks' filled new,
    )

-- After a `Resize` that worked.
IsDone-larger :
    (works : ℕ → Bool) (key w : Bytes) (n : ℕ) (blocks : List Block) (now later : Outcome)
    → now ≡ later
    → IsDone works key w (extend n blocks) later
    → IsDone works key w blocks now
IsDone-larger works key w n blocks now later e (inl (s', m, bad, ends, gone)) =
    inl (s', m, bad, e ∙ ends, gone)
IsDone-larger works key w n blocks now later e (inr (s', blocks', ends, holds, u)) =
    inr (s', blocks', e ∙ ends, holds, IsUpdated-extend key w n blocks blocks' u)

-- `Insert` of a new key comes to an end: the file doubles in every round that finds no room, so as many rounds as
-- the value has bytes are enough, and two more.
pub insert-IsDone :
    (rounds : ℕ) (works : ℕ → Bool) (key w : Bytes) (s : KvIndex) (blocks : List Block)
    → Holds s blocks
    → value key blocks ≡ none
    → is_plain w ≡ true
    → length w + 1 - total blocks + 2 ≤ rounds
    → IsDone works key w blocks (insert rounds works key w s)
insert-IsDone zero works key w s blocks v new plain enough = absurd (omega arith)
insert-IsDone (suc zero) works key w s blocks v new plain enough = absurd (omega arith)
insert-IsDone (suc (suc rounds)) works key w s blocks v new plain enough =
    elim (Option-cases (fill key w blocks)) [
      | inr (blocks', filled) ↦
          insert-filled (suc rounds) works key w s blocks blocks' v new plain filled
      | inl full ↦
          let round = insert_round-full key w s blocks v full in
          elim (Bool-cases (works (length s.store))) [
            | inr bad ↦ inl (_, _, bad, insert-fails (suc rounds) works key w s round bad, refl)
            | inl good ↦
                let again = insert-again (suc rounds) works key w s round good in
                let holds = resize-Holds s blocks v in
                let new' = value-extend key (total blocks) blocks ∙ new in
                IsDone-larger works key w (total blocks) blocks _ _ again
                  (elim (dec_lt (total blocks) (length w + 1)) [
                    | yes small ↦
                        insert-IsDone (suc rounds) works key w (larger s)
                          (extend (total blocks) blocks) holds new' plain
                          (omega (arith, total-extend (total blocks) blocks, v.positive))
                    | no large ↦
                        let (blocks', filled) =
                          fill-extend key w (total blocks) blocks (omega arith) in
                        insert-filled rounds works key w (larger s) (extend (total blocks) blocks)
                          blocks' holds new' plain filled
                  ])
          ]
    ]

set-insert :
    (rounds : ℕ) (works : ℕ → Bool) (key w : Bytes) (s : KvIndex)
    → lookup key s.kv ≡ none
    → set rounds works key w s ≡ insert rounds works key w s
unfolding set
set-insert rounds works key w s absent = ground arith

set-delete :
    (rounds : ℕ) (works : ℕ → Bool) (key w : Bytes) (e : Entry) (s s' : KvIndex)
    → lookup key s.kv ≡ some e
    → delete key s ≡ some (true, s')
    → set rounds works key w s ≡ insert rounds works key w s'
unfolding set
set-delete rounds works key w e s s' found gone = ground arith

IsDone-same :
    (works : ℕ → Bool) (key w : Bytes) (blocks : List Block) (now later : Outcome)
    → now ≡ later
    → IsDone works key w blocks later
    → IsDone works key w blocks now
IsDone-same works key w blocks now later e (inl (s', m, bad, ends, gone)) =
    inl (s', m, bad, e ∙ ends, gone)
IsDone-same works key w blocks now later e (inr (s', blocks', ends, holds, u)) =
    inr (s', blocks', e ∙ ends, holds, u)

lookup-value :
    (key w : Bytes) (s : KvIndex) (blocks : List Block)
    → Holds s blocks
    → value key blocks ≡ some w
    → (e : Entry) × (lookup key s.kv ≡ some e)
lookup-value key w s blocks v here =
    let (o, at, low, high) = offset-some key w 0 blocks here in
    let (e, found, place) = lookup-some key o s blocks v at in (e, found)

-- The values of the other keys are the same without the key's own.
IsDone-release :
    (works : ℕ → Bool) (key w : Bytes) (blocks : List Block) (now later : Outcome)
    → IsTidy blocks
    → now ≡ later
    → IsDone works key w (release key blocks) later
    → IsDone works key w blocks now
IsDone-release works key w blocks now later t e (inl (s', m, bad, ends, gone)) =
    inl (s', m, bad, e ∙ ends, gone)
IsDone-release works key w blocks now later t e (inr (s', blocks', ends, holds, u)) = inr (
  s',
  blocks',
  e ∙ ends,
  holds,
  λ k. ground (arith, u k, value-release key k blocks t, key_eq_iff key k),
)

-- `Set` of a value without a 0, in an index that holds blocks, whether the key has a value or not: within as many
-- rounds as the value has bytes, and three more, it returns -1 after a system call that failed, and the file is not
-- mapped then; or it returns 0, the key has its value, the other keys have theirs, and the index holds blocks again.
pub set-IsDone :
    (rounds : ℕ) (works : ℕ → Bool) (key w : Bytes) (s : KvIndex) (blocks : List Block)
    → Holds s blocks
    → is_plain w ≡ true
    → length w + 3 ≤ rounds
    → IsDone works key w blocks (set rounds works key w s)
set-IsDone rounds works key w s blocks v plain enough = elim (Option-cases (value key blocks)) [
  | inl new ↦
      IsDone-same works key w blocks _ _
        (set-insert rounds works key w s (lookup-none key s blocks v new))
        (insert-IsDone rounds works key w s blocks v new plain (omega arith))
  | inr (old, here) ↦
      let (s', gone, holds) = delete-Holds key old s blocks v here in
      let (e, found) = lookup-value key old s blocks v here in
      let new : value key (release key blocks) ≡ none =
        ground (arith, value-release key key blocks v.tidy, key_eq_iff key key) in
      IsDone-release works key w blocks _ _ v.tidy (set-delete rounds works key w e s s' found gone)
        (insert-IsDone rounds works key w s' (release key blocks) holds new plain (omega arith))
]
