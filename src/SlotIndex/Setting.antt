-- ===== src/SlotIndex/Setting.antt =====
-- `Set` as a whole, and what it leaves of the ring of copies.
use simple_kv_svr.Base.{
  ℕ, zero, suc, ◌<◌, Bool, true, false, Option, none, some, List, [], ◌∷◌, length, get_or,
  set as set_elem, replicate, ◌==◌, Bytes, Dict, lookup, assign, erase, key_eq_refl, lookup-assign,
  lookup-erase, ◌≡◌, refl, ◌∙◌, arith, Option-cases, Bool-cases, length-set, length-append,
  length-replicate, inl, inr, ◌⊎◌,
}
use simple_kv_svr.SlotIndex.{Entry, KvIndex, zero_slot, resize, append, delete_old, set}
use simple_kv_svr.SlotIndex.Durable.{
  IsDurable, deleted-IsDurable, appended-IsDurable, grown-IsDurable,
}
use simple_kv_svr.SlotIndex.Holds.{Holds, expired}
use simple_kv_svr.SlotIndex.Methods.{
  IsText, without_cache, deleted, delete-deleted, appended, append-appended, grown, grown-Holds,
}

-- What every method but `Get` does to the ring of copies: its turn stays, and what is free stays free.
pub record IsQuiet (s s' : KvIndex) : Type 0 where
  pub turn : s'.cache_turn ≡ s.cache_turn
  pub free : (c : ℕ) → get_or s.cache_element c none ≡ none → get_or s'.cache_element c none ≡ none

get_or-set_none :
    (xs : List (Option ℕ)) (i c : ℕ)
    → get_or xs c none ≡ none
    → get_or (set_elem xs i none) c none ≡ none
get_or-set_none [] i c h = refl
get_or-set_none (x ∷ xs) zero zero h = refl
get_or-set_none (x ∷ xs) zero (suc c) h = h
get_or-set_none (x ∷ xs) (suc i) zero h = h
get_or-set_none (x ∷ xs) (suc i) (suc c) h = get_or-set_none xs i c h

pub deleted-IsQuiet : (key : Bytes) (e : Entry) (s : KvIndex) → IsQuiet s (deleted key e s)
deleted-IsQuiet key e s = elim (Option-cases e.cached) [
  | inl none_there ↦ rw none_there (record { turn = refl; free = λ c h. h })
  | inr (i, there) ↦
      rw there (record { turn = refl; free = λ c h. get_or-set_none s.cache_element i c h })
]

deleted-room :
    (key : Bytes) (e : Entry) (s : KvIndex)
    → s.size < length s.store
    → (deleted key e s).size < length (deleted key e s).store
deleted-room key e s room =
    let len =
      length-set s.store e.slot (record (get_or s.store e.slot zero_slot) { flag = false }) in
    elim (Option-cases e.cached) [
      | inl none_there ↦ rw none_there (omega (arith, len))
      | inr (c, there) ↦ rw there (omega (arith, len))
    ]

pub Holds-same :
    (s : KvIndex) (d d' : Dict Bytes)
    → ((k : Bytes) → lookup k d' ≡ lookup k d)
    → Holds s d
    → Holds s d'
Holds-same s d d' same v = record {
  mapped = v.mapped;
  fits = v.fits;
  positive = v.positive;
  copies = v.copies;
  elements = v.elements;
  entries = v.entries;
  agrees = λ k. same k ∙ v.agrees k;
}

assign-erase :
    (key value k : Bytes) (d : Dict Bytes)
    → lookup k (assign key value d) ≡ lookup k (assign key value (erase key d))
assign-erase key value k d = ground (
  arith,
  lookup-assign key k value d,
  lookup-assign key k value (erase key d),
  lookup-erase key k d,
)

-- `Set` once there is room for another slot.
set_room :
    (key value : Bytes) (s : KvIndex) (d : Dict Bytes)
    → IsText key
    → IsText value
    → s.size < length s.store
    → Holds s d
    → (s₂ : KvIndex) × (delete_old key s ≡ some s₂)
      × (append key value s₂ ≡ some (appended key value s₂))
      × Holds (appended key value s₂) (assign key value d)
      × IsQuiet s (appended key value s₂)
      × (0 < length key → IsDurable s → IsDurable (appended key value s₂))
unfolding delete_old
set_room key value s d tk tv room v = elim (Option-cases (lookup key s.kv)) [
  | inl absent ↦
      let (done, holds) = append-appended key value s d tk tv room v in
      (
        s,
        ground arith,
        done,
        holds,
        record { turn = refl; free = λ c h. h },
        λ pos dur. appended-IsDurable key value s d pos room absent v dur,
      )
  | inr (e, found) ↦
      let (gone, left) = delete-deleted key e s d found v in
      let same = assign-erase key value in
      let q = deleted-IsQuiet key e s in
      let (done, holds) =
        append-appended key value (deleted key e s) (erase key d) tk tv (deleted-room key e s room)
          left in
      (
        deleted key e s,
        ground (arith, gone),
        done,
        Holds-same (appended key value (deleted key e s)) (assign key value (erase key d))
            (assign key value d) (λ k. same k d) holds,
        record { turn = q.turn; free = q.free },
        λ pos dur.
            appended-IsDurable key value (deleted key e s) (erase key d) pos
              (deleted-room key e s room)
              (ground (
                arith,
                lookup-erase key key (without_cache e (expired e.slot s)).kv,
                key_eq_refl key,
              ))
              left (deleted-IsDurable key e s d found v dur),
      )
]

-- `Set` of texts that a slot holds: with no free slot and no room on the disk it returns -1 and leaves
-- the store unmapped; otherwise it returns 0, and the dictionary has the key with its new value. If
-- the slots told the dictionary before and the key is not empty, then they do so afterwards.
pub set-Holds :
    (works : Bool) (key value : Bytes) (s : KvIndex) (d : Dict Bytes)
    → IsText key
    → IsText value
    → Holds s d
    → ((works ≡ false)
        × (s.size ≡ length s.store)
        × (set works key value s ≡ some (false, record s { mapped = false })))
      ⊎ ((s' : KvIndex) × (set works key value s ≡ some (true, s'))
          × Holds s' (assign key value d)
          × IsQuiet s s'
          × (0 < length key → IsDurable s → IsDurable s'))
unfolding set resize
set-Holds works key value s d tk tv v = elim (Bool-cases (s.size == length s.store)) [
  | inr less ↦
      let (s₂, gone, done, holds, quiet, lasting) =
        set_room key value s d tk tv (ground (arith, v.fits)) v in
      inr (appended key value s₂, ground (arith, gone, done), holds, quiet, lasting)
  | inl full ↦ elim (Bool-cases works) [
    | inr fails ↦ inl (fails, ground arith, ground arith)
    | inl grows ↦
        let (s₂, gone, done, holds, quiet, lasting) =
          set_room key value (grown s) d tk tv
            (ground (
              arith,
              v.positive,
              length-append s.store (replicate (length s.store) zero_slot),
              length-replicate (length s.store) zero_slot,
            ))
            (grown-Holds s d v) in
        inr (
          appended key value s₂,
          ground (arith, gone, done),
          holds,
          record { turn = quiet.turn; free = quiet.free },
          λ pos dur. lasting pos (grown-IsDurable s dur),
        )
  ]
]
