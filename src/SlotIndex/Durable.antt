-- ===== src/SlotIndex/Durable.antt =====
-- What it means that the slots alone tell the dictionary, so that `Start` finds it again, and that
-- `Delete` and the end of `Set` keep it so.
use native.Mathlib.Decide.{ℕ_discrete}
use simple_kv_svr.Base.{
  ℕ, ◌≤◌, ◌<◌, true, false, Option, none, some, [], ◌∷◌, length, get_or, set as set_elem,
  if◌then◌else◌, Bytes, Dict, lookup, key_eq, key_eq_iff, lookup-erase, ◌≡◌, ◌≢◌, refl, arith,
  Option-cases, get_or-append_default, get_or-set_self, get_or-set_ne, inl, inr,
}
use simple_kv_svr.SlotIndex.{Slot, Entry, KvIndex, zero_slot, uncache}
use simple_kv_svr.SlotIndex.Entries.{lookup-uncache}
use simple_kv_svr.SlotIndex.Holds.{Holds}
use simple_kv_svr.SlotIndex.Methods.{deleted, appended, touched-lookup, grown}

-- The slot of a key.
abbrev pub slot_of : KvIndex → Bytes → Option ℕ
slot_of s k = elim (lookup k s.kv) [ none ↦ none | some e ↦ some e.slot ]

abbrev pub slot_in : KvIndex → ℕ → Slot
slot_in s i = get_or s.store i zero_slot

pub record IsDurable (s : KvIndex) : Type 0 where
  pub flagged :
      (k : Bytes) (i : ℕ)
      → slot_of s k ≡ some i
      → ((slot_in s i).flag ≡ true) × ((slot_in s i).key ≡ k)
  pub indexed :
      (i : ℕ) → i < s.size → (slot_in s i).flag ≡ true → slot_of s (slot_in s i).key ≡ some i
  pub keyed : (i : ℕ) → i < s.size → key_eq (slot_in s i).key [] ≡ false
  pub clean : (i : ℕ) → s.size ≤ i → slot_in s i ≡ zero_slot

-- Only the slots of the keys matter, not the copies.
pub IsDurable-same :
    (s s' : KvIndex)
    → ((k : Bytes) → slot_of s' k ≡ slot_of s k)
    → ((i : ℕ) → slot_in s' i ≡ slot_in s i)
    → s'.size ≡ s.size
    → IsDurable s
    → IsDurable s'
IsDurable-same s s' slots store size v = record {
  flagged = λ k i h. ground (arith, slots k, store i, v.flagged k i);
  indexed = λ i h flag. ground (arith, slots (slot_in s i).key, store i, v.indexed i);
  keyed = λ i h. ground (arith, store i, v.keyed i);
  clean = λ i h. ground (arith, store i, v.clean i);
}

pub deleted-slot_of :
    (key : Bytes) (e : Entry) (s : KvIndex) (k : Bytes)
    → slot_of (deleted key e s) k ≡ (if key_eq key k then none else slot_of s k)
deleted-slot_of key e s k = elim (Option-cases e.cached) [
  | inl bare ↦ rw bare (ground (arith, lookup-erase key k s.kv))
  | inr (c, there) ↦
      rw there
        (ground (arith, lookup-erase key k (uncache e.node s.kv), lookup-uncache e.node k s.kv))
]

abbrev pub unflagged : Slot → Slot
unflagged slot = record slot { flag = false }

-- One key and the flag of its slot are taken away.
removed-IsDurable :
    (s s' : KvIndex) (key : Bytes) (j : ℕ)
    → ((k : Bytes) → slot_of s' k ≡ (if key_eq key k then none else slot_of s k))
    → slot_of s key ≡ some j
    → j < s.size
    → j < length s.store
    → s'.store ≡ set_elem s.store j (unflagged (slot_in s j))
    → s'.size ≡ s.size
    → IsDurable s
    → IsDurable s'
removed-IsDurable s s' key j slots own below short store size v =
    let at = get_or-set_self s.store j (unflagged (slot_in s j)) zero_slot short in
    let off =
      λ (i : ℕ) (ne : i ≢ j). get_or-set_ne s.store j i (unflagged (slot_in s j)) zero_slot ne in
    record {
      flagged = λ k i h. elim (ℕ_discrete i j) [
        | yes same ↦
            absurd (ground (arith, slots k, v.flagged k i, v.flagged key j, key_eq_iff key k))
        | no other ↦ ground (arith, slots k, v.flagged k i, off i)
      ];
      indexed = λ i h flag. elim (ℕ_discrete i j) [
        | yes same ↦ absurd (ground (arith, at))
        | no other ↦ ground (
          arith,
          off i other,
          slots (slot_in s i).key,
          v.indexed i,
          key_eq_iff key (slot_in s i).key,
        )
      ];
      keyed = λ i h. elim (ℕ_discrete i j) [
        | yes same ↦ ground (arith, at, v.keyed j)
        | no other ↦ ground (arith, off i other, v.keyed i)
      ];
      clean = λ i h. elim (ℕ_discrete i j) [
        | yes same ↦ absurd (omega arith)
        | no other ↦ ground (arith, off i other, v.clean i)
      ];
    }

deleted-store :
    (key : Bytes) (e : Entry) (s : KvIndex)
    → ((deleted key e s).store ≡ set_elem s.store e.slot (unflagged (slot_in s e.slot)))
      × ((deleted key e s).size ≡ s.size)
deleted-store key e s = elim (Option-cases e.cached) [
  | inl bare ↦ rw bare (refl, refl)
  | inr (c, there) ↦ rw there (refl, refl)
]

pub deleted-IsDurable :
    (key : Bytes) (e : Entry) (s : KvIndex) (d : Dict Bytes)
    → lookup key s.kv ≡ some e
    → Holds s d
    → IsDurable s
    → IsDurable (deleted key e s)
deleted-IsDurable key e s d found v dur =
    let (store, size) = deleted-store key e s in
    removed-IsDurable s (deleted key e s) key e.slot (deleted-slot_of key e s) (ground arith)
      (v.entries key e found).0 (omega (arith, (v.entries key e found).0, v.fits)) store size dur

pub grown-IsDurable : (s : KvIndex) → IsDurable s → IsDurable (grown s)
grown-IsDurable s v =
    IsDurable-same s (grown s) (λ k. refl)
      (λ i. get_or-append_default s.store (length s.store) i zero_slot) refl v

key_eq-empty : (key : Bytes) → 0 < length key → key_eq key [] ≡ false
unfolding key_eq
key_eq-empty [] h = absurd (omega arith)
key_eq-empty (c ∷ key) h = refl

pub appended-IsDurable :
    (key value : Bytes) (s : KvIndex) (d : Dict Bytes)
    → 0 < length key
    → s.size < length s.store
    → lookup key s.kv ≡ none
    → Holds s d
    → IsDurable s
    → IsDurable (appended key value s)
appended-IsDurable key value s d pos room absent h v =
    let slot : Slot = record { key = key; value = value; flag = true } in
    let slots = touched-lookup key s in
    let at = get_or-set_self s.store s.size slot zero_slot room in
    let off = λ (i : ℕ) (ne : i ≢ s.size). get_or-set_ne s.store s.size i slot zero_slot ne in
    record {
      flagged = λ k i here. elim (ℕ_discrete i s.size) [
        | yes same ↦ ground (arith, slots k, v.flagged k i, v.clean i, at, key_eq_iff key k)
        | no other ↦ ground (arith, slots k, v.flagged k i, off i)
      ];
      indexed = λ i below flag. elim (ℕ_discrete i s.size) [
        | yes same ↦ ground (arith, at, slots key, key_eq_iff key key)
        | no other ↦ ground (
          arith,
          off i other,
          slots (slot_in s i).key,
          v.indexed i,
          key_eq_iff key (slot_in s i).key,
        )
      ];
      keyed = λ i below. elim (ℕ_discrete i s.size) [
        | yes same ↦ ground (arith, at, key_eq-empty key pos)
        | no other ↦ ground (arith, off i other, v.keyed i)
      ];
      clean = λ i above. ground (arith, off i, v.clean i);
    }
