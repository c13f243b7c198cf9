-- ===== src/SlotIndex/Disk/Loading.antt =====
-- What the loop of `Start` makes of the slots of an index.
use native.Mathlib.Decide.{ℕ_discrete}
use simple_kv_svr.Base.{
  ℕ, zero, suc, ◌+◌, ◌≤◌, ◌<◌, true, false, ◌&&◌, Option, none, some, List, [], ◌∷◌, length, get_or,
  drop, drop_past_end, ltb, if◌then◌else◌, Bytes, Dict, lookup, key_eq, key_eq_iff, lookup-assign,
  ◌≡◌, refl, ap, ◌∙◌, arith, Option-cases, Bool-cases, inl, inr,
}
use simple_kv_svr.SlotIndex.{Slot, Entry, KvIndex, zero_slot, is_zero}
use simple_kv_svr.SlotIndex.Disk.{load_slots, place}
use simple_kv_svr.SlotIndex.Durable.{slot_of, slot_in, IsDurable}
use simple_kv_svr.SlotIndex.Holds.{Holds}

-- The slot of a key in the map that `Start` builds.
abbrev pub slot_under : Bytes → Dict Entry → Option ℕ
slot_under k kv = elim (lookup k kv) [ none ↦ none | some e ↦ some e.slot ]

-- The last slot with the key before the first one that is all zeros.
unfoldable pub last_slot : Bytes → List Slot → ℕ → Option ℕ → Option ℕ
last_slot k [] i found = found
last_slot k (slot ∷ store) i found =
    let rest =
      last_slot k store (i + 1) (if slot.flag && key_eq slot.key k then some i else found) in
    if is_zero slot then found else rest

pub place-slot_under :
    (key k : Bytes) (i next : ℕ) (kv : Dict Entry)
    → slot_under k (place key i (kv, next)).0 ≡ (if key_eq key k then some i else slot_under k kv)
place-slot_under key k i next kv = elim (Option-cases (lookup key kv)) [
  | inl absent ↦
      ground (arith, lookup-assign key k (record { node = next; cached = none; slot = i }) kv)
  | inr (e, found) ↦ ground (arith, lookup-assign key k (record e { cached = none; slot = i }) kv)
]

pub load_slots-last_slot :
    (k : Bytes) (store : List Slot) (i : ℕ) (kv : Dict Entry × ℕ)
    → slot_under k (load_slots store i kv).0.0 ≡ last_slot k store i (slot_under k kv.0)
unfolding load_slots last_slot
load_slots-last_slot k [] i kv = refl
load_slots-last_slot k (slot ∷ store) i kv = ground (
  arith,
  load_slots-last_slot k store (i + 1) kv,
  load_slots-last_slot k store (i + 1) (place slot.key i kv),
  place-slot_under slot.key k i kv.1 kv.0,
)

-- No element of the map has a copy.
abbrev pub IsBare : Dict Entry → Type 0
IsBare kv = (k : Bytes) (e : Entry) → lookup k kv ≡ some e → e.cached ≡ none

pub nothing-IsBare : IsBare []
unfolding lookup
nothing-IsBare k e h = cc

pub place-IsBare :
    (key : Bytes) (i next : ℕ) (kv : Dict Entry) → IsBare kv → IsBare (place key i (kv, next)).0
place-IsBare key i next kv v k e h = elim (Option-cases (lookup key kv)) [
  | inl absent ↦
      ground
        (arith, v k e, lookup-assign key k (record { node = next; cached = none; slot = i }) kv)
  | inr (f, found) ↦
      ground (arith, v k e, lookup-assign key k (record f { cached = none; slot = i }) kv)
]

pub load_slots-IsBare :
    (store : List Slot) (i : ℕ) (kv : Dict Entry × ℕ)
    → IsBare kv.0
    → IsBare (load_slots store i kv).0.0
unfolding load_slots
load_slots-IsBare [] i kv v = v
load_slots-IsBare (slot ∷ store) i kv v = elim (Bool-cases (is_zero slot)) [
  | inl last ↦ rw last v
  | inr more ↦ elim (Bool-cases slot.flag) [
    | inl valid ↦
        rw (more, valid)
          (load_slots-IsBare store (i + 1) (place slot.key i kv)
            (place-IsBare slot.key i kv.1 kv.0 v))
    | inr gone ↦ rw (more, gone) (load_slots-IsBare store (i + 1) kv v)
  ]
]

-- The slots from `i` on.
drop-cons :
    (store : List Slot) (i : ℕ)
    → i < length store
    → drop i store ≡ get_or store i zero_slot ∷ drop (suc i) store
drop-cons [] i h = absurd (omega arith)
drop-cons (x ∷ store) zero h = refl
drop-cons (x ∷ store) (suc i) h = drop-cons store i (omega arith)

-- What of a key's slot the loop has come past.
abbrev pub passed : ℕ → Option ℕ → Option ℕ
passed i none = none
passed i (some j) = if ltb j i then some j else none

passed_all : (i : ℕ) (t : Option ℕ) → ((j : ℕ) → t ≡ some j → j < i) → passed i t ≡ t
passed_all i none h = refl
passed_all i (some j) h = ground (arith, h j)

-- The step of the loop over a slot in use.
passed-step :
    (i : ℕ) (k : Bytes) (s : KvIndex)
    → IsDurable s
    → i < s.size
    → (if (slot_in s i).flag && key_eq (slot_in s i).key k then some i else passed i (slot_of s k))
      ≡ passed (i + 1) (slot_of s k)
passed-step i k s v h = elim (Option-cases (slot_of s k)) [
  | inl absent ↦ ground (arith, v.indexed i, key_eq_iff (slot_in s i).key k)
  | inr (j, there) ↦ ground (arith, v.flagged k j, v.indexed i, key_eq_iff (slot_in s i).key k)
]

last_slot-cons :
    (k : Bytes) (slot : Slot) (store : List Slot) (i : ℕ) (found : Option ℕ)
    → is_zero slot ≡ false
    → last_slot k (slot ∷ store) i found
      ≡ last_slot k store (i + 1) (if slot.flag && key_eq slot.key k then some i else found)
unfolding last_slot
last_slot-cons k slot store i found h = ground arith

last_slot-end :
    (k : Bytes) (slot : Slot) (store : List Slot) (i : ℕ) (found : Option ℕ)
    → is_zero slot ≡ true
    → last_slot k (slot ∷ store) i found ≡ found
unfolding last_slot
last_slot-end k slot store i found h = ground arith

last_slot-nil : (k : Bytes) (i : ℕ) (found : Option ℕ) → last_slot k [] i found ≡ found
unfolding last_slot
last_slot-nil k i found = refl

clean-is_zero : (s : KvIndex) (i : ℕ) → IsDurable s → s.size ≤ i → is_zero (slot_in s i) ≡ true
unfolding key_eq
clean-is_zero s i v h = ap is_zero (v.clean i h)

pub last_slot-IsDurable :
    (left i : ℕ) (k : Bytes) (s : KvIndex)
    → IsDurable s
    → left + i ≡ length s.store
    → ((j : ℕ) → slot_of s k ≡ some j → j < s.size)
    → i ≤ s.size
    → s.size ≤ length s.store
    → last_slot k (drop i s.store) i (passed i (slot_of s k)) ≡ slot_of s k
last_slot-IsDurable zero i k s v len own at fits =
    ap (λ xs. last_slot k xs i (passed i (slot_of s k))) (drop_past_end i s.store (omega arith))
    ∙ last_slot-nil k i (passed i (slot_of s k))
    ∙ passed_all i (slot_of s k) (λ j h. omega (arith, own j h))
last_slot-IsDurable (suc left) i k s v len own at fits = elim (ℕ_discrete i s.size) [
  | yes end ↦
      ap (λ xs. last_slot k xs i (passed i (slot_of s k))) (drop-cons s.store i (omega arith))
      ∙ last_slot-end k (slot_in s i) (drop (suc i) s.store) i (passed i (slot_of s k))
          (clean-is_zero s i v (omega arith))
      ∙ passed_all i (slot_of s k) (λ j h. omega (arith, own j h))
  | no more ↦
      let e : i + 1 ≡ suc i = omega arith in
      ap (λ xs. last_slot k xs i (passed i (slot_of s k))) (drop-cons s.store i (omega arith))
      ∙ last_slot-cons k (slot_in s i) (drop (suc i) s.store) i (passed i (slot_of s k))
          (ground (arith, v.keyed i))
      ∙ ap (λ t. last_slot k (drop (suc i) s.store) (i + 1) t) (passed-step i k s v (omega arith))
      ∙ ap (λ j. last_slot k (drop (suc i) s.store) j (passed j (slot_of s k))) e
      ∙ last_slot-IsDurable left (suc i) k s v (omega arith) own (omega arith) fits
]

not_zero : (s : KvIndex) (i : ℕ) → IsDurable s → i < s.size → is_zero (slot_in s i) ≡ false
not_zero s i v h = ground (arith, v.keyed i)

load_slots-nil : (i : ℕ) (kv : Dict Entry × ℕ) → (load_slots [] i kv).1 ≡ i
unfolding load_slots
load_slots-nil i kv = refl

load_slots-end :
    (slot : Slot) (store : List Slot) (i : ℕ) (kv : Dict Entry × ℕ)
    → is_zero slot ≡ true
    → (load_slots (slot ∷ store) i kv).1 ≡ i
unfolding load_slots
load_slots-end slot store i kv h = rw h refl

load_slots-more :
    (slot : Slot) (store : List Slot) (i : ℕ) (kv : Dict Entry × ℕ)
    → is_zero slot ≡ false
    → (load_slots (slot ∷ store) i kv).1
      ≡ (load_slots store (i + 1) (if slot.flag then place slot.key i kv else kv)).1
unfolding load_slots
load_slots-more slot store i kv h = rw h refl

-- The new `size_`.
pub load_slots-size :
    (left i : ℕ) (s : KvIndex) (kv : Dict Entry × ℕ)
    → IsDurable s
    → left + i ≡ length s.store
    → i ≤ s.size
    → s.size ≤ length s.store
    → (load_slots (drop i s.store) i kv).1 ≡ s.size
load_slots-size zero i s kv v len at fits =
    ap (λ xs. (load_slots xs i kv).1) (drop_past_end i s.store (omega arith))
    ∙ load_slots-nil i kv
    ∙ omega arith
load_slots-size (suc left) i s kv v len at fits = elim (ℕ_discrete i s.size) [
  | yes end ↦
      ap (λ xs. (load_slots xs i kv).1) (drop-cons s.store i (omega arith))
      ∙ load_slots-end (slot_in s i) (drop (suc i) s.store) i kv (clean-is_zero s i v (omega arith))
      ∙ end
  | no more ↦
      let e : i + 1 ≡ suc i = omega arith in
      let next = if (slot_in s i).flag then place (slot_in s i).key i kv else kv in
      ap (λ xs. (load_slots xs i kv).1) (drop-cons s.store i (omega arith))
      ∙ load_slots-more (slot_in s i) (drop (suc i) s.store) i kv (not_zero s i v (omega arith))
      ∙ ap (λ j. (load_slots (drop (suc i) s.store) j next).1) e
      ∙ load_slots-size left (suc i) s next v (omega arith) (omega arith) fits
]

pub slot_of-lt :
    (s : KvIndex) (d : Dict Bytes) (k : Bytes)
    → Holds s d
    → (j : ℕ) → slot_of s k ≡ some j
    → j < s.size
slot_of-lt s d k v j h = elim (Option-cases (lookup k s.kv)) [
  | inl absent ↦ absurd (ground arith)
  | inr (e, found) ↦ ground (arith, v.entries k e found)
]
