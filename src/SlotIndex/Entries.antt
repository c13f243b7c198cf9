-- ===== src/SlotIndex/Entries.antt =====
-- The map `kv_` under a write through an iterator.
use simple_kv_svr.Base.{
  ℕ, true, none, some, [], ◌∷◌, ◌==◌, if◌then◌else◌, Bytes, Dict, lookup, ◌≡◌, refl, arith,
}
use simple_kv_svr.SlotIndex.{Entry, is_live, uncache}

-- An element after `second.first = -1` through the iterator at `p`.
abbrev pub without_copy : ℕ → Entry → Entry
without_copy p e = if e.node == p then record e { cached = none } else e

pub lookup-uncache :
    (p : ℕ) (k : Bytes) (kv : Dict Entry)
    → lookup k (uncache p kv)
      ≡ elim (lookup k kv) [ none ↦ none | some e ↦ some (without_copy p e) ]
unfolding lookup uncache
lookup-uncache p k [] = refl
lookup-uncache p k ((j, e) ∷ kv) = ground (arith, lookup-uncache p k kv)

pub is_live-lookup :
    (k : Bytes) (kv : Dict Entry) (e : Entry) → lookup k kv ≡ some e → is_live e.node kv ≡ true
unfolding lookup is_live
is_live-lookup k [] e h = ground arith
is_live-lookup k ((j, f) ∷ kv) e h = ground (arith, is_live-lookup k kv e)
