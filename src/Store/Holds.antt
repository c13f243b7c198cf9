-- ===== src/Store/Holds.antt =====
-- Where a value lies in the store, and which changes of the store leave it there.
use native.Mathlib.Decide.{ℕ_discrete}
use mathlib.Core.Path.{subst}
use simple_kv_svr.Base.{
  ap, ◌∙◌, ℕ, ◌≡◌, sym, Option, some, List, [], ◌++◌, length, get_elem?, set as set_elem,
  append-nil, append_assoc, get_elem?-append, get_elem?-lt, get_elem?-set_self, get_elem?-set_ne,
  Bytes, arith,
}
use simple_kv_svr.DataNode.{DataNode, all_read, Fetch, get_record}
use simple_kv_svr.DataNode.Log.{Extends, get_record-Extends}
use simple_kv_svr.Index.{RecordOffset, SimpleKvIndex}
use simple_kv_svr.Store.{SimpleKvStore, deref}

-- At `position` of the store lies a record of the key `k` with the value `v`.
pub record Holds (s : SimpleKvStore) (position : RecordOffset) (k v : Bytes) : Type 0 where
  pub node : DataNode
  pub there : deref s position.data_node ≡ some node
  pub count : ℕ
  pub crc : ℕ
  pub read :
      get_record all_read (length k) (length v) position.offset node
      ≡ Fetch.got count
          (record { crc = crc; key_len = length k; value_len = length v; key = k; value = v })

-- The objects of `s` are there in `s'`, with their files grown or as they were.
pub record Grows (s s' : SimpleKvStore) : Type 0 where
  pub grown :
      (p : ℕ) (d : DataNode)
      → deref s p ≡ some d
      → (d' : DataNode) × (deref s' p ≡ some d') × Extends d d'

pub Holds-Grows :
    {s s' : SimpleKvStore} {position : RecordOffset} {k v : Bytes}
    → Grows s s'
    → Holds s position k v
    → Holds s' position k v
Holds-Grows {s} {s'} {position} {k} {v} g h =
    let (d', there', longer) = g.grown position.data_node h.node h.there in
    record {
      node = d';
      there = there';
      count = h.count;
      crc = h.crc;
      read =
          get_record-Extends all_read (length k) (length v) position.offset h.node d' h.count _
            longer h.read;
    }

pub Grows-refl : (s : SimpleKvStore) → Grows s s
Grows-refl s = record { grown = λ p d h. (d, h, ([], sym (append-nil d.bytes))) }

pub Grows-trans : {s t u : SimpleKvStore} → Grows s t → Grows t u → Grows s u
Grows-trans {s} {t} {u} g h = record {
  grown = λ p d e.
      let (d₁, e₁, (more₁, x₁)) = g.grown p d e in
      let (d₂, e₂, (more₂, x₂)) = h.grown p d₁ e₁ in
      (
        d₂,
        e₂,
        (
          more₁ ++ more₂,
          x₂ ∙ (ap (λ (b : Bytes). b ++ more₂) x₁ ∙ append_assoc d.bytes more₁ more₂),
        ),
      );
}

pub cell-of_deref :
    (s : SimpleKvStore) (p : ℕ) (d : DataNode)
    → deref s p ≡ some d
    → get_elem? s.nodes p ≡ some (some d)
cell-of_deref s p d h = ground arith

pub deref-of_cell :
    (s : SimpleKvStore) (p : ℕ) (d : DataNode)
    → get_elem? s.nodes p ≡ some (some d)
    → deref s p ≡ some d
deref-of_cell s p d h = ground arith

-- Adding objects at the end of the heap.
pub Grows-append :
    (s s' : SimpleKvStore) (more : List (Option DataNode)) → s'.nodes ≡ s.nodes ++ more → Grows s s'
Grows-append s s' more e = record {
  grown = λ p d h. (
    d,
    deref-of_cell s' p d (rw e (get_elem?-append s.nodes more p (some d) (cell-of_deref s p d h))),
    ([], sym (append-nil d.bytes)),
  );
}

-- Replacing one object by one with its file grown.
pub Grows-set :
    (s s' : SimpleKvStore) (q : ℕ) (old new : DataNode)
    → deref s q ≡ some old
    → Extends old new
    → s'.nodes ≡ set_elem s.nodes q (some new)
    → Grows s s'
Grows-set s s' q old new there longer e = record {
  grown = λ p d h. elim (ℕ_discrete q p) [
    | yes same ↦ (
      new,
      deref-of_cell s' p new (
          rw (e, ← same)
            (get_elem?-set_self s.nodes q (some new)
              (get_elem?-lt s.nodes q _ (cell-of_deref s q old there)))),
      subst (λ (x : DataNode). Extends x new) (same_node p d h same) longer,
    )
    | no other ↦ (
      d,
      deref-of_cell s' p d
          (rw (e, get_elem?-set_ne s.nodes (some new) other) (cell-of_deref s p d h)),
      ([], sym (append-nil d.bytes)),
    )
  ];
}
  where
    same_node : (p : ℕ) (d : DataNode) → deref s p ≡ some d → q ≡ p → old ≡ d
    same_node p d h same = cc

-- The index of a store plays no part in what its objects are.
module _ (s : SimpleKvStore) (i : SimpleKvIndex) where
  pub Holds-index :
      {place : RecordOffset} {k v : Bytes}
      → Holds s place k v
      → Holds (record s { index = i }) place k v
  Holds-index h = record {
    node = h.node;
    there = h.there;
    count = h.count;
    crc = h.crc;
    read = h.read;
  }

  pub Grows-index :
      {before : SimpleKvStore} → Grows before s → Grows before (record s { index = i })
  Grows-index g = record { grown = g.grown }
