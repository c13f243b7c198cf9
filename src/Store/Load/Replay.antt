-- ===== src/Store/Load/Replay.antt =====
-- What the load of a file makes of the records in it.
use native.Mathlib.Nat.{add_assoc, le_refl}
use simple_kv_svr.Base.{
  take-take, ℕ, zero, suc, ◌+◌, ◌≤◌, ◌<◌, ◌≡◌, ◌≢◌, refl, sym, ◌∙◌, true, none, some, List, [], ◌∷◌,
  ◌++◌, append_assoc, append-nil, length, take, if◌then◌else◌, Bytes, arith, lookup, key_eq_refl,
  is_positive, length-append,
}
use simple_kv_svr.DataNode.{
  Record, DataNode, all_read, Fetch, get_record, max_key, max_value, header_size,
}
use simple_kv_svr.DataNode.Log.{IsRecord, image, length-image, stored}
use simple_kv_svr.DataNode.Scan.{get_record-image, get_record-end}
use simple_kv_svr.Index
use simple_kv_svr.Index.{RecordOffset, SimpleKvIndex}
use simple_kv_svr.Index.Laws.{get_val-save_val}
use simple_kv_svr.Store.Load.{load_records}

-- A file as a log: the images of records, one behind the other.
unfoldable pub images : List Record → Bytes
images [] = []
images (r ∷ rs) = image r ++ images rs

-- Records that the buffers of the load have room for.
abbrev pub AllFit : List Record → Type 0
AllFit [] = Unit {0}
AllFit (r ∷ rs) = (IsRecord r × (r.key_len ≤ max_key) × (r.value_len ≤ max_value)) × AllFit rs

-- The key of a record.
abbrev pub record_key : Record → Bytes
record_key r = take r.key_len r.key

-- What one record does to the index: one with a value takes its key, a tombstone does nothing.
abbrev pub replay_one : ℕ → ℕ → Record → SimpleKvIndex → SimpleKvIndex
replay_one address offset r index =
    if is_positive r.value_len
    then (Index.save_val r.key r.key_len (record { data_node = address; offset = offset }) index).0
    else index

unfoldable pub replay : ℕ → ℕ → List Record → SimpleKvIndex → SimpleKvIndex
replay address offset [] index = index
replay address offset (r ∷ rs) index =
    replay address (offset + (header_size + r.key_len + r.value_len)) rs
      (replay_one address offset r index)

-- One round of the loop.
load_records_got :
    (fuel address : ℕ) (d : DataNode) (offset : ℕ) (index : SimpleKvIndex) (n : ℕ) (r : Record)
    → get_record all_read max_key max_value offset d ≡ Fetch.got n r
    → load_records (suc fuel) (λ _. all_read) address d offset index
      ≡ load_records fuel
          (λ _. all_read)
          address
          (record d { total_offset = d.total_offset + n })
          (offset + n)
          (replay_one address offset r index)
unfolding load_records
load_records_got fuel address d offset index n r h = rw (h, load_records) refl

-- The key of a record is the same as it is read back.
replay_one-stored :
    (address offset : ℕ) (r : Record) (index : SimpleKvIndex)
    → replay_one address offset (stored r) index ≡ replay_one address offset r index
unfolding Index.save_val
replay_one-stored address offset r index = rw (take-take r.key_len r.key)

-- With more fuel than records, the load of a log of records that fit ends at the end of the file: it
-- has replayed every record and counted every byte.
pub load_records_lem :
    (fuel address : ℕ) (d : DataNode) (before : Bytes) (rs : List Record) (index : SimpleKvIndex)
    → length rs < fuel
    → AllFit rs
    → d.bytes ≡ before ++ images rs
    → load_records fuel (λ _. all_read) address d (length before) index
      ≡ some (
        record d { total_offset = d.total_offset + length (images rs) },
        replay address (length before) rs index,
      )
unfolding load_records images replay
load_records_lem zero address d before rs index f v e = absurd (omega arith)
load_records_lem (suc fuel) address d before [] index f v e =
    let whole : d.bytes ≡ before = e ∙ append-nil before in
    let ended : get_record all_read max_key max_value (length before) d ≡ Fetch.at_end =
      rw (← whole) (get_record-end max_key max_value d) in
    ground (arith, ended)
load_records_lem (suc fuel) address d before (r ∷ rs) index f ((v, hk, hv), vs) e =
    let n = header_size + r.key_len + r.value_len in
    let read = get_record-image max_key max_value d r before (images rs) v hk hv e in
    let here : length (before ++ image r) ≡ length before + n =
      omega (arith, length-append before (image r), length-image r v) in
    let total : length (image r ++ images rs) ≡ n + length (images rs) =
      omega (arith, length-append (image r) (images rs), length-image r v) in
    let next =
      load_records_lem fuel address (record d { total_offset = d.total_offset + n })
        (before ++ image r) rs (replay_one address (length before) r index) (omega arith) vs
        (e ∙ sym (append_assoc before (image r) (images rs))) in
    load_records_got fuel address d (length before) index n (stored r) read
    ∙ rw
        (
          replay_one-stored address (length before) r index,
          ← here,
          total,
          ← add_assoc d.total_offset n (length (images rs)),
        )
        next

-- The load never takes a key out of the index.
replay_keeps :
    (address offset : ℕ) (rs : List Record) (index : SimpleKvIndex) (k : Bytes)
    → lookup k index ≢ none
    → lookup k (replay address offset rs index) ≢ none
unfolding replay
replay_keeps address offset [] index k h = h
replay_keeps address offset (r ∷ rs) index k h =
    replay_keeps address (offset + (header_size + r.key_len + r.value_len)) rs
      (replay_one address offset r index) k
      (ground (
        arith,
        get_val-save_val r.key r.key_len (record { data_node = address; offset = offset }) index k,
      ))

-- Deleted keys come back: whatever records stand behind a record with a value, tombstones of its key
-- among them, a load of the file leaves the key in the index.
pub replay_deleted_key_returns :
    (address offset : ℕ) (before after : List Record) (r : Record) (index : SimpleKvIndex)
    → is_positive r.value_len ≡ true
    → lookup (record_key r) (replay address offset (before ++ (r ∷ after)) index) ≢ none
unfolding replay
replay_deleted_key_returns address offset [] after r index h =
    replay_keeps address (offset + (header_size + r.key_len + r.value_len)) after
      (replay_one address offset r index) (record_key r)
      (ground (
        arith,
        h,
        get_val-save_val r.key r.key_len (record { data_node = address; offset = offset }) index
            (record_key r),
        key_eq_refl (record_key r),
      ))
replay_deleted_key_returns address offset (b ∷ before) after r index h =
    replay_deleted_key_returns address (offset + (header_size + b.key_len + b.value_len)) before
      after r (replay_one address offset b index) h

-- The load of a log in which a record with a value has anything behind it, a tombstone of its key say,
-- ends with the key in the index: a restart brings deleted keys back.
pub load_deleted_key_returns :
    (address : ℕ) (d : DataNode) (before after : List Record) (r : Record) (index : SimpleKvIndex)
    → AllFit (before ++ (r ∷ after))
    → is_positive r.value_len ≡ true
    → d.bytes ≡ images (before ++ (r ∷ after))
    → (out : DataNode × SimpleKvIndex) × (load_records
          (suc (length (before ++ (r ∷ after))))
          (λ _. all_read)
          address
          d
          0
          index
        ≡ some out)
      × (lookup (record_key r) out.1 ≢ none)
load_deleted_key_returns address d before after r index v h e = (
  _,
  load_records_lem (suc (length (before ++ (r ∷ after)))) address d [] (before ++ (r ∷ after)) index
      (le_refl _) v e,
  replay_deleted_key_returns address 0 before after r index h,
)
