-- ===== src/Store/Rebuild/Compact.antt =====
-- What the compaction of a log leaves in the new file and in the index.
use mathlib.Core.Path.{ap₂}
use simple_kv_svr.Base.{
  ℕ, zero, suc, ◌+◌, ◌<◌, ◌≡◌, ap, sym, ◌∙◌, some, List, [], ◌∷◌, ◌++◌, append_assoc, append-nil,
  length, if◌then◌else◌, Bytes, arith, is_positive, length-append, take-take,
}
use simple_kv_svr.DataNode.{
  Record, DataNode, all_read, no_fault, Fetch, get_record, max_key, max_value, header_size,
  append_record,
}
use simple_kv_svr.DataNode.Log.{IsRecord, image, length-image, stored, append_record-no_fault}
use simple_kv_svr.DataNode.Scan.{get_record-image, get_record-end, image-stored, stored-IsRecord}
use simple_kv_svr.Index
use simple_kv_svr.Index.{RecordOffset, SimpleKvIndex}
use simple_kv_svr.Store.Load.Replay.{images, AllFit}
use simple_kv_svr.Store.Rebuild.{RebuildIo, copy_record, re_build_loop}

abbrev pub quiet_rebuild : RebuildIo
quiet_rebuild = record { read = λ _. all_read; append = λ _. no_fault }

abbrev pub size_of : Record → ℕ
size_of r = header_size + r.key_len + r.value_len

-- What one record of the log does to the count of the new node and to the index.
abbrev pub compact_one : ℕ → ℕ → ℕ → Record → ℕ × SimpleKvIndex → ℕ × SimpleKvIndex
compact_one old new offset r (total, index) =
    let (index', moved) =
      Index.compare_and_set r.key r.key_len (record { data_node = old; offset = offset })
        (record { data_node = new; offset = total }) index in
    if is_positive r.value_len
    then if moved then (total + size_of r, index') else (total, index')
    else (total + size_of r, index)

unfoldable pub compact : ℕ → ℕ → ℕ → List Record → ℕ × SimpleKvIndex → ℕ × SimpleKvIndex
compact old new offset [] st = st
compact old new offset (r ∷ rs) st =
    compact old new (offset + size_of r) rs (compact_one old new offset r st)

copy_record_lem :
    (old new offset : ℕ) (r : Record) (node : DataNode) (index : SimpleKvIndex)
    → IsRecord r
    → copy_record quiet_rebuild old new offset (size_of r) (stored r) node index ≡ (
      record node {
        bytes = node.bytes ++ image r;
        total_offset = (compact_one old new offset r (node.total_offset, index)).0;
      },
      (compact_one old new offset r (node.total_offset, index)).1,
    )
unfolding copy_record Index.compare_and_set
copy_record_lem old new offset r node index v =
    let e : append_record no_fault (stored r) node ≡ (
      record node { bytes = node.bytes ++ image r; total_offset = node.total_offset + size_of r },
      some (size_of r),
    ) =
      append_record-no_fault (stored r) node (stored-IsRecord r v)
      ∙ ap
          (λ (x : Bytes). (
            record node { bytes = node.bytes ++ x; total_offset = node.total_offset + size_of r },
            some (size_of r),
          ))
          (image-stored r) in
    ground (arith, e, take-take r.key_len r.key)

re_build_loop_got :
    (fuel old new : ℕ) (d : DataNode) (offset : ℕ) (node : DataNode) (index : SimpleKvIndex) (n : ℕ)
    (r : Record) (kept : DataNode × SimpleKvIndex)
    → get_record all_read max_key max_value offset d ≡ Fetch.got n r
    → copy_record quiet_rebuild old new offset n r node index ≡ kept
    → re_build_loop (suc fuel) quiet_rebuild old new d offset node index
      ≡ re_build_loop fuel quiet_rebuild old new d (offset + n) kept.0 kept.1
unfolding re_build_loop
re_build_loop_got fuel old new d offset node index n r kept h e = rw (h, re_build_loop) (rw e)

-- The loop, over a log of records that fit, with system calls that succeed: every record is in the new
-- file, the stale ones too, but `totalOffset` counts only those that were kept.
pub re_build_loop_lem :
    (fuel old new : ℕ) (d : DataNode) (before : Bytes) (rs : List Record) (node : DataNode)
    (index : SimpleKvIndex)
    → length rs < fuel
    → AllFit rs
    → d.bytes ≡ before ++ images rs
    → re_build_loop fuel quiet_rebuild old new d (length before) node index ≡ (
        let (total, index') = compact old new (length before) rs (node.total_offset, index) in
        some (record node { bytes = node.bytes ++ images rs; total_offset = total }, index'))
unfolding re_build_loop images compact
re_build_loop_lem zero old new d before rs node index f v e = absurd (omega arith)
re_build_loop_lem (suc fuel) old new d before [] node index f v e =
    let whole : d.bytes ≡ before = e ∙ append-nil before in
    let ended : get_record all_read max_key max_value (length before) d ≡ Fetch.at_end =
      rw (← whole) (get_record-end max_key max_value d) in
    ground (arith, ended, append-nil node.bytes)
re_build_loop_lem (suc fuel) old new d before (r ∷ rs) node index f ((v, hk, hv), vs) e =
    let read = get_record-image max_key max_value d r before (images rs) v hk hv e in
    let here : length (before ++ image r) ≡ length before + size_of r =
      omega (arith, length-append before (image r), length-image r v) in
    let next =
      re_build_loop_lem fuel old new d (before ++ image r) rs
        (record node {
          bytes = node.bytes ++ image r;
          total_offset = (compact_one old new (length before) r (node.total_offset, index)).0;
        })
        (compact_one old new (length before) r (node.total_offset, index)).1 (omega arith) vs
        (e ∙ sym (append_assoc before (image r) (images rs))) in
    re_build_loop_got fuel old new d (length before) node index (size_of r) (stored r) _ read
      (copy_record_lem old new (length before) r node index v)
    ∙ rw (← here) (
        next
        ∙ ap₂
            (λ (bs : Bytes) (o : ℕ).
              let st =
                compact old new o rs
                  (compact_one old new (length before) r (node.total_offset, index)) in
              some (record node { bytes = bs; total_offset = st.0 }, st.1))
            (append_assoc node.bytes (image r) (images rs)) here)
