-- ===== src/Store/Rebuild.antt =====
-- `reBuild` and `rebuildFile` of simplekvsvr_v2/simplekvstore.h: the thread that compacts the last file
-- but one into a new file. It is modelled as running alone.
pub mod Compact
pub mod Stale
mod Tests
use simple_kv_svr.Base.{
  ℕ, zero, suc, ◌+◌, ◌-◌, Bool, true, false, not, ◌&&◌, Option, none, some, List, [], ◌∷◌, ◌++◌,
  length, get_elem?, set as set_elem, take, replicate, if◌then◌else◌, Bytes, is_positive,
}
use simple_kv_svr.DataNode.{
  Record, DataNode, AppendIo, ReadIo, Fetch, append_record, get_record, max_key, max_value,
}
use simple_kv_svr.Index
use simple_kv_svr.Index.{RecordOffset, SimpleKvIndex}
use simple_kv_svr.Store.{SimpleKvStore, deref, file_num}

-- What the system calls do for the record at an offset of the old file.
pub record RebuildIo : Type 0 where
  pub read : ℕ → ReadIo
  pub append : ℕ → AppendIo

-- What is done after an append that wrote `n` bytes: a record with a value is moved in the index,
-- and where the index does not have it at its old place, `totalOffset` is set back.
pub keep_record :
    RecordOffset → RecordOffset → Record → ℕ → DataNode → SimpleKvIndex → DataNode × SimpleKvIndex
keep_record old_offset new_offset r n node index =
    let (index', moved) = Index.compare_and_set r.key r.key_len old_offset new_offset index in
    if is_positive r.value_len
    then if moved
      then (node, index')
      else (record node { total_offset = node.total_offset - n }, index')
    else (node, index)

-- One round behind the read of `r`, which had `n` bytes.
pub copy_record :
    RebuildIo → ℕ → ℕ → ℕ → ℕ → Record → DataNode → SimpleKvIndex → DataNode × SimpleKvIndex
unfolding keep_record
copy_record io old new offset n r node index =
    let (node', wrote) = append_record (io.append offset) r node in
    elim wrote [
      | none ↦ (node', index)
      | some _ ↦
          keep_record (record { data_node = old; offset = offset })
            (record { data_node = new; offset = node.total_offset }) r n node' index
    ]

-- The loop of `reBuild`, over the file of `d` at the address `old`; the new node is at `new`.
pub re_build_loop :
    ℕ
    → RebuildIo
    → ℕ
    → ℕ
    → DataNode
    → ℕ
    → DataNode
    → SimpleKvIndex
    → Option (DataNode × SimpleKvIndex)
re_build_loop zero io old new d offset node index = none
re_build_loop (suc fuel) io old new d offset node index =
    elim (get_record (io.read offset) max_key max_value offset d) [
      | Fetch.at_end ↦ some (node, index)
      | Fetch.failed ↦ some (node, index)
      | Fetch.overrun ↦ none
      | Fetch.got n r ↦
          let kept = copy_record io old new offset n r node index in
          re_build_loop fuel io old new d (offset + n) kept.0 kept.1
    ]

-- `ftruncate` cuts a file, or lengthens it by zeros.
abbrev pub truncate : ℕ → Bytes → Bytes
truncate n bs = take n bs ++ replicate (n - length bs) 0

unfoldable pub re_build :
    RebuildIo → ℕ → ℕ → DataNode → SimpleKvIndex → Option (DataNode × SimpleKvIndex)
re_build io old new d index =
    elim (re_build_loop (suc (length d.bytes)) io old new d 0
      (record { file_name = d.file_name; bytes = []; total_offset = 0 }) index) [
        | none ↦ none
        | some (node, index') ↦
            some (record node { bytes = truncate node.total_offset node.bytes }, index')
      ]

-- `rebuildFile`: the new node takes the old one's place in `fileList` and on disk, and the old object
-- is deleted.
pub rebuild_file : RebuildIo → SimpleKvStore → Option SimpleKvStore
rebuild_file io s = elim (get_elem? s.file_list (file_num s - 2)) [
  | none ↦ none
  | some old ↦ elim (deref s old) [
    | none ↦ none
    | some d ↦ elim (re_build io old (length s.nodes) d s.index) [
      | none ↦ none
      | some (node, index') ↦ some (record s {
        nodes = set_elem (s.nodes ++ (some node ∷ [])) old none;
        file_list = set_elem s.file_list (file_num s - 2) (length s.nodes);
        index = index';
        rebuilds = s.rebuilds - 1;
      })
    ]
  ]
]
