-- ===== src/Store/Load.antt =====
-- `initlization` of simplekvsvr_v2/simplekvstore.h: the state of the store from the files on disk.
-- A name that was read from the manifest is taken to end where the bytes read end; the source puts
-- no 0 behind it.
pub mod Replay
use simple_kv_svr.Base.{
  ℕ, zero, suc, ◌+◌, Bool, true, false, Option, none, some, List, [], ◌∷◌, ◌++◌, length, take, drop,
  ltb, if◌then◌else◌, Bytes, Dict, lookup, int_of_bytes, is_positive,
}
use simple_kv_svr.DataNode.{Record, DataNode, ReadIo, Fetch, get_record, max_key, max_value}
use simple_kv_svr.Index
use simple_kv_svr.Index.{RecordOffset, SimpleKvIndex}
use simple_kv_svr.Store.{SimpleKvStore, fresh}

-- The inner loop over one file, at `address` in the heap: the node's `totalOffset` and the index.
-- `io` says what the system calls do for the record at an offset. `none` stands for a record that
-- does not fit the buffers of MAXKEY and MAXVALUE bytes, or for fuel that has run out.
pub load_records :
    ℕ → (ℕ → ReadIo) → ℕ → DataNode → ℕ → SimpleKvIndex → Option (DataNode × SimpleKvIndex)
load_records zero io address d offset index = none
load_records (suc fuel) io address d offset index =
    elim (get_record (io offset) max_key max_value offset d) [
      | Fetch.at_end ↦ some (d, index)
      | Fetch.failed ↦ some (d, index)
      | Fetch.overrun ↦ none
      | Fetch.got n r ↦
          load_records fuel io address (record d { total_offset = d.total_offset + n }) (offset + n)
            (if is_positive r.value_len
              then (Index.save_val r.key r.key_len (record { data_node = address; offset = offset })
                  index).0
              else index)
    ]

-- The files in the directory of the store: the manifest, and the others by name.
pub record Disk : Type 0 where
  pub man_file : Option Bytes
  pub files : Dict Bytes

-- `read(fd, (char*)&len, 4)`; `none` where the manifest ends, and `len` stays as it was.
pub read_int : Bytes → Option (ℕ × Bytes)
unfolding int_of_bytes
read_int (a ∷ b ∷ c ∷ d ∷ rest) = some (int_of_bytes a b c d, rest)
read_int _ = none

-- One entry of the manifest: the name of a file.
pub read_name : Bytes → Option (Bytes × Bytes)
read_name man = elim (read_int man) [
  | none ↦ none
  | some (len, rest) ↦ if ltb (length rest) len then none else some (take len rest, drop len rest)
]

-- `openit`: a file that is not there has no record that could be read.
abbrev pub open_file : Dict Bytes → Bytes → DataNode
open_file files name = record {
  file_name = name;
  bytes = elim (lookup name files) [ none ↦ [] | some bs ↦ bs ];
  total_offset = 0;
}

-- The outer loop, for the files that are left.
pub load_files : ℕ → (ℕ → ReadIo) → Dict Bytes → Bytes → SimpleKvStore → Option SimpleKvStore
load_files zero io files man s = some s
load_files (suc left) io files man s = elim (read_name man) [
  | none ↦ none
  | some (name, man') ↦
      let d = open_file files name in
      elim (load_records (suc (length d.bytes)) io (length s.nodes) d 0 s.index) [
        | none ↦ none
        | some (d', index') ↦ load_files left io files man' (record s {
          nodes = s.nodes ++ (some d' ∷ []);
          file_list = s.file_list ++ (length s.nodes ∷ []);
          index = index';
        })
      ]
]

-- `initlization`: with no manifest the store is new.
pub initialize : (ℕ → ReadIo) → Disk → Option SimpleKvStore
initialize io disk = elim disk.man_file [
  | none ↦ some fresh
  | some man ↦ elim (read_int man) [
    | none ↦ none
    | some (file_num, man') ↦
        load_files file_num io disk.files man' (record fresh { man_file = man })
  ]
]
