-- ===== src/Store/Rebuild/Tests.antt =====
-- The theorems on loading and rebuilding a file at concrete logs.
use simple_kv_svr.Base.{◌+◌, ◌≡◌, ◌≢◌, refl, some, none, [], ◌∷◌, length, arith, lookup, key_eq}
use simple_kv_svr.DataNode.{Record, DataNode, Fetch, get_record, all_read, max_key, max_value}
use simple_kv_svr.DataNode.Log.{stored}
use simple_kv_svr.Index.{SimpleKvIndex}
use simple_kv_svr.Store.Load.{load_records}
use simple_kv_svr.Store.Load.Replay.{
  images, AllFit, record_key, replay, load_records_lem, load_deleted_key_returns,
}
use simple_kv_svr.Store.Rebuild.{re_build_loop, re_build}
use simple_kv_svr.Store.Rebuild.Compact.{quiet_rebuild, re_build_loop_lem, compact}
use simple_kv_svr.Store.Rebuild.Stale.{IsStaleThenLive, rebuilt, moved, re_build_serves_stale}

-- SET k abc
abbrev set_k : Record
set_k = record { crc = 0; key_len = 1; value_len = 3; key = 107 ∷ []; value = 97 ∷ 98 ∷ 99 ∷ [] }

-- SET j xyz
abbrev set_j : Record
set_j = record { crc = 0; key_len = 1; value_len = 3; key = 106 ∷ []; value = 120 ∷ 121 ∷ 122 ∷ [] }

-- DELETE k
abbrev del_k : Record
del_k = record set_k { value_len = 0 }

set_then_del-AllFit : AllFit (set_k ∷ del_k ∷ [])
set_then_del-AllFit = omega arith

-- The key is deleted, and is there again after the load.
load_deleted_key_returns_example :
    (out : DataNode × SimpleKvIndex) × (load_records 3
        (λ _. all_read)
        0
        (record { file_name = []; bytes = images (set_k ∷ del_k ∷ []); total_offset = 0 })
        0
        []
      ≡ some out)
    × (lookup (record_key set_k) out.1 ≢ none)
load_deleted_key_returns_example =
    load_deleted_key_returns 0
      (record { file_name = []; bytes = images (set_k ∷ del_k ∷ []); total_offset = 0 }) []
      (del_k ∷ []) set_k [] set_then_del-AllFit refl refl

load_records_lem_example :
    load_records 3
      (λ _. all_read)
      0
      (record { file_name = []; bytes = images (set_k ∷ del_k ∷ []); total_offset = 0 })
      0
      []
    ≡ some (
      record {
        file_name = [];
        bytes = images (set_k ∷ del_k ∷ []);
        total_offset = 0 + length (images (set_k ∷ del_k ∷ []));
      },
      replay 0 0 (set_k ∷ del_k ∷ []) [],
    )
load_records_lem_example =
    load_records_lem 3 0
      (record { file_name = []; bytes = images (set_k ∷ del_k ∷ []); total_offset = 0 }) []
      (set_k ∷ del_k ∷ []) [] (omega arith) set_then_del-AllFit refl

abbrev old_node : DataNode
old_node = record { file_name = []; bytes = images (set_k ∷ set_j ∷ []); total_offset = 32 }

-- Key k has moved to another file since; key j is in this one.
abbrev index_kj : SimpleKvIndex
index_kj =
    (107 ∷ [], record { data_node = 5; offset = 0 })
    ∷ (106 ∷ [], record { data_node = 4; offset = 16 })
    ∷ []

stale_then_live : IsStaleThenLive 4 old_node set_k set_j index_kj
unfolding lookup key_eq
stale_then_live = record {
  fits = omega arith;
  stale_value = refl;
  live_value = refl;
  bytes = refl;
  stale = λ e. ground arith;
  live = refl;
  same_size = refl;
}

re_build_serves_stale_example :
    (re_build quiet_rebuild 4 6 old_node index_kj
      ≡ some (
        rebuilt 4 6 old_node set_k set_j index_kj stale_then_live,
        moved 4 6 old_node set_k set_j index_kj stale_then_live,
      ))
    × (lookup (record_key set_j) (moved 4 6 old_node set_k set_j index_kj stale_then_live)
        ≡ some (record { data_node = 6; offset = 0 }))
    × (get_record all_read max_key max_value 0
          (rebuilt 4 6 old_node set_k set_j index_kj stale_then_live)
        ≡ Fetch.got 16 (stored set_k))
re_build_serves_stale_example =
    re_build_serves_stale 4 6 old_node set_k set_j index_kj stale_then_live

re_build_loop_lem_example :
    re_build_loop 3 quiet_rebuild 4 6 old_node 0
      (record { file_name = []; bytes = []; total_offset = 0 })
      index_kj
    ≡ (let (total, index') = compact 4 6 0 (set_k ∷ set_j ∷ []) (0, index_kj) in
        some (
          record { file_name = []; bytes = images (set_k ∷ set_j ∷ []); total_offset = total },
          index',
        ))
re_build_loop_lem_example =
    re_build_loop_lem 3 4 6 old_node [] (set_k ∷ set_j ∷ [])
      (record { file_name = []; bytes = []; total_offset = 0 }) index_kj (omega arith) (omega arith)
      refl
