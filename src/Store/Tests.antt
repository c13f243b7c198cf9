-- ===== src/Store/Tests.antt =====
-- Tests of the store, and its theorems at concrete tasks.
use mathlib.Core.List.{map}
use simple_kv_svr.Base.{
  inr, true, ◌&&◌, if◌then◌else◌, ◌+◌, ◌≤◌, ◌≡◌, ◌↔◌, refl, none, some, List, [], ◌∷◌, Bytes, Dict,
  lookup, assign, erase, key_eq, arith, length, int_bytes,
}
use simple_kv_svr.DataNode.{no_fault, all_read, append_record, header_bytes, get_record, fetch}
use simple_kv_svr.Index
use simple_kv_svr.Store.{
  SimpleKvStore, Task, Command, State, file_num, serve, fresh, get_val, set_val, del_val, itoa,
  itoa_loop, check, add_file, append_last,
}
use simple_kv_svr.Index.Laws.{compare_and_set_lem}
use simple_kv_svr.Store.Holds.{Holds}
use simple_kv_svr.Store.Refine.{
  Implements, Agrees-assign, IsStoreOf, key_of, value_of, set_val_refines, del_val_refines,
  get_val_refines,
}
use simple_kv_svr.Store.Alone.{log_size}
use simple_kv_svr.Store.Serve.{
  Reply, replies, quiet, expect, expect_all, AllRequests, serve_refines, fresh-IsStoreOf, IsBounded,
}

itoa_names : (itoa 0 ≡ []) × (itoa 7 ≡ 55 ∷ []) × (itoa 1023 ≡ 49 ∷ 48 ∷ 50 ∷ 51 ∷ [])
unfolding itoa itoa_loop
itoa_names = (refl, refl, refl)

-- SET k abc
abbrev set_k : Task
set_k = record {
  cmd = Command.set;
  key = 107 ∷ 32 ∷ 97 ∷ 98 ∷ 99 ∷ 10 ∷ [];
  key_len = 1;
  value = 97 ∷ 98 ∷ 99 ∷ 10 ∷ [];
  value_len = 3;
  state = State.success;
}

-- GET k, with an answer buffer of 4 bytes
abbrev get_k : Task
get_k = record {
  cmd = Command.get;
  key = 107 ∷ 10 ∷ [];
  key_len = 1;
  value = 0 ∷ 0 ∷ 0 ∷ 0 ∷ [];
  value_len = 0;
  state = State.success;
}

abbrev del_k : Task
del_k = record get_k { cmd = Command.del }

abbrev script : List Task
script = get_k ∷ set_k ∷ get_k ∷ del_k ∷ del_k ∷ get_k ∷ []

expect-script :
    (expect_all script []).0
    ≡ Reply.failed
      ∷ Reply.done
      ∷ Reply.found (97 ∷ 98 ∷ 99 ∷ [])
      ∷ Reply.done
      ∷ Reply.failed
      ∷ Reply.failed
      ∷ []
unfolding expect_all expect lookup assign erase key_eq
expect-script = refl

script-AllRequests : AllRequests 4 script
script-AllRequests = omega arith

fresh-IsBounded : IsBounded 4 []
unfolding lookup
fresh-IsBounded = record { at_key = λ k v h. cc }

serve_refines_example :
    (outs : List Task) × (s' : SimpleKvStore) × (serve (map quiet script) fresh ≡ some (outs, s'))
    × (replies script outs ≡ (expect_all script []).0)
    × IsStoreOf s' (expect_all script []).1
    × (s'.rebuilds ≡ 0)
unfolding fresh log_size
serve_refines_example =
    serve_refines script 4 fresh [] fresh-IsStoreOf fresh-IsBounded script-AllRequests (omega arith)
      refl (omega arith)

set_val_refines_example :
    (out : Task × SimpleKvStore) × (set_val no_fault set_k fresh ≡ some out)
    × (out.0.state ≡ State.success)
    × IsStoreOf out.1 (assign (key_of set_k) (value_of set_k) [])
    × (file_num out.1 ≤ file_num fresh + 1)
unfolding fresh
set_val_refines_example = set_val_refines set_k fresh [] (omega arith) fresh-IsStoreOf (omega arith)

del_val_refines_example :
    (out : Task × SimpleKvStore) × (del_val no_fault del_k fresh ≡ some out)
    × ((out.0.state ≡ State.fail) ↔ (lookup {V = Bytes} (key_of del_k) [] ≡ none))
    × IsStoreOf out.1 (erase (key_of del_k) [])
    × (file_num out.1 ≤ file_num fresh + 1)
unfolding fresh
del_val_refines_example = del_val_refines del_k fresh [] (omega arith) fresh-IsStoreOf (omega arith)

-- The store after SET k abc, and what it stands for.
abbrev with_abc : SimpleKvStore
with_abc = record {
  nodes =
      some (record {
        file_name = 75 ∷ 86 ∷ 68 ∷ 66 ∷ [];
        bytes = 0 ∷ 0 ∷ 0 ∷ 0 ∷ 1 ∷ 0 ∷ 0 ∷ 0 ∷ 3 ∷ 0 ∷ 0 ∷ 0 ∷ 107 ∷ 97 ∷ 98 ∷ 99 ∷ [];
        total_offset = 16;
      })
      ∷ [];
  file_list = 0 ∷ [];
  index = (107 ∷ [], record { data_node = 0; offset = 0 }) ∷ [];
  man_file = 1 ∷ 0 ∷ 0 ∷ 0 ∷ 4 ∷ 0 ∷ 0 ∷ 0 ∷ 75 ∷ 86 ∷ 68 ∷ 66 ∷ [];
  hits = 0;
  miss = 0;
  rebuilds = 0;
}

set_val-fresh : set_val no_fault set_k fresh ≡ some (set_k, with_abc)
unfolding set_val fresh check add_file append_last itoa itoa_loop append_record header_bytes
    Index.save_val assign int_bytes
set_val-fresh = refl

abbrev abc_at_k : Dict Bytes
abc_at_k = (107 ∷ [], 97 ∷ 98 ∷ 99 ∷ []) ∷ []

with_abc-Holds :
    Holds with_abc (record { data_node = 0; offset = 0 }) (107 ∷ []) (97 ∷ 98 ∷ 99 ∷ [])
unfolding get_record fetch
with_abc-Holds = record { node = _; there = refl; count = 16; crc = 0; read = refl }

with_abc-Implements : Implements with_abc abc_at_k
unfolding lookup
with_abc-Implements = record {
  at_key = λ j. Agrees-assign with_abc (107 ∷ []) j _ _ none none with_abc-Holds tt;
}

with_abc-IsStoreOf : IsStoreOf with_abc abc_at_k
with_abc-IsStoreOf = record {
  ready = inr (record { address = 0; node = _; last = refl; there = refl; synced = refl });
  holds = with_abc-Implements;
}

k-found : lookup (107 ∷ []) abc_at_k ≡ some (97 ∷ 98 ∷ 99 ∷ [])
unfolding lookup key_eq
k-found = refl

get_val_refines_example :
    (out : Task × SimpleKvStore) × (get_val all_read 0 get_k with_abc ≡ some out)
    × (out.0.state ≡ State.success)
    × (value_of out.0 ≡ 97 ∷ 98 ∷ 99 ∷ [])
    × (out.0.value_len ≡ 3)
    × (length out.0.value ≡ 4)
    × IsStoreOf out.1 abc_at_k
    × (file_num out.1 ≡ 1)
get_val_refines_example =
    get_val_refines 0 get_k with_abc abc_at_k (97 ∷ 98 ∷ 99 ∷ []) with_abc-IsStoreOf k-found
      (omega arith)

j-missing : lookup (106 ∷ []) abc_at_k ≡ none
unfolding lookup key_eq
j-missing = refl

-- GET j
abbrev get_j : Task
get_j = record get_k { key = 106 ∷ [] }

compare_and_set_lem_example :
    let (index', done) =
      Index.compare_and_set
        (107 ∷ [])
        1
        (record { data_node = 0; offset = 0 })
        (record { data_node = 7; offset = 9 })
        with_abc.index in
    (lookup (107 ∷ []) index' ≡ (
      if done && key_eq (107 ∷ []) (107 ∷ [])
      then some (record { data_node = 7; offset = 9 })
      else lookup (107 ∷ []) with_abc.index))
    × ((done ≡ true)
        → lookup (107 ∷ []) with_abc.index ≡ some (record { data_node = 0; offset = 0 }))
    × ((lookup (107 ∷ []) with_abc.index ≡ some (record { data_node = 0; offset = 0 }))
        → done ≡ true)
compare_and_set_lem_example =
    compare_and_set_lem (107 ∷ []) 1 (record { data_node = 0; offset = 0 })
      (record { data_node = 7; offset = 9 }) with_abc.index (107 ∷ [])
