-- ===== src/DataNode/Tests.antt =====
-- Tests of the record file, and its theorems at concrete records.
use simple_kv_svr.Base.{◌⊎◌, ◌≡◌, refl, none, some, [], ◌∷◌, arith}
use simple_kv_svr.DataNode.{
  Record, DataNode, Written, no_fault, all_read, Fetch, header_bytes, append_record, fetch,
  get_record,
}
use simple_kv_svr.DataNode.Log.{
  append_record_outcome, Extends, IsRecord, stored, get_record-append_record,
  get_record-append_record_self,
}

-- key "k", value "abc"
abbrev first : Record
first = record {
  crc = 0;
  key_len = 1;
  value_len = 3;
  key = 107 ∷ [];
  value = 97 ∷ 98 ∷ 99 ∷ 10 ∷ [];
}

abbrev empty_node : DataNode
empty_node = record { file_name = 75 ∷ []; bytes = []; total_offset = 0 }

abbrev one_record : DataNode
one_record = record {
  file_name = 75 ∷ [];
  bytes = 0 ∷ 0 ∷ 0 ∷ 0 ∷ 1 ∷ 0 ∷ 0 ∷ 0 ∷ 3 ∷ 0 ∷ 0 ∷ 0 ∷ 107 ∷ 97 ∷ 98 ∷ 99 ∷ [];
  total_offset = 16;
}

append_one : append_record no_fault first empty_node ≡ (one_record, some 16)
unfolding append_record header_bytes
append_one = refl

-- A disk that fills up in the middle of the key.
append_fault : (append_record (record no_fault { key = Written.part 0 }) first empty_node).1 ≡ none
unfolding append_record header_bytes
append_fault = refl

read_one : get_record all_read 128 2048 0 one_record ≡ Fetch.got 16 (stored first)
unfolding get_record fetch
read_one = refl

read_end : get_record all_read 128 2048 16 one_record ≡ Fetch.at_end
unfolding get_record fetch
read_end = refl

read_overrun : get_record all_read 0 2048 0 one_record ≡ Fetch.overrun
unfolding get_record fetch
read_overrun = refl

first-IsRecord : IsRecord first
first-IsRecord = omega arith

get_record-append_record_self_example :
    get_record all_read 128 2048 16 (append_record no_fault first one_record).0
    ≡ Fetch.got 16 (stored first)
get_record-append_record_self_example =
    get_record-append_record_self first 128 2048 one_record first-IsRecord refl (omega arith)
      (omega arith)

get_record-append_record_example :
    get_record all_read 128 2048 0 (append_record no_fault first one_record).0
    ≡ Fetch.got 16 (stored first)
get_record-append_record_example =
    get_record-append_record no_fault first all_read 128 2048 0 one_record 16 (stored first)
      read_one

append_record_outcome_example :
    (append_record (record no_fault { key = Written.part 0 }) first empty_node
      ≡ append_record no_fault first empty_node)
    ⊎ (((append_record (record no_fault { key = Written.part 0 }) first empty_node).1 ≡ none)
        × ((append_record
              (record no_fault { key = Written.part 0 })
              first
              empty_node).0.total_offset
            ≡ 0)
        × Extends empty_node
            (append_record (record no_fault { key = Written.part 0 }) first empty_node).0)
append_record_outcome_example =
    append_record_outcome (record no_fault { key = Written.part 0 }) first empty_node
