-- ===== src/DataNode/Scan.antt =====
-- Reading a file whose bytes are known on both sides of an offset.
use simple_kv_svr.Base.{
  ℕ, ◌+◌, ◌≤◌, ◌≡◌, refl, ◌++◌, length, Bytes, drop-append_length, drop_past_end, le_refl,
  take-take, length-take_of_le, arith,
}
use simple_kv_svr.DataNode.{
  Record, DataNode, all_read, Fetch, header_size, fetch, get_record, header_bytes,
}
use simple_kv_svr.DataNode.Log.{IsRecord, image, fetch-image, stored}

-- At the offset of a record's image, that record is read.
pub get_record-image :
    (key_room value_room : ℕ) (d : DataNode) (r : Record) (before rest : Bytes)
    → IsRecord r
    → r.key_len ≤ key_room
    → r.value_len ≤ value_room
    → d.bytes ≡ before ++ (image r ++ rest)
    → get_record all_read key_room value_room (length before) d
      ≡ Fetch.got (header_size + r.key_len + r.value_len) (stored r)
unfolding get_record
get_record-image key_room value_room d r before rest v hk hv e =
    rw (e, drop-append_length (length before) before (image r ++ rest) refl)
      (fetch-image key_room value_room r rest v hk hv)

-- At the end of the file there is no record.
pub get_record-end :
    (key_room value_room : ℕ) (d : DataNode)
    → get_record all_read key_room value_room (length d.bytes) d ≡ Fetch.at_end
unfolding get_record fetch
get_record-end key_room value_room d = rw (drop_past_end (length d.bytes) d.bytes (le_refl _))

-- A record as it is read back has the same image, and is a record.
pub image-stored : (r : Record) → image (stored r) ≡ image r
unfolding header_bytes
image-stored r = rw (take-take r.key_len r.key, take-take r.value_len r.value)

pub stored-IsRecord : (r : Record) → IsRecord r → IsRecord (stored r)
stored-IsRecord r v = record {
  crc_fits = v.crc_fits;
  key_fits = v.key_fits;
  value_fits = v.value_fits;
  key_there = omega (arith, length-take_of_le r.key_len r.key v.key_there);
  value_there = omega (arith, length-take_of_le r.value_len r.value v.value_there);
}
