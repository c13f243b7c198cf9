-- ===== src/DataNode.antt =====
-- simplekvsvr_v2/datanode.h and record.h: an append-only file of records. The file is its bytes,
-- and the descriptor is open. What the operating system does enters as arguments: whether an
-- `lseek` succeeds, and how much of a `write` reaches the file.
pub mod Log
pub mod Room
pub mod Scan
mod Tests
use simple_kv_svr.Base.{
  ℕ, ◌+◌, ◌*◌, ◌<◌, Bool, true, false, Option, none, some, List, [], ◌∷◌, ◌++◌, length, take, drop,
  ltb, ◌==◌, not, ◌&&◌, if◌then◌else◌, Bytes, int_bytes, int_of_bytes, is_positive,
}

-- `class Record`. The lengths are bit patterns of `int`; `key` and `value` are the memory from the
-- pointers on.
pub record Record : Type 0 where
  pub crc : ℕ
  pub key_len : ℕ
  pub value_len : ℕ
  pub key : Bytes
  pub value : Bytes

-- `class DataNode`: the bytes of the file, and the member that counts them.
pub record DataNode : Type 0 where
  pub file_name : Bytes
  pub bytes : Bytes
  pub total_offset : ℕ

abbrev pub max_key : ℕ
max_key = 128

abbrev pub max_value : ℕ
max_value = 2048

-- OFFLIMIT
abbrev pub off_limit : ℕ
off_limit = 10 * 1024 * 1024

-- The bytes of a header.
abbrev pub header_size : ℕ
header_size = 12

-- A `write` puts all its bytes into the file, or some of them only (none, if it fails).
pub data Written : Type 0 where
  whole : Written
  part : ℕ → Written

abbrev pub written : Written → Bytes → Bytes
written Written.whole bs = bs
written (Written.part n) bs = take n bs

-- `write(…) != toWrite` does not hold
abbrev pub is_whole : Written → Bytes → Bool
is_whole w bs = length (written w bs) == length bs

-- What the system calls of one `appendRecord` do.
pub record AppendIo : Type 0 where
  pub seeks : Bool
  pub header : Written
  pub key : Written
  pub value : Written

abbrev pub no_fault : AppendIo
no_fault = record {
  seeks = true;
  header = Written.whole;
  key = Written.whole;
  value = Written.whole;
}

-- The header as it lies in memory: `CRC`, `keyLen`, `valueLen`.
unfoldable pub header_bytes : Record → Bytes
unfolding int_bytes
header_bytes r = int_bytes r.crc ++ (int_bytes r.key_len ++ int_bytes r.value_len)

-- The bytes of the key and of the value that a record's file image has.
abbrev pub key_image : Record → Bytes
key_image r = take r.key_len r.key

abbrev pub value_image : Record → Bytes
value_image r = if is_positive r.value_len then take r.value_len r.value else []

abbrev pub grow : DataNode → Bytes → DataNode
grow d bs = record d { bytes = d.bytes ++ bs }

-- `appendRecord`: the new node and the bytes written, `none` for -1. What a failed call has written
-- stays in the file, and `totalOffset` is left as it was.
unfoldable pub append_record : AppendIo → Record → DataNode → DataNode × Option ℕ
append_record io r d =
    if not io.seeks
    then (d, none)
    else if not (is_whole io.header (header_bytes r))
    then (grow d (written io.header (header_bytes r)), none)
    else if not (is_whole io.key (key_image r))
    then (grow d (header_bytes r ++ written io.key (key_image r)), none)
    else if is_positive r.value_len
    then if not (is_whole io.value (value_image r))
      then (grow d (header_bytes r ++ (key_image r ++ written io.value (value_image r))), none)
      else (
        record d {
          bytes = d.bytes ++ (header_bytes r ++ (key_image r ++ value_image r));
          total_offset = d.total_offset + (header_size + r.key_len + r.value_len);
        },
        some (header_size + r.key_len + r.value_len),
      )
    else (
      record d {
        bytes = d.bytes ++ (header_bytes r ++ key_image r);
        total_offset = d.total_offset + (header_size + r.key_len);
      },
      some (header_size + r.key_len),
    )

-- What `getRecord` does to its caller: 0, -1, a write past the end of the caller's buffers (the
-- behaviour is undefined from there), or the bytes read with the record.
pub data Fetch : Type 0 where
  at_end failed overrun : Fetch
  got : ℕ → Record → Fetch

-- Which of the system calls of one `getRecord` succeed; a `read` that does gets all that is asked
-- for, or what the file still holds.
pub record ReadIo : Type 0 where
  pub seeks : Bool
  pub header : Bool
  pub key : Bool
  pub value : Bool

abbrev pub all_read : ReadIo
all_read = record { seeks = true; header = true; key = true; value = true }

-- The body: `rest` is the file behind the header.
unfoldable pub fetch_body : ReadIo → ℕ → ℕ → ℕ → ℕ → ℕ → Bytes → Fetch
fetch_body io key_room value_room crc key_len value_len rest =
    let k = take key_len rest in
    let v = take value_len (drop key_len rest) in
    if not io.key
    then failed
    else if ltb key_room (length k)
    then overrun
    else if not (length k == key_len)
    then failed
    else if not io.value
    then failed
    else if ltb value_room (length v)
    then overrun
    else if not (length v == value_len)
    then failed
    else got (header_size + key_len + value_len)
        (record { crc = crc; key_len = key_len; value_len = value_len; key = k; value = v })

unfoldable pub fetch : ReadIo → ℕ → ℕ → Bytes → Fetch
unfolding int_of_bytes fetch_body
fetch io key_room value_room [] = at_end
fetch io key_room value_room (c0 ∷ c1 ∷ c2 ∷ c3 ∷ k0 ∷ k1 ∷ k2 ∷ k3 ∷ v0 ∷ v1 ∷ v2 ∷ v3 ∷ rest) =
    fetch_body io key_room value_room (int_of_bytes c0 c1 c2 c3) (int_of_bytes k0 k1 k2 k3)
      (int_of_bytes v0 v1 v2 v3) rest
fetch io key_room value_room _ = failed

-- `getRecord`, into buffers of `key_room` and `value_room` bytes.
unfoldable pub get_record : ReadIo → ℕ → ℕ → ℕ → DataNode → Fetch
get_record io key_room value_room offset d =
    if io.seeks && io.header then fetch io key_room value_room (drop offset d.bytes) else failed
