-- ===== src/DataNode/Log.antt =====
-- What `appendRecord` writes, `getRecord` reads back, and no later append changes it.
use native.Mathlib.Decide.{dec_le}
use simple_kv_svr.Base.{
  ℕ, ◌+◌, ◌≤◌, ◌<◌, ◌≡◌, refl, sym, Bool, true, false, not, Option, none, some, [], ◌∷◌, ◌++◌,
  append_assoc, append-nil, arith, length, take, drop, length-take, length-append,
  length-take_of_le, take-append, drop-append, take-append_length, drop-append_length,
  drop_past_end, int_of_bytes, int_of_bytes-int_bytes, int_mod, int_sign, is_positive, Bytes,
  if◌then◌else◌, Bool-cases, Option-cases, inl, inr, ◌⊎◌,
}
use simple_kv_svr.DataNode.{
  Record, DataNode, AppendIo, is_whole, no_fault, ReadIo, all_read, Fetch, header_size,
  header_bytes, key_image, value_image, append_record, fetch_body, fetch, get_record,
}

-- A record whose numbers are those of an `int`, with lengths that are not negative and that the
-- memory behind its pointers covers.
pub record IsRecord (r : Record) : Type 0 where
  pub crc_fits : r.crc < int_mod
  pub key_fits : r.key_len < int_sign
  pub value_fits : r.value_len < int_sign
  pub key_there : r.key_len ≤ length r.key
  pub value_there : r.value_len ≤ length r.value

-- The bytes that a record has in a file.
abbrev pub image : Record → Bytes
image r = header_bytes r ++ (key_image r ++ value_image r)

-- A record as it is read back: the key and the value have just the bytes that were written.
abbrev pub stored : Record → Record
stored r = record r { key = take r.key_len r.key; value = take r.value_len r.value }

-- A value of no bytes has no image; otherwise the image is the value.
value_image_lem : (r : Record) → r.value_len < int_sign → value_image r ≡ take r.value_len r.value
value_image_lem r h = elim (Bool-cases (is_positive r.value_len)) [
  | inl p ↦ rw p
  | inr z ↦ let e : r.value_len ≡ 0 = ground arith in rw (z, e)
]

pub length-image :
    (r : Record) → IsRecord r → length (image r) ≡ header_size + r.key_len + r.value_len
unfolding header_bytes
length-image r v = rw (value_image_lem r v.value_fits) (
    omega (
      arith,
      length-append (take r.key_len r.key) (take r.value_len r.value),
      length-take_of_le r.key_len r.key v.key_there,
      length-take_of_le r.value_len r.value v.value_there,
    ))

fetch_body_lem :
    (key_room value_room crc key_len value_len : ℕ) (k v rest : Bytes)
    → key_len ≡ length k
    → value_len ≡ length v
    → key_len ≤ key_room
    → value_len ≤ value_room
    → fetch_body all_read key_room value_room crc key_len value_len (k ++ (v ++ rest))
      ≡ Fetch.got
          (header_size + key_len + value_len)
          (record { crc = crc; key_len = key_len; value_len = value_len; key = k; value = v })
unfolding fetch_body
fetch_body_lem key_room value_room crc key_len value_len k v rest ek ev hk hv =
    rw
      (
        take-append_length key_len k (v ++ rest) ek,
        drop-append_length key_len k (v ++ rest) ek,
        take-append_length value_len v rest ev,
      )
      (ground arith)

-- The image of a record, with anything behind it, is read as that record.
pub fetch-image :
    (key_room value_room : ℕ) (r : Record) (rest : Bytes)
    → IsRecord r
    → r.key_len ≤ key_room
    → r.value_len ≤ value_room
    → fetch all_read key_room value_room (image r ++ rest)
      ≡ Fetch.got (header_size + r.key_len + r.value_len) (stored r)
unfolding fetch header_bytes
fetch-image key_room value_room r rest v hk hv =
    rw
      (
        value_image_lem r v.value_fits,
        int_of_bytes-int_bytes r.crc v.crc_fits,
        int_of_bytes-int_bytes r.key_len (omega (arith, v.key_fits)),
        int_of_bytes-int_bytes r.value_len (omega (arith, v.value_fits)),
        append_assoc,
      )
      (fetch_body_lem key_room value_room r.crc r.key_len r.value_len (take r.key_len r.key)
        (take r.value_len r.value) rest (sym (length-take_of_le r.key_len r.key v.key_there))
        (sym (length-take_of_le r.value_len r.value v.value_there)) hk hv)

-- An append that meets no fault extends the file by the image, and counts its bytes.
pub append_record-no_fault :
    (r : Record) (d : DataNode)
    → IsRecord r
    → append_record no_fault r d ≡ (
      record d {
        bytes = d.bytes ++ image r;
        total_offset = d.total_offset + (header_size + r.key_len + r.value_len);
      },
      some (header_size + r.key_len + r.value_len),
    )
unfolding append_record
append_record-no_fault r d v = elim (Bool-cases (is_positive r.value_len)) [
  | inl p ↦ rw p (ground arith)
  | inr z ↦
      let e : r.value_len ≡ 0 = ground (arith, v.value_fits) in rw (z, append-nil) (ground arith)
]

-- `d'` is `d` with more bytes at the end of its file.
abbrev pub Extends : DataNode → DataNode → Type 0
Extends d d' = (more : Bytes) × (d'.bytes ≡ d.bytes ++ more)

if-Extends :
    (b : Bool) (d : DataNode) (x y : DataNode × Option ℕ)
    → Extends d x.0
    → Extends d y.0
    → Extends d (if b then x else y).0
if-Extends true d x y hx hy = hx
if-Extends false d x y hx hy = hy

-- Whatever the system calls do, an append leaves the bytes that the file had.
pub append_record-Extends :
    (io : AppendIo) (r : Record) (d : DataNode) → Extends d (append_record io r d).0
unfolding append_record
append_record-Extends io r d =
    if-Extends (not io.seeks) d _ _ ([], sym (append-nil d.bytes))
      (if-Extends (not (is_whole io.header (header_bytes r))) d _ _ (_, refl)
        (if-Extends (not (is_whole io.key (key_image r))) d _ _ (_, refl)
          (if-Extends (is_positive r.value_len) d _ _
            (if-Extends (not (is_whole io.value (value_image r))) d _ _ (_, refl) (_, refl))
            (_, refl))))

-- With more behind the file a `take` that was satisfied gives the same bytes.
take_more : (n : ℕ) (xs more : Bytes) → length (take n xs) ≡ n → take n (xs ++ more) ≡ take n xs
take_more n xs more h = take-append n xs more (omega (arith, length-take n xs))

fetch_body-append :
    (io : ReadIo) (key_room value_room crc key_len value_len : ℕ) (rest more : Bytes) (n : ℕ)
    (r : Record)
    → fetch_body io key_room value_room crc key_len value_len rest ≡ Fetch.got n r
    → fetch_body io key_room value_room crc key_len value_len (rest ++ more) ≡ Fetch.got n r
unfolding fetch_body
fetch_body-append io key_room value_room crc key_len value_len rest more n r h =
    let whole_key : length (take key_len rest) ≡ key_len = ground arith in
    let inside : key_len ≤ length rest = omega (arith, length-take key_len rest) in
    let whole_value : length (take value_len (drop key_len rest)) ≡ value_len = ground arith in
    rw
      (
        take_more key_len rest more whole_key,
        drop-append key_len rest more inside,
        take_more value_len (drop key_len rest) more whole_value,
      )
      h

-- What was read once is read again from a file with more at its end.
pub fetch-append :
    (io : ReadIo) (key_room value_room : ℕ) (bs more : Bytes) (n : ℕ) (r : Record)
    → fetch io key_room value_room bs ≡ Fetch.got n r
    → fetch io key_room value_room (bs ++ more) ≡ Fetch.got n r
unfolding fetch
fetch-append io key_room value_room [] more n r h = cc
fetch-append io key_room value_room
      (c0 ∷ c1 ∷ c2 ∷ c3 ∷ k0 ∷ k1 ∷ k2 ∷ k3 ∷ v0 ∷ v1 ∷ v2 ∷ v3 ∷ rest) more n r h =
    fetch_body-append io key_room value_room (int_of_bytes c0 c1 c2 c3) (int_of_bytes k0 k1 k2 k3)
      (int_of_bytes v0 v1 v2 v3) rest more n r h
fetch-append io key_room value_room _ more n r h = cc

-- The offset of a record that can be read lies inside the file.
got_inside :
    (io : ReadIo) (key_room value_room offset : ℕ) (d : DataNode) (n : ℕ) (r : Record)
    → get_record io key_room value_room offset d ≡ Fetch.got n r
    → offset ≤ length d.bytes
unfolding get_record fetch
got_inside io key_room value_room offset d n r h = elim (dec_le offset (length d.bytes)) [
  | yes inside ↦ inside
  | no past ↦ absurd (ground (arith, drop_past_end offset d.bytes))
]

pub get_record-Extends :
    (io : ReadIo) (key_room value_room offset : ℕ) (d d' : DataNode) (n : ℕ) (r : Record)
    → Extends d d'
    → get_record io key_room value_room offset d ≡ Fetch.got n r
    → get_record io key_room value_room offset d' ≡ Fetch.got n r
unfolding get_record
get_record-Extends io key_room value_room offset d d' n r (more, e) h =
    let inside : offset ≤ length d.bytes = got_inside io key_room value_room offset d n r h in
    rw (e, drop-append offset d.bytes more inside)
      (ground (arith, fetch-append io key_room value_room (drop offset d.bytes) more n r))

-- Whatever the system calls of an append do, every record that could be read before is read as it
-- was after it.
pub get_record-append_record :
    (io : AppendIo) (new : Record) (rio : ReadIo) (key_room value_room offset : ℕ) (d : DataNode)
    (n : ℕ) (r : Record)
    → get_record rio key_room value_room offset d ≡ Fetch.got n r
    → get_record rio key_room value_room offset (append_record io new d).0 ≡ Fetch.got n r
get_record-append_record io new rio key_room value_room offset d n r h =
    get_record-Extends rio key_room value_room offset d (append_record io new d).0 n r
      (append_record-Extends io new d) h

-- The file holds what `totalOffset` counts.
abbrev pub IsSynced : DataNode → Type 0
IsSynced d = d.total_offset ≡ length d.bytes

-- A record appended with no fault is read back at the offset that the node had before, by a reader
-- with room for it: the same lengths, and the bytes of the key and of the value.
pub get_record-append_record_self :
    (r : Record) (key_room value_room : ℕ) (d : DataNode)
    → IsRecord r
    → IsSynced d
    → r.key_len ≤ key_room
    → r.value_len ≤ value_room
    → get_record all_read key_room value_room d.total_offset (append_record no_fault r d).0
      ≡ Fetch.got (header_size + r.key_len + r.value_len) (stored r)
unfolding get_record
get_record-append_record_self r key_room value_room d v sync hk hv =
    rw
      (
        append_record-no_fault r d v,
        drop-append_length d.total_offset d.bytes (image r) sync,
        ← append-nil (image r),
      )
      (fetch-image key_room value_room r [] v hk hv)

-- An append with no fault keeps the count in step with the file.
pub append_record-IsSynced :
    (r : Record) (d : DataNode) → IsRecord r → IsSynced d → IsSynced (append_record no_fault r d).0
append_record-IsSynced r d v sync =
    rw (append_record-no_fault r d v)
      (omega (arith, length-image r v, length-append d.bytes (image r)))

append_record_failed :
    (io : AppendIo) (r : Record) (d : DataNode)
    → (append_record io r d).1 ≡ none
    → (append_record io r d).0.total_offset ≡ d.total_offset
unfolding append_record
append_record_failed io r d h = ground arith

append_record_succeeded :
    (io : AppendIo) (r : Record) (d : DataNode) (n : ℕ)
    → (append_record io r d).1 ≡ some n
    → append_record io r d ≡ append_record no_fault r d
unfolding append_record
append_record_succeeded io r d n h = ground arith

-- Every branch of `appendRecord`, whatever the system calls do: either it does and returns just what it does with no fault, or
-- it returns -1, leaves `totalOffset` alone and may have left bytes at the end of the file.
pub append_record_outcome :
    (io : AppendIo) (r : Record) (d : DataNode)
    → (append_record io r d ≡ append_record no_fault r d)
      ⊎ (((append_record io r d).1 ≡ none)
          × ((append_record io r d).0.total_offset ≡ d.total_offset)
          × Extends d (append_record io r d).0)
append_record_outcome io r d = elim (Option-cases (append_record io r d).1) [
  | inl failed ↦ inr (failed, append_record_failed io r d failed, append_record-Extends io r d)
  | inr (n, succeeded) ↦ inl (append_record_succeeded io r d n succeeded)
]
