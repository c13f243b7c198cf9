-- ===== src/DataNode/Room.antt =====
-- The buffers of the caller matter to `getRecord` only by their being long enough.
use simple_kv_svr.Base.{ℕ, ◌≤◌, ◌≡◌, [], ◌∷◌, drop, Bytes, arith, int_of_bytes}
use simple_kv_svr.DataNode.{Record, DataNode, all_read, Fetch, get_record, fetch, fetch_body}

fetch_body-room :
    (kr kr' vr vr' crc key_len value_len : ℕ) (rest : Bytes) (n : ℕ) (r : Record)
    → r.key_len ≤ kr'
    → r.value_len ≤ vr'
    → fetch_body all_read kr vr crc key_len value_len rest ≡ Fetch.got n r
    → fetch_body all_read kr' vr' crc key_len value_len rest ≡ Fetch.got n r
unfolding fetch_body
fetch_body-room kr kr' vr vr' crc key_len value_len rest n r hk hv h = ground arith

fetch-room :
    (kr kr' vr vr' : ℕ) (bs : Bytes) (n : ℕ) (r : Record)
    → r.key_len ≤ kr'
    → r.value_len ≤ vr'
    → fetch all_read kr vr bs ≡ Fetch.got n r
    → fetch all_read kr' vr' bs ≡ Fetch.got n r
unfolding fetch
fetch-room kr kr' vr vr' [] n r hk hv h = cc
fetch-room kr kr' vr vr' (c0 ∷ c1 ∷ c2 ∷ c3 ∷ k0 ∷ k1 ∷ k2 ∷ k3 ∷ v0 ∷ v1 ∷ v2 ∷ v3 ∷ rest) n r hk
      hv h =
    fetch_body-room kr kr' vr vr' (int_of_bytes c0 c1 c2 c3) (int_of_bytes k0 k1 k2 k3)
      (int_of_bytes v0 v1 v2 v3) rest n r hk hv h
fetch-room kr kr' vr vr' _ n r hk hv h = cc

-- What a reader with some buffers gets, a reader with any buffers that are long enough gets.
pub get_record-room :
    (kr kr' vr vr' offset : ℕ) (d : DataNode) (n : ℕ) (r : Record)
    → r.key_len ≤ kr'
    → r.value_len ≤ vr'
    → get_record all_read kr vr offset d ≡ Fetch.got n r
    → get_record all_read kr' vr' offset d ≡ Fetch.got n r
unfolding get_record
get_record-room kr kr' vr vr' offset d n r hk hv h =
    fetch-room kr kr' vr vr' (drop offset d.bytes) n r hk hv h
