-- ===== src/Store/Rebuild/Stale.antt =====
-- A stale record in the compacted file: the index is sent to the wrong bytes.
use mathlib.Core.Path.{ap₂}
use simple_kv_svr.Base.{
  ℕ, suc, ◌-◌, ◌≤◌, ◌≡◌, ◌≢◌, ap, sym, ◌∙◌, true, some, [], ◌∷◌, ◌++◌, append-nil, length, Bytes,
  arith, lookup, is_positive, length-append, take-append_length, lookup-assign, key_eq_refl,
}
use simple_kv_svr.DataNode.{Record, DataNode, all_read, Fetch, get_record, max_key, max_value}
use simple_kv_svr.DataNode.Log.{image, length-image, stored}
use simple_kv_svr.DataNode.Scan.{get_record-image}
use simple_kv_svr.Index
use simple_kv_svr.Index.{RecordOffset, SimpleKvIndex, same_place}
use simple_kv_svr.Store.Load.Replay.{images, AllFit, record_key}
use simple_kv_svr.Store.Rebuild.{re_build, re_build_loop, truncate}
use simple_kv_svr.Store.Rebuild.Compact.{quiet_rebuild, compact, re_build_loop_lem, size_of}

-- A file of two records with values: the first is stale, since the index has its key elsewhere, and the
-- second is live.
pub record IsStaleThenLive (old : ℕ) (d : DataNode) (a b : Record) (index : SimpleKvIndex)
    : Type 0 where
  pub fits : AllFit (a ∷ b ∷ [])
  pub stale_value : is_positive a.value_len ≡ true
  pub live_value : is_positive b.value_len ≡ true
  pub bytes : d.bytes ≡ images (a ∷ b ∷ [])
  pub stale : lookup (record_key a) index ≢ some (record { data_node = old; offset = 0 })
  pub live : lookup (record_key b) index ≡ some (record { data_node = old; offset = size_of a })
  pub same_size : size_of a ≡ size_of b

module _ (old new : ℕ) (d : DataNode) (a b : Record) (index : SimpleKvIndex)
    (h : IsStaleThenLive old d a b index) where
  -- the count and the index after the loop
  abbrev pub moved : SimpleKvIndex
  moved = (Index.save_val b.key b.key_len (record { data_node = new; offset = 0 }) index).0

  compact-stale : compact old new 0 (a ∷ b ∷ []) (0, index) ≡ (size_of b, moved)
  unfolding compact Index.compare_and_set Index.save_val
  compact-stale = ground (arith, h.stale, h.live, h.stale_value, h.live_value)

  images-two : images (a ∷ b ∷ []) ≡ image a ++ image b
  unfolding images
  images-two = ap (λ (x : Bytes). image a ++ x) (append-nil (image b))

  long_enough : 2 ≤ length d.bytes
  long_enough = omega (
    arith,
    ap length (h.bytes ∙ images-two),
    length-append (image a) (image b),
    length-image a h.fits.0.0,
    length-image b h.fits.1.0.0,
  )

  abbrev pub rebuilt : DataNode
  rebuilt = record { file_name = d.file_name; bytes = image a; total_offset = size_of b }

  truncate-stale : truncate (size_of b) (image a ++ image b) ≡ image a
  truncate-stale =
      let short : size_of b - length (image a ++ image b) ≡ 0 =
        omega (arith, h.same_size, length-append (image a) (image b), length-image a h.fits.0.0) in
      rw
        (
          take-append_length (size_of b) (image a) (image b)
              (omega (arith, h.same_size, length-image a h.fits.0.0)),
          short,
        )
        (append-nil (image a))

  loop-stale :
      re_build_loop
        (suc (length d.bytes))
        quiet_rebuild
        old
        new
        d
        0
        (record { file_name = d.file_name; bytes = []; total_offset = 0 })
        index
      ≡ some (
        record { file_name = d.file_name; bytes = image a ++ image b; total_offset = size_of b },
        moved,
      )
  loop-stale =
      re_build_loop_lem (suc (length d.bytes)) old new d [] (a ∷ b ∷ [])
        (record { file_name = d.file_name; bytes = []; total_offset = 0 }) index
        (omega (arith, long_enough)) h.fits h.bytes
      ∙ ap₂
          (λ (st : ℕ × SimpleKvIndex) (x : Bytes).
            some (record { file_name = d.file_name; bytes = x; total_offset = st.0 }, st.1))
          compact-stale images-two

  -- The rebuild of such a file, with system calls that succeed and sizes that are equal: the index sends
  -- the live key to the new file's start, and there lies the stale record of the other key.
  pub re_build_serves_stale :
      (re_build quiet_rebuild old new d index ≡ some (rebuilt, moved))
      × (lookup (record_key b) moved ≡ some (record { data_node = new; offset = 0 }))
      × (get_record all_read max_key max_value 0 rebuilt ≡ Fetch.got (size_of a) (stored a))
  unfolding re_build Index.save_val
  re_build_serves_stale = (
    rw (loop-stale, re_build)
        (ap (λ (x : Bytes). some (record rebuilt { bytes = x }, moved)) truncate-stale),
    ground (
      arith,
      lookup-assign (record_key b) (record_key b) (record { data_node = new; offset = 0 }) index,
      key_eq_refl (record_key b),
    ),
    get_record-image max_key max_value rebuilt a [] [] h.fits.0.0 h.fits.0.1 h.fits.0.2
        (sym (append-nil (image a))),
  )
