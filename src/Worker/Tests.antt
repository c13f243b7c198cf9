-- ===== src/Worker/Tests.antt =====
-- A session on the first server.
use simple_kv_svr.Base.{
  true, none, some, List, [], ◌∷◌, ◌++◌, replicate, map, Bytes, lookup, assign, erase, key_eq,
  codes, ◌≡◌, refl, arith, length-replicate,
}
use simple_kv_svr.SlotIndex.{Slot, KvIndex, cache_size, zero_slot, c_string}
use simple_kv_svr.SlotIndex.Disk.{start}
use simple_kv_svr.SlotIndex.Holds.{Holds}
use simple_kv_svr.Worker.{Machine, process, process_all, token}
use simple_kv_svr.Worker.Session.{Request, IsToken, line_of, session_survives}
use simple_kv_svr.Worker.Words.{has_no_space}

abbrev machine : Machine
machine = record { works = true; iterator_size = 8; node_size = 61 }

abbrev copies : List Slot
copies = replicate cache_size zero_slot

-- The end of a connection that has sent nothing.
process_nothing : process machine [] (start copies none) ≡ none
unfolding process
process_nothing = refl

-- "get" with no key: `string key = NULL`.
process_no_key : process machine (codes "get" ++ (10 ∷ [])) (start copies none) ≡ none
unfolding process key_eq
process_no_key = refl

token_spaces : token (codes "  ab c") ≡ some (codes "ab", codes "c")
unfolding token
token_spaces = refl

abbrev key_a : Bytes
key_a = codes "a"

abbrev value : Bytes
value = codes "one"

a-IsToken : IsToken key_a
unfolding has_no_space c_string
a-IsToken = record {
  word = record { nonempty = omega arith; solid = refl };
  text = record { plain = refl; short = omega arith };
}

one-IsToken : IsToken value
unfolding has_no_space c_string
one-IsToken = record {
  word = record { nonempty = omega arith; solid = refl };
  text = record { plain = refl; short = omega arith };
}

abbrev requests : List Request
requests =
    Request.set key_a value
    ∷ Request.get key_a
    ∷ Request.delete key_a
    ∷ Request.get key_a
    ∷ Request.set key_a value
    ∷ []

abbrev line : Bytes → Bytes
line text = text ++ (10 ∷ [])

session_survives_example :
    (s : KvIndex) × (process_all machine (map line_of requests) (start copies none)
      ≡ some (
        line (codes "OK")
            ∷ line value
            ∷ line (codes "OK")
            ∷ line (codes "NULL")
            ∷ line (codes "OK")
            ∷ [],
        s,
      ))
    × Holds (start copies (some s.store)) ((key_a, value) ∷ [])
unfolding lookup assign erase key_eq
session_survives_example =
    session_survives machine copies copies requests refl (length-replicate cache_size zero_slot)
      (length-replicate cache_size zero_slot) (omega arith)
      (
        (a-IsToken, one-IsToken),
        (a-IsToken, ((a-IsToken, λ h. cc), (a-IsToken, ((a-IsToken, one-IsToken), tt)))),
      )
