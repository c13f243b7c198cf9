-- ===== src/Logic/Stale.antt =====
-- A SET with no key: the scan goes on in what an earlier line left in the buffer.
use simple_kv_svr.Base.{
  ℕ, ◌+◌, ◌≤◌, ◌<◌, ◌≡◌, ◌≢◌, refl, ◌∷◌, ◌++◌, length, Bytes, codes, arith, int_sign,
}
use simple_kv_svr.Store.{Task, Command, State}
use simple_kv_svr.Logic.{Parsed, int_sub, parse}
use simple_kv_svr.Logic.Requests.{IsWord, find_break_lem}

-- The line "-set " with nothing behind it, of six bytes, is not refused if the buffer holds a word, a space
-- and a byte that is no newline behind it: it becomes a task for the store, whose key begins with
-- the newline and goes on in the old bytes, and whose value has a negative length.
pub parse_reads_stale_bytes :
    (res word rest : Bytes) (x : ℕ)
    → IsWord word
    → x ≢ 10
    → length word < 4096
    → (t : Task) × (parse (codes "-set " ++ (10 ∷ (word ++ (32 ∷ (x ∷ rest))))) res 6
        ≡ Parsed.request t)
      × (t.key ≡ 10 ∷ (word ++ (32 ∷ (x ∷ rest))))
      × (t.key_len ≡ length word + 1)
      × (int_sign ≤ t.value_len)
unfolding parse
parse_reads_stale_bytes res word rest x h first small = (
  record {
    cmd = Command.set;
    key = 10 ∷ (word ++ (32 ∷ (x ∷ rest)));
    key_len = length word + 1;
    value = x ∷ rest;
    value_len = int_sub 5 (length word + 7);
    state = State.success;
  },
  ground (arith, find_break_lem word (x ∷ rest) h),
  refl,
  refl,
  omega arith,
)
