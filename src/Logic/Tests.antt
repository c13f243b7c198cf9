-- ===== src/Logic/Tests.antt =====
-- Tests of the logic layer, and its theorems at concrete lines.
use simple_kv_svr.Base.{
  ◌+◌, ◌≤◌, ◌≡◌, refl, some, List, [], ◌∷◌, ◌++◌, length, replicate, Bytes, codes, arith, lookup,
  key_eq, assign, erase, int_sign,
}
use simple_kv_svr.Store.{SimpleKvStore, Task, Command, State, fresh}
use simple_kv_svr.Store.Refine.{IsStoreOf}
use simple_kv_svr.Store.Serve.{fresh-IsStoreOf, IsBounded}
use simple_kv_svr.Logic.{
  error_line, ok_line, Parsed, starts, find_break, parse_set, parse, handle_lines,
}
use simple_kv_svr.Logic.Requests.{Request, line, Means, parse-line}
use simple_kv_svr.Logic.Answers.{encode}
use simple_kv_svr.Logic.Stale.{parse_reads_stale_bytes}
use simple_kv_svr.Store.Alone.{log_size}
use simple_kv_svr.Logic.Session.{
  Sent, buffers, expect_line, expect_lines, AllWritten, quiet_io, handle_lines_refines,
}

parse_errors :
    (parse (codes "get k" ++ (10 ∷ [])) [] 6 ≡ Parsed.error)
    × (parse (codes "-set k" ++ (10 ∷ codes "old")) [] 7 ≡ Parsed.error)
    × (parse (codes "-set k " ++ (10 ∷ codes "old")) [] 8 ≡ Parsed.error)
    × (parse (codes "-stats" ++ (10 ∷ [])) [] 7 ≡ Parsed.stats)
    × (parse (codes "-quit" ++ (10 ∷ [])) [] 6 ≡ Parsed.quit)
    × (parse (codes "-set k") [] 6 ≡ Parsed.overrun)
unfolding parse parse_set starts find_break
parse_errors = (refl, refl, refl, refl, refl, refl)

-- An answer buffer of 16 bytes.
abbrev res : Bytes
res = replicate 16 0

abbrev k : Bytes
k = 107 ∷ []

abbrev abc : Bytes
abc = 97 ∷ 98 ∷ 99 ∷ []

abbrev session : List Sent
session =
    (Request.get k, [])
    ∷ (Request.set k abc, 1 ∷ [])
    ∷ (Request.get k, 2 ∷ [])
    ∷ (Request.delete k, [])
    ∷ (Request.get k, [])
    ∷ []

session_answers :
    (expect_lines session []).0
    ≡ error_line ∷ ok_line ∷ (codes "+abc" ++ (10 ∷ [])) ∷ ok_line ∷ error_line ∷ []
unfolding expect_lines expect_line encode lookup assign erase key_eq
session_answers = refl

session-AllWritten : AllWritten 8 session
session-AllWritten = omega arith

empty-IsBounded : IsBounded 8 []
unfolding lookup
empty-IsBounded = record { at_key = λ j v h. cc }

handle_lines_refines_example :
    (s' : SimpleKvStore) × (handle_lines quiet_io res (buffers session) fresh
      ≡ some ((expect_lines session []).0, s'))
    × IsStoreOf s' (expect_lines session []).1
    × (s'.rebuilds ≡ 0)
unfolding fresh log_size
handle_lines_refines_example =
    handle_lines_refines session 8 res fresh [] session-AllWritten (omega arith) fresh-IsStoreOf
      empty-IsBounded (omega arith) refl (omega arith)

parse-line_example :
    (t : Task) × (parse (line (Request.set k abc) ++ (7 ∷ [])) res 11 ≡ Parsed.request t)
    × Means res (Request.set k abc) t
parse-line_example = parse-line (Request.set k abc) res (7 ∷ []) (omega arith)

-- A GET that has read "abc".
abbrev got_abc : Task
got_abc = record {
  cmd = Command.get;
  key = k;
  key_len = 1;
  value = abc ++ (0 ∷ []);
  value_len = 3;
  state = State.success;
}

parse_reads_stale_bytes_example :
    (t : Task) × (parse (codes "-set " ++ (10 ∷ (codes "old" ++ (32 ∷ (120 ∷ []))))) res 6
      ≡ Parsed.request t)
    × (t.key ≡ 10 ∷ (codes "old" ++ (32 ∷ (120 ∷ []))))
    × (t.key_len ≡ length (codes "old") + 1)
    × (int_sign ≤ t.value_len)
parse_reads_stale_bytes_example =
    parse_reads_stale_bytes res (codes "old") [] 120 (omega arith) (omega arith) (omega arith)
