-- ===== src/Logic/Session.antt =====
-- A client's lines, against a dictionary.
use mathlib.Core.Path.{subst, ap₂}
use simple_kv_svr.Base.{
  length-take_of_le, ℕ, ◌+◌, ◌≤◌, ◌<◌, ◌≡◌, refl, ap, sym, ◌∙◌, some, List, [], ◌∷◌, ◌++◌, length,
  Bytes, arith, Dict, lookup, assign, erase, length-drop,
}
use simple_kv_svr.DataNode.{no_fault, all_read, header_size, off_limit}
use simple_kv_svr.Store.{SimpleKvStore, Task, Command, Io, file_num, max_file, process_task}
use simple_kv_svr.Store.Refine.{IsStoreOf, cmd-dispatch}
use simple_kv_svr.Store.Alone.{log_size, written_of, IsWritable, dispatch-alone}
use simple_kv_svr.Store.Serve.{
  Reply, reply, expect, expect_get, expect_del, IsBounded, IsRequest, IsRequestOf, dispatch_refines,
  Shows, expect-IsBounded,
}
use simple_kv_svr.Logic.{respond, handle_line, handle_lines}
use simple_kv_svr.Logic.Requests.{Request, line, IsWritten, Means, parse-line}
use simple_kv_svr.Logic.Answers.{encode, HasRoom, respond_lem}

-- What the dictionary answers to a request, and the dictionary after it.
unfoldable pub expect_line : Request → Dict Bytes → Bytes × Dict Bytes
expect_line (Request.get k) m = (encode (expect_get (lookup k m)), m)
expect_line (Request.set k v) m = (encode Reply.done, assign k v m)
expect_line (Request.delete k) m = (encode (expect_del (lookup k m)), erase k m)

abbrev pub quiet_io : Io
quiet_io = record { append = no_fault; read = all_read; uninit = 0 }

-- The value of a SET has at most `room` bytes.
abbrev pub IsShort : ℕ → Request → Type 0
IsShort room (Request.set k v) = length v ≤ room
IsShort room _ = Unit {0}

Means-IsRequest :
    (r : Request) (room : ℕ) (res : Bytes) (t : Task)
    → Means res r t
    → IsShort room r
    → room + 2 ≤ length res
    → IsRequest room t
Means-IsRequest (Request.get k) room res t (c, key, buffer) short f =
    subst (λ (x : Command). IsRequestOf x room t) (sym c)
      (omega (arith, ap length buffer, length-drop 1 res))
Means-IsRequest (Request.set k v) room res t (c, key, value, len, task) short f =
    subst (λ (x : Command). IsRequestOf x room t) (sym c) (task, omega arith)
Means-IsRequest (Request.delete k) room res t (c, key, rec) short f =
    subst (λ (x : Command). IsRequestOf x room t) (sym c) rec

Means-buffer :
    (r : Request) (room : ℕ) (res : Bytes) (t : Task)
    → Means res r t
    → room + 2 ≤ length res
    → t.cmd ≡ Command.get
    → room < length t.value
Means-buffer (Request.get k) room res t (c, key, buffer) f e =
    omega (arith, ap length buffer, length-drop 1 res)
Means-buffer (Request.set k v) room res t (c, key, value, len, task) f e = cc
Means-buffer (Request.delete k) room res t (c, key, rec) f e = cc

-- The dictionary answers the task as it answers the request.
expect-Means :
    (r : Request) (res : Bytes) (t : Task) (m : Dict Bytes)
    → Means res r t
    → (encode (expect t.cmd t m).0 ≡ (expect_line r m).0)
      × ((expect t.cmd t m).1 ≡ (expect_line r m).1)
unfolding expect expect_line
expect-Means (Request.get k) res t m (c, key, buffer) =
    let e = ap (λ (x : Command). expect x t m) c in
    let e' = ap (λ (x : Bytes). expect_get (lookup x m)) key in
    (
      ap (λ (q : Reply × Dict Bytes). encode q.0) e ∙ ap encode e',
      ap (λ (q : Reply × Dict Bytes). q.1) e,
    )
expect-Means (Request.set k v) res t m (c, key, value, len, task) =
    let e = ap (λ (x : Command). expect x t m) c in
    (
      ap (λ (q : Reply × Dict Bytes). encode q.0) e,
      ap (λ (q : Reply × Dict Bytes). q.1) e ∙ ap₂ (λ (x y : Bytes). assign x y m) key value,
    )
expect-Means (Request.delete k) res t m (c, key, rec) =
    let e = ap (λ (x : Command). expect x t m) c in
    let e' = ap (λ (x : Bytes). expect_del (lookup x m)) key in
    (
      ap (λ (q : Reply × Dict Bytes). encode q.0) e ∙ ap encode e',
      ap (λ (q : Reply × Dict Bytes). q.1) e ∙ ap (λ (x : Bytes). erase x m) key,
    )

Shows-HasRoom :
    (cmd : Command) (room : ℕ) (t out : Task)
    → (cmd ≡ Command.get → room < length t.value)
    → Shows cmd room t out
    → HasRoom cmd out
Shows-HasRoom Command.get room t out f shows =
    λ ok. let (small, same) = shows ok in omega (arith, f refl)
Shows-HasRoom _ room t out f shows = tt

-- The bytes that a request appends to the log.
abbrev pub growth : Request → ℕ
growth (Request.get k) = 0
growth (Request.set k v) = header_size + length k + length v
growth (Request.delete k) = header_size + length k

Means-written :
    (r : Request) (res : Bytes) (t : Task)
    → Means res r t
    → IsWritable t.cmd t × (written_of t.cmd t ≡ growth r)
Means-written (Request.get k) res t (c, key, buffer) =
    subst (λ (x : Command). IsWritable x t × (written_of x t ≡ 0)) (sym c) (tt, refl)
Means-written (Request.set k v) res t (c, key, value, len, task) =
    subst (λ (x : Command). IsWritable x t × (written_of x t ≡ header_size + length k + length v))
      (sym c) (task, omega (arith, ap length key, length-take_of_le t.key_len t.key task.key_there))
Means-written (Request.delete k) res t (c, key, rec) =
    subst (λ (x : Command). IsWritable x t × (written_of x t ≡ header_size + length k)) (sym c)
      (rec, omega (arith, ap length key, length-take_of_le t.key_len t.key rec.key_there))

-- What one line does.
pub record Handles (room : ℕ) (r : Request) (buf res : Bytes) (s : SimpleKvStore) (m : Dict Bytes)
    : Type 0 where
  pub out : Bytes × SimpleKvStore
  pub runs : handle_line quiet_io buf res (length (line r)) s ≡ some out
  pub answers : out.0 ≡ (expect_line r m).0
  pub store : IsStoreOf out.1 (expect_line r m).1
  pub bounded : IsBounded room (expect_line r m).1
  pub one_file : file_num out.1 ≤ file_num s + 1
  pub alone : out.1.rebuilds ≡ s.rebuilds
  pub size : log_size out.1 ≤ log_size s + growth r

-- The line of a request, with system calls that succeed, a place for one more file, and a last file within
-- OFFLIMIT, at the start of a buffer with anything behind it: what is sent is the line of the dictionary's answer, and the store
-- stands for the dictionary after it.
pub handle_line_refines :
    (r : Request) (room : ℕ) (res junk : Bytes) (s : SimpleKvStore) (m : Dict Bytes)
    → IsWritten r
    → IsShort room r
    → room + 2 ≤ length res
    → IsStoreOf s m
    → IsBounded room m
    → file_num s < max_file
    → log_size s ≤ off_limit
    → Handles room r (line r ++ junk) res s m
unfolding handle_line process_task
handle_line_refines r room res junk s m written short f h b files small =
    let (t, parsed, means) = parse-line r res junk written in
    let request = Means-IsRequest r room res t means short f in
    let d = dispatch_refines t.cmd room t s m h b request files in
    let (writable, bytes) = Means-written r res t means in
    let (still, grown) = dispatch-alone t.cmd t s d.out writable h.ready small d.runs in
    let same = cmd-dispatch t.cmd quiet_io t s d.out d.runs in
    let (sent, after) = expect-Means r res t m means in
    let space = Shows-HasRoom t.cmd room t d.out.0 (Means-buffer r room res t means f) d.shows in
    record {
      out = (respond d.out.0, d.out.1);
      runs = ground (arith, parsed, d.runs);
      answers =
          respond_lem d.out.0 (subst (λ (x : Command). HasRoom x d.out.0) (sym same) space)
          ∙ (ap (λ (x : Command). encode (reply x d.out.0)) same ∙ (ap encode d.replies ∙ sent));
      store = subst (λ (x : Dict Bytes). IsStoreOf d.out.1 x) after d.store;
      bounded =
          subst (λ (x : Dict Bytes). IsBounded room x) after
            (expect-IsBounded t.cmd room t m request b);
      one_file = d.one_file;
      alone = still;
      size = omega (arith, grown, bytes);
    }

-- A request, and what the new task's buffer happens to hold behind its line.
abbrev pub Sent : Type 0
Sent = Request × Bytes

abbrev pub buffers : List Sent → List (Bytes × ℕ)
buffers [] = []
buffers ((r, junk) ∷ rest) = (line r ++ junk, length (line r)) ∷ buffers rest

abbrev pub AllWritten : ℕ → List Sent → Type 0
AllWritten room [] = Unit {0}
AllWritten room ((r, junk) ∷ rest) = (IsWritten r × IsShort room r) × AllWritten room rest

unfoldable pub expect_lines : List Sent → Dict Bytes → List Bytes × Dict Bytes
expect_lines [] m = ([], m)
expect_lines ((r, junk) ∷ rest) m =
    let (sent, m') = expect_line r m in
    let (more, last) = expect_lines rest m' in (sent ∷ more, last)

abbrev pub all_growth : List Sent → ℕ
all_growth [] = 0
all_growth ((r, junk) ∷ rest) = growth r + all_growth rest

-- A session of requests on a store where no thread of `rebuildFile` runs: with system calls that succeed, places for
-- as many files as there are requests, and room for what they write in the last file before it reaches OFFLIMIT,
-- no such thread is started, every line is answered, in order, as the dictionary answers it, and the store
-- stands for the dictionary after all of them.
pub handle_lines_refines :
    (lines : List Sent) (room : ℕ) (res : Bytes) (s : SimpleKvStore) (m : Dict Bytes)
    → AllWritten room lines
    → room + 2 ≤ length res
    → IsStoreOf s m
    → IsBounded room m
    → file_num s + length lines ≤ max_file
    → s.rebuilds ≡ 0
    → log_size s + all_growth lines ≤ off_limit
    → (s' : SimpleKvStore) × (handle_lines quiet_io res (buffers lines) s
        ≡ some ((expect_lines lines m).0, s'))
      × IsStoreOf s' (expect_lines lines m).1
      × (s'.rebuilds ≡ 0)
unfolding handle_lines expect_lines
handle_lines_refines [] room res s m v f h b files alone small = (s, refl, h, alone)
handle_lines_refines ((r, junk) ∷ rest) room res s m ((w, short), v) f h b files alone small =
    let d = handle_line_refines r room res junk s m w short f h b (omega arith) (omega arith) in
    let (s', runs, store, last) =
      handle_lines_refines rest room res d.out.1 (expect_line r m).1 v f d.store d.bounded
        (omega (arith, d.one_file)) (d.alone ∙ alone) (omega (arith, d.size)) in
    (s', ground (arith, d.runs, d.answers, runs, d.alone, alone), store, last)
