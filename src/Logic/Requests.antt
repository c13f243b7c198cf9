-- ===== src/Logic/Requests.antt =====
-- The lines that a client may send, and what they are read as.
use simple_kv_svr.Base.{
  ℕ, ◌+◌, ◌-◌, ◌<◌, ◌≡◌, ◌≢◌, refl, some, [], ◌∷◌, ◌++◌, length, drop, Bytes, codes, arith,
  append_assoc, length-append, take-append_length, int_sign,
}
use simple_kv_svr.DataNode.Log.{IsRecord}
use simple_kv_svr.Store.{Task, Command, State, del_record}
use simple_kv_svr.Store.Refine.{key_of, value_of, IsTask}
use simple_kv_svr.Logic.{Parsed, int_sub, find_break, parse}

pub data Request : Type 0 where
  get : Bytes → Request
  set : Bytes → Bytes → Request
  delete : Bytes → Request

-- The line of a request, newline included.
abbrev pub line : Request → Bytes
line (Request.get k) = codes "-get " ++ (k ++ (10 ∷ []))
line (Request.set k v) = codes "-set " ++ (k ++ (32 ∷ (v ++ (10 ∷ []))))
line (Request.delete k) = codes "-delete " ++ (k ++ (10 ∷ []))

-- No space and no newline.
abbrev pub IsWord : Bytes → Type 0
IsWord [] = Unit {0}
IsWord (c ∷ cs) = (c ≢ 32) × (c ≢ 10) × IsWord cs

-- The key of a SET has a first byte, any, and then no space and no newline.
abbrev pub IsSetKey : Bytes → Type 0
IsSetKey [] = ⊥
IsSetKey (c ∷ cs) = IsWord cs

-- The value of a SET has a first byte, which is no newline.
abbrev pub IsSetValue : Bytes → Type 0
IsSetValue [] = ⊥
IsSetValue (c ∷ cs) = c ≢ 10

abbrev pub IsWritten : Request → Type 0
IsWritten (Request.get k) = length k + 6 < int_sign
IsWritten (Request.set k v) = IsSetKey k × IsSetValue v × (length k + length v + 7 < int_sign)
IsWritten (Request.delete k) = length k + 9 < int_sign

-- The task is the request's: its command, the bytes of its key and of its value, a value buffer in
-- `res`, and lengths that the record file can hold.
abbrev pub Means : Bytes → Request → Task → Type 0
Means res (Request.get k) t = (t.cmd ≡ Command.get) × (key_of t ≡ k) × (t.value ≡ drop 1 res)
Means res (Request.set k v) t =
    (t.cmd ≡ Command.set) × (key_of t ≡ k) × (value_of t ≡ v) × (t.value_len ≡ length v) × IsTask t
Means res (Request.delete k) t = (t.cmd ≡ Command.del) × (key_of t ≡ k) × IsRecord (del_record t)

pub find_break_lem :
    (word rest : Bytes)
    → IsWord word
    → find_break (word ++ (32 ∷ rest)) ≡ some (length word, 32 ∷ rest)
unfolding find_break
find_break_lem [] rest h = refl
find_break_lem (c ∷ word) rest (h₁, h₂, h) = ground (arith, find_break_lem word rest h)

-- What is behind the line in the buffer is `junk`.
parse-get :
    (res k junk : Bytes) (n : ℕ)
    → n ≡ length k + 6
    → n < int_sign
    → (t : Task) × (parse (codes "-get " ++ (k ++ (10 ∷ junk))) res n ≡ Parsed.request t)
      × Means res (Request.get k) t
unfolding parse
parse-get res k junk n e h = (
  record {
    cmd = Command.get;
    key = k ++ (10 ∷ junk);
    key_len = int_sub n 6;
    value = drop 1 res;
    value_len = 0;
    state = State.success;
  },
  refl,
  (refl, take-append_length (int_sub n 6) k (10 ∷ junk) (omega arith), refl),
)

parse-delete :
    (res k junk : Bytes) (n : ℕ)
    → n ≡ length k + 9
    → n < int_sign
    → (t : Task) × (parse (codes "-delete " ++ (k ++ (10 ∷ junk))) res n ≡ Parsed.request t)
      × Means res (Request.delete k) t
unfolding parse
parse-delete res k junk n e h = (
  record {
    cmd = Command.del;
    key = k ++ (10 ∷ junk);
    key_len = int_sub n 9;
    value = [];
    value_len = 0;
    state = State.success;
  },
  refl,
  (
    refl,
    take-append_length (int_sub n 9) k (10 ∷ junk) (omega arith),
    omega (arith, length-append k (10 ∷ junk)),
  ),
)

parse_set_lem :
    (res : Bytes) (c x : ℕ) (ks vs junk : Bytes) (n : ℕ)
    → IsWord ks
    → x ≢ 10
    → n ≡ length ks + length vs + 9
    → n < int_sign
    → (t : Task) × (parse (codes "-set " ++ ((c ∷ ks) ++ (32 ∷ ((x ∷ vs) ++ (10 ∷ junk))))) res n
        ≡ Parsed.request t)
      × Means res (Request.set (c ∷ ks) (x ∷ vs)) t
unfolding parse
parse_set_lem res c x ks vs junk n word first e h = (
  record {
    cmd = Command.set;
    key = (c ∷ ks) ++ (32 ∷ ((x ∷ vs) ++ (10 ∷ junk)));
    key_len = length ks + 1;
    value = (x ∷ vs) ++ (10 ∷ junk);
    value_len = int_sub (n - 1) (length ks + 7);
    state = State.success;
  },
  ground (arith, find_break_lem ks ((x ∷ vs) ++ (10 ∷ junk)) word),
  (
    refl,
    take-append_length (length ks + 1) (c ∷ ks) (32 ∷ ((x ∷ vs) ++ (10 ∷ junk))) (omega arith),
    take-append_length (int_sub (n - 1) (length ks + 7)) (x ∷ vs) (10 ∷ junk) (omega arith),
    omega arith,
    omega (arith, length-append ks (32 ∷ ((x ∷ vs) ++ (10 ∷ junk))), length-append vs (10 ∷ junk)),
  ),
)

-- The line of a request, at the start of a buffer with anything behind it, is read as that request.
pub parse-line :
    (r : Request) (res junk : Bytes)
    → IsWritten r
    → (t : Task) × (parse (line r ++ junk) res (length (line r)) ≡ Parsed.request t) × Means res r t
parse-line (Request.get k) res junk h = rw (append_assoc k (10 ∷ []) junk) (
    parse-get res k junk (length (line (Request.get k))) (omega (arith, length-append k (10 ∷ [])))
      (omega (arith, length-append k (10 ∷ []))))
parse-line (Request.set [] v) res junk h = absurd h.0
parse-line (Request.set (c ∷ ks) []) res junk h = absurd h.1
parse-line (Request.set (c ∷ ks) (x ∷ vs)) res junk (word, first, small) =
    let inner : length (ks ++ (32 ∷ ((x ∷ vs) ++ (10 ∷ [])))) ≡ length ks + length vs + 3 =
      omega (arith, length-append ks (32 ∷ ((x ∷ vs) ++ (10 ∷ []))), length-append vs (10 ∷ [])) in
    rw (append_assoc ks (32 ∷ ((x ∷ vs) ++ (10 ∷ []))) junk, append_assoc vs (10 ∷ []) junk)
      (parse_set_lem res c x ks vs junk (length (line (Request.set (c ∷ ks) (x ∷ vs)))) word first
        (omega (arith, inner)) (omega (arith, inner)))
parse-line (Request.delete k) res junk h = rw (append_assoc k (10 ∷ []) junk) (
    parse-delete res k junk (length (line (Request.delete k)))
      (omega (arith, length-append k (10 ∷ []))) (omega (arith, length-append k (10 ∷ []))))
