-- ===== src/Worker.antt =====
-- simplekvsvr/main.cpp: `KVWorker::Process`, from the text that came over a connection to the answer.
-- `none` is undefined behaviour: a null pointer from `strtok_r`, a read before the buffer, or what the
-- index does.
pub mod Words
pub mod Session
mod Tests
use simple_kv_svr.Base.{
  ℕ, zero, suc, Bool, true, false, ◌&&◌, Option, none, some, List, [], ◌∷◌, ◌++◌, ◌==◌,
  if◌then◌else◌, Bytes, key_eq, codes,
}
use simple_kv_svr.SlotIndex
use simple_kv_svr.SlotIndex.{KvIndex}
use simple_kv_svr.SlotIndex.Cache

-- The delimiter.
abbrev pub space : ℕ
space = 32

-- `strspn`, of `strtok_r`: the spaces at the start are passed over.
pub skip_spaces : Bytes → Bytes
skip_spaces [] = []
skip_spaces (c ∷ text) = let rest = skip_spaces text in if c == space then rest else c ∷ text

-- `strcspn`, of `strtok_r`: the token, and what is saved behind the delimiter.
pub cut : Bytes → Bytes × Bytes
cut [] = ([], [])
cut (c ∷ text) = let (word, rest) = cut text in if c == space then ([], text) else (c ∷ word, rest)

-- `strtok_r`: `none` is a null pointer.
pub token : Bytes → Option (Bytes × Bytes)
unfolding skip_spaces cut
token text = elim (skip_spaces text) [ [] ↦ none | c ∷ rest ↦ some (cut (c ∷ rest)) ]

-- `if (cstr[length - 1] == '\n') cstr[length - 1] = 0;`; `none` is a read before the buffer.
pub chop : Bytes → Option Bytes
chop [] = none
chop (c ∷ []) = if c == 10 then some [] else some (c ∷ [])
chop (c ∷ c' ∷ text) = elim (chop (c' ∷ text)) [ none ↦ none | some rest ↦ some (c ∷ rest) ]

-- The branches of `Process`, each on what `strtok_r` saved.
pub do_get : Bytes → KvIndex → Option (Bytes × KvIndex)
do_get rest kv = elim (token rest) [
  | none ↦ none
  | some (key, _) ↦
      let (there, kv₁) = Cache.exist key kv in
      if there then Cache.get key kv₁ else some (codes "NULL", kv₁)
]

pub do_delete : Bytes → KvIndex → Option (Bytes × KvIndex)
do_delete rest kv = elim (token rest) [
  | none ↦ none
  | some (key, _) ↦ elim (SlotIndex.delete key kv) [
    | none ↦ none
    | some kv₁ ↦ some (codes "OK", kv₁)
  ]
]

pub do_set : Bool → Bytes → KvIndex → Option (Bytes × KvIndex)
do_set works rest kv = elim (token rest) [
  | none ↦ none
  | some (key, rest₁) ↦ elim (token rest₁) [
    | none ↦ none
    | some (value, _) ↦ elim (SlotIndex.set works key value kv) [
      | none ↦ none
      | some (done, kv₁) ↦ some (if done then codes "OK" else codes "error", kv₁)
    ]
  ]
]

-- What the machine gives: whether `Resize` gets its memory, and two values of `sizeof`.
pub record Machine : Type 0 where
  pub works : Bool
  pub iterator_size : ℕ
  pub node_size : ℕ

pub command : Machine → Bytes → Bytes → KvIndex → Option (Bytes × KvIndex)
unfolding do_get do_delete do_set
command m cur rest kv =
    if key_eq cur (codes "quit")
    then some (codes "OK", kv)
    else if key_eq cur (codes "get")
    then do_get rest kv
    else if key_eq cur (codes "delete")
    then do_delete rest kv
    else if key_eq cur (codes "stats")
    then some (Cache.get_stats m.iterator_size m.node_size kv, kv)
    else if key_eq cur (codes "set")
    then do_set m.works rest kv
    else some (codes "command not found", kv)

-- One round of `Process`: what is written to the connection, a newline behind it.
unfoldable pub process : Machine → Bytes → KvIndex → Option (Bytes × KvIndex)
unfolding chop token command
process m text kv = elim (chop text) [
  | none ↦ none
  | some cstr ↦ elim (token cstr) [
    | none ↦ none
    | some (cur, rest) ↦ elim (command m cur rest kv) [
      | none ↦ none
      | some (ret, kv₁) ↦ some (ret ++ (10 ∷ []), kv₁)
    ]
  ]
]

-- The rounds of `Process` for these texts, each done before the next text is taken, by whichever thread. Rounds of
-- several threads that mix are not modelled.
unfoldable pub process_all : Machine → List Bytes → KvIndex → Option (List Bytes × KvIndex)
process_all m [] kv = some ([], kv)
process_all m (text ∷ texts) kv = elim (process m text kv) [
  | none ↦ none
  | some (answer, kv₁) ↦ elim (process_all m texts kv₁) [
    | none ↦ none
    | some (answers, last) ↦ some (answer ∷ answers, last)
  ]
]
