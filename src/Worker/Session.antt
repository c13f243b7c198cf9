-- ===== src/Worker/Session.antt =====
-- A session of requests on the first server, against a dictionary.
use simple_kv_svr.Base.{
  ℕ, suc, ◌+◌, ◌%◌, ◌≤◌, ◌<◌, true, none, some, List, [], ◌∷◌, ◌++◌, length, get_or, map, Bytes,
  Dict, lookup, assign, erase, key_eq, codes, ◌≡◌, ◌≢◌, refl, ap, arith, Option-cases, inl, inr,
}
use simple_kv_svr.SlotIndex.{Slot, KvIndex, cache_size, zero_slot}
use simple_kv_svr.SlotIndex.Cache.Reading.{get-Holds, exist-Holds}
use simple_kv_svr.SlotIndex.Disk.{start}
use simple_kv_svr.SlotIndex.Disk.Restart.{
  start-Holds, start-none-Holds, start-none-IsDurable, start-none-ring,
}
use simple_kv_svr.SlotIndex.Durable.{IsDurable, IsDurable-same, deleted-IsDurable}
use simple_kv_svr.SlotIndex.Holds.{Holds, Holds-counts}
use simple_kv_svr.SlotIndex.Methods.{IsText, deleted, delete-deleted}
use simple_kv_svr.SlotIndex.Setting.{IsQuiet, deleted-IsQuiet, set-Holds}
use simple_kv_svr.Worker.{Machine, command, process, process_all, space}
use simple_kv_svr.Worker.Words.{IsWord, has_no_space, token-word, token-last, chop-line}

-- What a client asks.
pub data Request : Type 0 where
  get delete : Bytes → Request
  set : Bytes → Bytes → Request

-- The text of a request, as a client sends it.
abbrev pub line_of : Request → Bytes
line_of (get key) = (codes "get" ++ (space ∷ key)) ++ (10 ∷ [])
line_of (delete key) = (codes "delete" ++ (space ∷ key)) ++ (10 ∷ [])
line_of (set key value) = (codes "set" ++ (space ∷ key ++ (space ∷ value))) ++ (10 ∷ [])

-- The dictionary after a request, and the answer.
abbrev pub after : Request → Dict Bytes → Dict Bytes
after (get key) d = d
after (delete key) d = erase key d
after (set key value) d = assign key value d

abbrev pub answer : Request → Dict Bytes → Bytes
answer (get key) d = elim (lookup key d) [ none ↦ codes "NULL" | some value ↦ value ]
answer _ d = codes "OK"

-- Keys and values are words that a slot holds, and a key that is deleted is there.
pub record IsToken (t : Bytes) : Type 0 where
  pub word : IsWord t
  pub text : IsText t

abbrev pub IsFair : Request → Dict Bytes → Type 0
IsFair (get key) d = IsToken key
IsFair (delete key) d = IsToken key × (lookup key d ≢ none)
IsFair (set key value) d = IsToken key × IsToken value

abbrev pub AreFair : List Request → Dict Bytes → Type 0
AreFair [] d = Unit {0}
AreFair (r ∷ rs) d = IsFair r d × AreFair rs (after r d)

-- How many copies a request makes at most.
abbrev pub gets : List Request → ℕ
gets [] = 0
gets (get key ∷ rs) = suc (gets rs)
gets (_ ∷ rs) = gets rs

abbrev pub answers : List Request → Dict Bytes → List Bytes
answers [] d = []
answers (r ∷ rs) d = (answer r d ++ (10 ∷ [])) ∷ answers rs (after r d)

abbrev pub after_all : List Request → Dict Bytes → Dict Bytes
after_all [] d = d
after_all (r ∷ rs) d = after_all rs (after r d)

-- The ring of copies has not come round: nothing is at its turn or behind.
pub record IsUnturned (s : KvIndex) : Type 0 where
  pub free : (c : ℕ) → s.cache_turn ≤ c → get_or s.cache_element c none ≡ none

IsQuiet-IsUnturned : (s s' : KvIndex) → IsQuiet s s' → IsUnturned s → IsUnturned s'
IsQuiet-IsUnturned s s' q u = record { free = λ c h. q.free c (u.free c (omega (arith, q.turn))) }

-- One request: its answer, and the state after it.
pub record Answers (m : Machine) (r : Request) (s : KvIndex) (d : Dict Bytes) (s' : KvIndex)
    : Type 0 where
  pub ran : process m (line_of r) s ≡ some (answer r d ++ (10 ∷ []), s')
  pub holds : Holds s' (after r d)
  pub unturned : IsUnturned s'
  pub spent : s'.cache_turn ≤ s.cache_turn + gets (r ∷ [])
  pub lasting : IsDurable s → IsDurable s'

-- A request gets to its branch.
process-command :
    (m : Machine) (name rest : Bytes) (s s' : KvIndex) (ret : Bytes)
    → IsWord name
    → command m name rest s ≡ some (ret, s')
    → process m ((name ++ (space ∷ rest)) ++ (10 ∷ [])) s ≡ some (ret ++ (10 ∷ []), s')
unfolding process
process-command m name rest s s' ret w h =
    ground (arith, chop-line (name ++ (space ∷ rest)), token-word name rest w)

get-Answers :
    (m : Machine) (key : Bytes) (s : KvIndex) (d : Dict Bytes)
    → Holds s d
    → IsUnturned s
    → s.cache_turn < cache_size
    → IsToken key
    → (s' : KvIndex) × Answers m (get key) s d s'
unfolding command key_eq has_no_space
get-Answers m key s d v u early t =
    let s₁ = record s { request = s.request + 1 } in
    let v₁ = Holds-counts s d s.cache_turn (s.request + 1) s.hit s.cache_hit s.delete_count v in
    let w : IsWord (codes "get") = record { nonempty = omega arith; solid = refl } in
    let last = token-last key t.word in
    elim (Option-cases (lookup key d)) [
      | inl absent ↦ (
        s₁,
        record {
          ran =
              process-command m (codes "get") key s s₁ (answer (get key) d) w
                (ground (arith, last, exist-Holds key s d v));
          holds = v₁;
          unturned = record { free = u.free };
          spent = omega arith;
          lasting = IsDurable-same s s₁ (λ k. refl) (λ i. refl) refl;
        },
      )
      | inr (value, there) ↦ elim (get-Holds key value s₁ d v₁ there) [
        | inl (p, taken, dead, crashed) ↦
            absurd (ground (arith, u.free (s.cache_turn % cache_size)))
        | inr (s', got, holds, turned) ↦ (
          s',
          record {
            ran =
                process-command m (codes "get") key s s' (answer (get key) d) w
                  (ground (arith, last, got, exist-Holds key s d v));
            holds = holds;
            unturned = record {
              free = λ c h.
                  turned.free c (omega (arith, turned.moves))
                    (u.free c (omega (arith, turned.moves)));
            };
            spent = omega (arith, turned.moves);
            lasting = λ dur.
                IsDurable-same s₁ s' turned.slots
                  (λ i. ap (λ xs. get_or xs i zero_slot) turned.store) turned.size
                  (IsDurable-same s s₁ (λ k. refl) (λ i. refl) refl dur);
          },
        )
      ]
    ]

delete-Answers :
    (m : Machine) (key : Bytes) (s : KvIndex) (d : Dict Bytes)
    → Holds s d
    → IsUnturned s
    → IsToken key
    → lookup key d ≢ none
    → (s' : KvIndex) × Answers m (delete key) s d s'
unfolding command key_eq has_no_space
delete-Answers m key s d v u t there =
    let w : IsWord (codes "delete") = record { nonempty = omega arith; solid = refl } in
    let last = token-last key t.word in
    elim (Option-cases (lookup key s.kv)) [
      | inl absent ↦ absurd (there (ground (arith, v.agrees key)))
      | inr (e, found) ↦
          let (gone, holds) = delete-deleted key e s d found v in
          let q = deleted-IsQuiet key e s in
          (
            deleted key e s,
            record {
              ran =
                  process-command m (codes "delete") key s (deleted key e s) (codes "OK") w
                    (ground (arith, last, gone));
              holds = holds;
              unturned = IsQuiet-IsUnturned s (deleted key e s) q u;
              spent = omega (arith, q.turn);
              lasting = deleted-IsDurable key e s d found v;
            },
          )
    ]

set-Answers :
    (m : Machine) (key value : Bytes) (s : KvIndex) (d : Dict Bytes)
    → m.works ≡ true
    → Holds s d
    → IsUnturned s
    → IsToken key
    → IsToken value
    → (s' : KvIndex) × Answers m (set key value) s d s'
unfolding command key_eq has_no_space
set-Answers m key value s d works v u tk tv =
    let w : IsWord (codes "set") = record { nonempty = omega arith; solid = refl } in
    let first = token-word key value tk.word in
    let last = token-last value tv.word in
    elim (set-Holds m.works key value s d tk.text tv.text v) [
      | inl (fails, full, failed) ↦ absurd (ground arith)
      | inr (s', done, holds, q, lasting) ↦ (
        s',
        record {
          ran =
              process-command m (codes "set") (key ++ (space ∷ value)) s s' (codes "OK") w
                (ground (arith, first, last, done));
          holds = holds;
          unturned = IsQuiet-IsUnturned s s' q u;
          spent = omega (arith, q.turn);
          lasting = lasting tk.word.nonempty;
        },
      )
    ]

request-Answers :
    (m : Machine) (r : Request) (s : KvIndex) (d : Dict Bytes)
    → m.works ≡ true
    → Holds s d
    → IsUnturned s
    → s.cache_turn + gets (r ∷ []) ≤ cache_size
    → IsFair r d
    → (s' : KvIndex) × Answers m r s d s'
request-Answers m (get key) s d works v u early fair = get-Answers m key s d v u (omega arith) fair
request-Answers m (delete key) s d works v u early fair = delete-Answers m key s d v u fair.0 fair.1
request-Answers m (set key value) s d works v u early fair =
    set-Answers m key value s d works v u fair.0 fair.1

gets-cons : (r : Request) (rs : List Request) → gets (r ∷ rs) ≡ gets (r ∷ []) + gets rs
gets-cons (get key) rs = omega arith
gets-cons (delete key) rs = omega arith
gets-cons (set key value) rs = omega arith

process_all-Holds :
    (m : Machine) (rs : List Request) (s : KvIndex) (d : Dict Bytes)
    → m.works ≡ true
    → Holds s d
    → IsUnturned s
    → s.cache_turn + gets rs ≤ cache_size
    → AreFair rs d
    → (s' : KvIndex) × (process_all m (map line_of rs) s ≡ some (answers rs d, s'))
      × Holds s' (after_all rs d)
      × (IsDurable s → IsDurable s')
unfolding process_all
process_all-Holds m [] s d works v u early fair = (s, refl, v, λ dur. dur)
process_all-Holds m (r ∷ rs) s d works v u early (fair, others) =
    let more = gets-cons r rs in
    let (s₁, one) = request-Answers m r s d works v u (omega arith) fair in
    let (s₂, ran, holds, lasting) =
      process_all-Holds m rs s₁ (after r d) works one.holds one.unturned (omega (arith, one.spent))
        others in
    (s₂, ground (arith, one.ran, ran), holds, λ dur. lasting (one.lasting dur))

-- A session on a server that starts with no file, its requests handled one at a time: requests of words that fit the slots, deletes only of
-- keys that are there, room on the disk, and no more reads than the cache has places. Every answer
-- is the dictionary's; and a process that starts on the file that is left holds the same dictionary.
pub session_survives :
    (m : Machine) (cache cache' : List Slot) (rs : List Request)
    → m.works ≡ true
    → length cache ≡ cache_size
    → length cache' ≡ cache_size
    → gets rs ≤ cache_size
    → AreFair rs []
    → (s : KvIndex) × (process_all m (map line_of rs) (start cache none) ≡ some (answers rs [], s))
      × Holds (start cache' (some s.store)) (after_all rs [])
session_survives m cache cache' rs works len len' few fair =
    let (s, ran, holds, lasting) =
      process_all-Holds m rs (start cache none) [] works (start-none-Holds cache len)
        (record { free = λ c h. (start-none-ring cache).1 c })
        (omega (arith, (start-none-ring cache).0)) fair in
    (
      s,
      ran,
      start-Holds cache' s (after_all rs []) len' holds (lasting (start-none-IsDurable cache)),
    )
