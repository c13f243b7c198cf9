-- ===== src/FreeIndex/Calls.antt =====
-- A run of `Set` and `Delete` against a dictionary.
use simple_kv_svr.Base.{
  ◌+◌, Bool, true, false, ◌&&◌, Option, none, some, List, [], ◌∷◌, length, if◌then◌else◌, Bytes,
  Dict, lookup, assign, erase, lookup-assign, lookup-erase, key_eq, key_eq_iff, ◌≡◌, refl, ◌∙◌,
  arith, Option-cases, inl, inr,
}
use simple_kv_svr.FreeIndex.{KvIndex, Outcome, set, delete}
use simple_kv_svr.FreeIndex.Blocks.{Block, value, release, is_plain, IsTidy, value-release}
use simple_kv_svr.FreeIndex.Holds.{Holds, delete-Holds, delete-missing}
use simple_kv_svr.FreeIndex.Inserting.{set-IsDone}
use simple_kv_svr.FreeIndex.Disk.KeyFile.{is_word}

pub data Update : Type 0 where
  put : Bytes → Bytes → Update
  drop : Bytes → Update

-- The calls one after the other, where the system calls succeed; `none` where one does not return 0 or, for
-- `Delete`, -1.
unfoldable pub run : List Update → KvIndex → Option KvIndex
unfolding set delete
run [] s = some s
run (Update.put key w ∷ updates) s = elim (set (length w + 3) (λ n. true) key w s) [
  | Outcome.returned done s' ↦ if done then run updates s' else none
  | _ ↦ none
]
run (Update.drop key ∷ updates) s = elim (delete key s) [
  | none ↦ none
  | some (done, s') ↦ run updates s'
]

-- The dictionary after them.
unfoldable pub after : List Update → Dict Bytes → Dict Bytes
after [] d = d
after (Update.put key w ∷ updates) d = after updates (assign key w d)
after (Update.drop key ∷ updates) d = after updates (erase key d)

abbrev pub is_text : Bytes → Bool
is_text [] = false
is_text (c ∷ w) = is_plain (c ∷ w)

-- Keys without white space, and values that are not empty and have no 0.
unfoldable pub are_fair : List Update → Bool
unfolding is_plain
are_fair [] = true
are_fair (Update.put key w ∷ updates) = is_word key && (is_text w && are_fair updates)
are_fair (Update.drop key ∷ updates) = are_fair updates

-- The blocks have what the dictionary has, and all of it is fair.
pub record Agrees (blocks : List Block) (d : Dict Bytes) : Type 0 where
  pub same : (k : Bytes) → value k blocks ≡ lookup k d
  pub fair : (k w : Bytes) → lookup k d ≡ some w → (is_word k ≡ true) × (is_text w ≡ true)

is_text-is_plain : (w : Bytes) → is_text w ≡ true → is_plain w ≡ true
is_text-is_plain [] h = absurd (cc)
is_text-is_plain (c ∷ w) h = h

put-Agrees :
    (key w : Bytes) (blocks blocks' : List Block) (d : Dict Bytes)
    → Agrees blocks d
    → is_word key ≡ true
    → is_text w ≡ true
    → ((k : Bytes) → value k blocks' ≡ (if key_eq key k then some w else value k blocks))
    → Agrees blocks' (assign key w d)
put-Agrees key w blocks blocks' d v word text u = record {
  same = λ k. ground (arith, u k, v.same k, lookup-assign key k w d);
  fair = λ k x h. ground (arith, v.fair k x, lookup-assign key k w d, key_eq_iff key k);
}

drop-Agrees :
    (key : Bytes) (blocks : List Block) (d : Dict Bytes)
    → IsTidy blocks
    → Agrees blocks d
    → Agrees (release key blocks) (erase key d)
drop-Agrees key blocks d t v = record {
  same = λ k. ground (arith, value-release key k blocks t, v.same k, lookup-erase key k d);
  fair = λ k x h. ground (arith, v.fair k x, lookup-erase key k d);
}

drop_missing-Agrees :
    (key : Bytes) (blocks : List Block) (d : Dict Bytes)
    → value key blocks ≡ none
    → Agrees blocks d
    → Agrees blocks (erase key d)
drop_missing-Agrees key blocks d new v = record {
  same = λ k. ground (arith, v.same k, lookup-erase key k d, key_eq_iff key k);
  fair = λ k x h. ground (arith, v.fair k x, lookup-erase key k d);
}

run-put :
    (key w : Bytes) (updates : List Update) (s s' : KvIndex)
    → set (length w + 3) (λ n. true) key w s ≡ Outcome.returned true s'
    → run (Update.put key w ∷ updates) s ≡ run updates s'
unfolding run
run-put key w updates s s' e = ground arith

run-drop :
    (key : Bytes) (done : Bool) (updates : List Update) (s s' : KvIndex)
    → delete key s ≡ some (done, s')
    → run (Update.drop key ∷ updates) s ≡ run updates s'
unfolding run
run-drop key done updates s s' e = ground arith

pub run-Holds :
    (updates : List Update) (s : KvIndex) (blocks : List Block) (d : Dict Bytes)
    → Holds s blocks
    → Agrees blocks d
    → are_fair updates ≡ true
    → (s' : KvIndex) × (blocks' : List Block) × (run updates s ≡ some s')
      × Holds s' blocks'
      × Agrees blocks' (after updates d)
unfolding run after are_fair
run-Holds [] s blocks d v agrees fair = (s, blocks, refl, v, agrees)
run-Holds (Update.put key w ∷ updates) s blocks d v agrees fair =
    let text : is_text w ≡ true = ground arith in
    elim (set-IsDone (length w + 3) (λ n. true) key w s blocks v (is_text-is_plain w text)
      (omega arith)) [
        | inl (s', n, bad, ends, gone) ↦ absurd (cc)
        | inr (s', blocks', ends, holds, u) ↦
            let agrees' = put-Agrees key w blocks blocks' d agrees (ground arith) text u in
            let (s'', last, ran, holds', agrees'') =
              run-Holds updates s' blocks' (assign key w d) holds agrees' (ground arith) in
            (s'', last, run-put key w updates s s' ends ∙ ran, holds', agrees'')
      ]
run-Holds (Update.drop key ∷ updates) s blocks d v agrees fair =
    elim (Option-cases (value key blocks)) [
      | inl new ↦
          let agrees' = drop_missing-Agrees key blocks d new agrees in
          let (s'', last, ran, holds', agrees'') =
            run-Holds updates s blocks (erase key d) v agrees' fair in
          (
            s'',
            last,
            run-drop key false updates s s (delete-missing key s blocks v new) ∙ ran,
            holds',
            agrees'',
          )
      | inr (w, here) ↦
          let (s', gone, holds) = delete-Holds key w s blocks v here in
          let agrees' = drop-Agrees key blocks d v.tidy agrees in
          let (s'', last, ran, holds', agrees'') =
            run-Holds updates s' (release key blocks) (erase key d) holds agrees' fair in
          (s'', last, run-drop key true updates s s' gone ∙ ran, holds', agrees'')
    ]
