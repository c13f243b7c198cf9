-- ===== src/LruCache/Session.antt =====
-- Runs of calls on a new cache.
use simple_kv_svr.Base.{
  ℕ, ◌≤◌, Bool, true, false, ◌&&◌, Option, none, some, List, [], ◌∷◌, length, Bytes, lookup, ◌≡◌,
  refl, ◌∙◌, arith,
}
use simple_kv_svr.LruCache.{
  CachedTask, Cache, create, key_of, max_cached, get_cache, add_to_cache, delete_cache,
}
use simple_kv_svr.LruCache.Recent.{find_task, forget, position, used, added, IsDistinct}
use simple_kv_svr.LruCache.Holds.{Holds, get_cache-Holds, delete_cache-Holds}
use simple_kv_svr.LruCache.Adding.{add_to_cache-Holds}

-- A call of `getCache`, `addToCache` or `deleteCache`.
pub data CacheCall : Type 0 where
  fetch drop : Bytes → CacheCall
  keep : CachedTask → CacheCall

-- The calls one after the other: what `getCache` returned, and the cache.
unfoldable pub run_calls : List CacheCall → Cache → Option (List (Option CachedTask) × Cache)
unfolding get_cache add_to_cache delete_cache
run_calls [] s = some ([], s)
run_calls (CacheCall.fetch key ∷ calls) s = elim (get_cache key s) [
  | none ↦ none
  | some (found, s₁) ↦ elim (run_calls calls s₁) [
    | none ↦ none
    | some (answers, last) ↦ some (found ∷ answers, last)
  ]
]
run_calls (CacheCall.drop key ∷ calls) s = elim (delete_cache key s) [
  | none ↦ none
  | some s₁ ↦ run_calls calls s₁
]
run_calls (CacheCall.keep task ∷ calls) s = elim (add_to_cache task s) [
  | none ↦ none
  | some s₁ ↦ run_calls calls s₁
]

-- The list of tasks after a call.
abbrev pub after : CacheCall → List CachedTask → List CachedTask
after (CacheCall.fetch key) l = used key l
after (CacheCall.drop key) l = forget key l
after (CacheCall.keep task) l = added task l

-- What the list answers to the calls.
unfoldable pub answers : List CacheCall → List CachedTask → List (Option CachedTask)
unfolding find_task
answers [] l = []
answers (CacheCall.fetch key ∷ calls) l = find_task key l ∷ answers calls (used key l)
answers (CacheCall.drop key ∷ calls) l = answers calls (forget key l)
answers (CacheCall.keep task ∷ calls) l = answers calls (added task l)

-- The list after all of them.
unfoldable pub remaining : List CacheCall → List CachedTask → List CachedTask
remaining [] l = l
remaining (call ∷ calls) l = remaining calls (after call l)

abbrev pub is_none : {A : Type 0} → Option A → Bool
is_none none = true
is_none (some a) = false

-- Tasks are added under keys that are not there.
unfoldable pub add_new : List CacheCall → List CachedTask → Bool
unfolding position
add_new [] l = true
add_new (CacheCall.fetch key ∷ calls) l = add_new calls (used key l)
add_new (CacheCall.drop key ∷ calls) l = add_new calls (forget key l)
add_new (CacheCall.keep task ∷ calls) l =
    is_none (position (key_of task) l) && add_new calls (added task l)

run_calls-fetch :
    (key : Bytes) (calls : List CacheCall) (s s₁ s' : Cache) (found : Option CachedTask)
    (rest : List (Option CachedTask))
    → get_cache key s ≡ some (found, s₁)
    → run_calls calls s₁ ≡ some (rest, s')
    → run_calls (CacheCall.fetch key ∷ calls) s ≡ some (found ∷ rest, s')
unfolding run_calls
run_calls-fetch key calls s s₁ s' found rest e e₁ = ground arith

run_calls-drop :
    (key : Bytes) (calls : List CacheCall) (s s₁ : Cache)
    → delete_cache key s ≡ some s₁
    → run_calls (CacheCall.drop key ∷ calls) s ≡ run_calls calls s₁
unfolding run_calls
run_calls-drop key calls s s₁ e = ground arith

run_calls-keep :
    (task : CachedTask) (calls : List CacheCall) (s s₁ : Cache)
    → add_to_cache task s ≡ some s₁
    → run_calls (CacheCall.keep task ∷ calls) s ≡ run_calls calls s₁
unfolding run_calls
run_calls-keep task calls s s₁ e = ground arith

run_calls-Holds :
    (calls : List CacheCall) (s : Cache) (l : List CachedTask)
    → Holds s l
    → add_new calls l ≡ true
    → (s' : Cache) × (run_calls calls s ≡ some (answers calls l, s')) × Holds s' (remaining calls l)
unfolding run_calls answers remaining add_new
run_calls-Holds [] s l v h = (s, refl, v)
run_calls-Holds (CacheCall.fetch key ∷ calls) s l v h =
    let (s₁, first, holds) = get_cache-Holds key s l v in
    let (s', rest, last) = run_calls-Holds calls s₁ (used key l) holds h in
    (
      s',
      run_calls-fetch key calls s s₁ s' (find_task key l) (answers calls (used key l)) first rest,
      last,
    )
run_calls-Holds (CacheCall.drop key ∷ calls) s l v h =
    let (s₁, first, holds) = delete_cache-Holds key s l v in
    let (s', rest, last) = run_calls-Holds calls s₁ (forget key l) holds h in
    (s', run_calls-drop key calls s s₁ first ∙ rest, last)
run_calls-Holds (CacheCall.keep task ∷ calls) s l v h =
    let (s₁, first, holds) = add_to_cache-Holds task s l v (ground arith) in
    let (s', rest, last) = run_calls-Holds calls s₁ (added task l) holds (ground arith) in
    (s', run_calls-keep task calls s s₁ first ∙ rest, last)

create-Holds :
    (gone : ℕ → Bool) (head : CachedTask) → ((b : ℕ) → gone b ≡ false) → Holds (create gone head) []
unfolding position IsDistinct lookup
create-Holds gone head alive = record {
  at = λ i. 0;
  content = λ i. head;
  sequence = record {
    links = λ i h. ground arith;
    apart = λ i j hi hj e. omega arith;
    head = refl;
    tail = refl;
  };
  below = λ i h. omega arith;
  tasks = λ i t e. absurd (cc);
  count = refl;
  bounded = omega arith;
  indexed = λ k. refl;
  distinct = tt;
  alive = alive;
}

-- Any calls of `getCache`, `deleteCache` and `addToCache` on a new cache, where each task that is added has a
-- key that is not cached then, and none of the tasks that are copied is deleted meanwhile: no pointer that is null
-- or deleted is used, `getCache` returns what a list answers that is kept in the order of use and cut off behind 128
-- tasks, and `totalCached` is its length.
pub run_calls-create :
    (gone : ℕ → Bool) (head : CachedTask) (calls : List CacheCall)
    → ((b : ℕ) → gone b ≡ false)
    → add_new calls [] ≡ true
    → (s : Cache) × (run_calls calls (create gone head) ≡ some (answers calls [], s))
      × (s.total_cached ≡ length (remaining calls []))
      × (s.total_cached ≤ max_cached)
run_calls-create gone head calls alive h =
    let (s, done, holds) =
      run_calls-Holds calls (create gone head) [] (create-Holds gone head alive) h in
    (s, done, holds.count, omega (arith, holds.count, holds.bounded))
