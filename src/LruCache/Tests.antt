-- ===== src/LruCache/Tests.antt =====
-- Runs of the cache, and its theorem at a concrete run.
use simple_kv_svr.Base.{
  Bool, false, ◌==◌, ℕ, lookup, assign, erase, key_eq, none, some, List, [], ◌∷◌, length, ◌≤◌, ◌≡◌,
  refl,
}
use simple_kv_svr.Store.{Command, State}
use simple_kv_svr.LruCache.{
  CachedTask, Cache, create, max_cached, get_cache, add_to_cache, delete_cache, take_out,
  add_to_head, evict, remove_tail, remove_node, step_back, unlink, unlink_next, link_node,
  link_back, write, write_through,
}
use simple_kv_svr.LruCache.Session.{
  CacheCall, run_calls, answers, remaining, add_new, run_calls-create,
}
use simple_kv_svr.LruCache.Recent.{find_task, forget, position, used, added}

abbrev task_of : ℕ → ℕ → CachedTask
task_of key value = record {
  task = record {
    cmd = Command.get;
    key = key ∷ [];
    key_len = 1;
    value = value ∷ [];
    value_len = 1;
    state = State.success;
  };
  buf = key;
}

abbrev none_gone : ℕ → Bool
none_gone b = false

-- Two tasks, both read, the older one deleted.
abbrev calls : List CacheCall
calls =
    CacheCall.keep (task_of 7 1)
    ∷ CacheCall.keep (task_of 8 2)
    ∷ CacheCall.fetch (7 ∷ [])
    ∷ CacheCall.fetch (9 ∷ [])
    ∷ CacheCall.drop (8 ∷ [])
    ∷ CacheCall.fetch (8 ∷ [])
    ∷ CacheCall.fetch (7 ∷ [])
    ∷ []

calls_answers : answers calls [] ≡ some (task_of 7 1) ∷ none ∷ none ∷ some (task_of 7 1) ∷ []
unfolding answers find_task forget used added key_eq
calls_answers = refl

none_gone-false : (b : ℕ) → none_gone b ≡ false
none_gone-false b = refl

run_calls-create_example :
    (s : Cache) × (run_calls calls (create none_gone (task_of 0 0)) ≡ some (answers calls [], s))
    × (s.total_cached ≡ length (remaining calls []))
    × (s.total_cached ≤ max_cached)
unfolding add_new find_task forget used added position key_eq
run_calls-create_example = run_calls-create none_gone (task_of 0 0) calls none_gone-false refl

-- A task that is added under a key that is there, and then deleted: the older node stays in the list, and
-- `getCache` does not find the key.
abbrev again : List CacheCall
again =
    CacheCall.keep (task_of 7 1)
    ∷ CacheCall.keep (task_of 7 2)
    ∷ CacheCall.drop (7 ∷ [])
    ∷ CacheCall.fetch (7 ∷ [])
    ∷ []

again_run :
    (s : Cache) × (run_calls again (create none_gone (task_of 0 0)) ≡ some (none ∷ [], s))
    × (s.total_cached ≡ 1)
    × (s.index ≡ [])
unfolding run_calls get_cache add_to_cache delete_cache take_out add_to_head evict step_back unlink
    unlink_next link_node link_back write write_through lookup assign erase key_eq
again_run = (_, refl, refl, refl)

-- The tail is removed after the task that it was copied from was deleted: its key is read in what is gone.
tail_gone :
    (s : Cache) × (add_to_cache (task_of 7 1) (create (λ b. b == 7) (task_of 0 0)) ≡ some s)
    × (remove_tail s ≡ none)
unfolding add_to_cache add_to_head evict link_node link_back write write_through remove_tail
    step_back remove_node
tail_gone = (_, refl, refl)
