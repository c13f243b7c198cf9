-- ===== src/LruCache/Adding.antt =====
-- `addToCache` on a cache that holds a list of tasks.
use mathlib.Core.Path.{subst}
use native.Mathlib.Decide.{dec_lt}
use simple_kv_svr.Base.{
  ℕ, zero, suc, ◌+◌, ◌-◌, ◌≤◌, ◌<◌, none, some, List, [], ◌∷◌, length, get_elem?, get_elem?-lt,
  take, Bytes, lookup, erase, assign, lookup-assign, lookup-erase, key_eq, key_eq_iff, ◌≡◌, ◌≢◌,
  refl, sym, ap, arith, inl, inr, Bool-cases, Option-cases,
}
use simple_kv_svr.LruCache.{
  CachedTask, Cache, override, new_node, add_to_head, remove_tail, drop_index, key_of, max_cached,
  allocate, evict, add_to_cache,
}
use simple_kv_svr.LruCache.Recent.{
  forget, position, added, position-lt, length-forget, get_elem?-forget, position-forget_ne,
  position-forget_self, forget-IsDistinct, forget-last, one_position, cons-IsDistinct,
  position-cons,
}
use simple_kv_svr.LruCache.Links.{push}
use simple_kv_svr.LruCache.Sequence.{
  IsSequence, relinked, add_to_head-IsSequence, remove_tail-IsSequence, override-IsLinked,
}
use simple_kv_svr.LruCache.Holds.{HoldsUpTo, Holds, address, push-below, push-tasks}

get_elem?-below :
    (l : List CachedTask) (i : ℕ) → i < length l → (t : CachedTask) × (get_elem? l i ≡ some t)
get_elem?-below [] i h = absurd (omega arith)
get_elem?-below (t ∷ l) zero h = (t, refl)
get_elem?-below (t ∷ l) (suc i) h = get_elem?-below l i (omega arith)

take_all : (n : ℕ) (l : List CachedTask) → length l ≤ n → take n l ≡ l
take_all zero [] h = refl
take_all zero (t ∷ l) h = absurd (omega arith)
take_all (suc n) [] h = refl
take_all (suc n) (t ∷ l) h = ap (λ xs. t ∷ xs) (take_all n l (omega arith))

-- The index without the last key.
last-indexed :
    (k k' : Bytes) (m n : ℕ) (s : Cache) (l : List CachedTask) (v : HoldsUpTo m s l)
    → length l ≡ suc n
    → position k l ≡ some n
    → lookup k' (erase k s.index) ≡ address v.at (position k' (forget k l))
last-indexed k k' m n s l v len there = elim (Bool-cases (key_eq k k')) [
  | inl same ↦
      ground
        (arith, lookup-erase k k' s.index, position-forget_self k l v.distinct, key_eq_iff k k')
  | inr other ↦
      let differ : k ≢ k' = λ e. absurd (ground (arith, key_eq_iff k k')) in
      elim (Option-cases (position k' l)) [
        | inl absent ↦ ground (
          arith,
          lookup-erase k k' s.index,
          v.indexed k',
          position-forget_ne k k' l n there differ,
        )
        | inr (i, there') ↦ ground (
          arith,
          lookup-erase k k' s.index,
          v.indexed k',
          position-forget_ne k k' l n there differ,
          position-lt k' l i there',
          one_position k k' l n there,
        )
      ]
]

-- The tasks without the last.
last-tasks :
    (k : Bytes) (l : List CachedTask) (n i : ℕ) (t : CachedTask)
    → length l ≡ suc n
    → position k l ≡ some n
    → get_elem? (forget k l) i ≡ some t
    → get_elem? l i ≡ some t
last-tasks k l n i t len there e =
    let short : i < length (forget k l) = get_elem?-lt (forget k l) i t e in
    ground (arith, get_elem?-forget k l n i there, length-forget k l n there)

-- `removeTail` on the list with one task too many.
remove_tail-Holds :
    (s : Cache) (l : List CachedTask)
    → HoldsUpTo (suc max_cached) s l
    → length l ≡ suc max_cached
    → (s' : Cache) × (remove_tail s ≡ some s')
      × Holds (record s' { total_cached = s'.total_cached - 1 }) (take max_cached l)
remove_tail-Holds s l v len =
    let (t, last) = get_elem?-below l max_cached (omega arith) in
    let (there, rest) = forget-last l max_cached t v.distinct len last in
    let sequence = subst (λ m. IsSequence s m v.at v.content) len v.sequence in
    let (h, out, links) = remove_tail-IsSequence s max_cached v.at v.content sequence (v.alive _) in
    let same : v.content (suc max_cached) ≡ t = v.tasks max_cached t last in
    let short : length (forget (key_of t) l) ≡ max_cached =
      omega (arith, length-forget (key_of t) l max_cached there) in
    let s' =
      drop_index (key_of t)
        (relinked (override (v.at (suc max_cached)) none h) (some (v.at max_cached)) s) in
    let smaller = record s' { total_cached = s'.total_cached - 1 } in
    (
      s',
      ground (arith, out, same),
      subst (λ xs. Holds smaller xs) rest
          (record {
            at = v.at;
            content = v.content;
            sequence =
                subst (λ m. IsSequence smaller m v.at v.content) (sym short)
                  (record {
                    links = links;
                    apart = λ i j hi hj e. sequence.apart i j (omega arith) (omega arith) e;
                    head = sequence.head;
                    tail = refl;
                  });
            below = λ i hi. v.below i (omega arith);
            tasks = λ i u e. v.tasks i u (last-tasks (key_of t) l max_cached i u len there e);
            count = omega (arith, v.count);
            bounded = omega arith;
            indexed = λ k'. last-indexed (key_of t) k' (suc max_cached) max_cached s l v len there;
            distinct = forget-IsDistinct (key_of t) l v.distinct;
            alive = v.alive;
          }),
    )

evict-many :
    (s s' : Cache)
    → max_cached < s.total_cached
    → remove_tail s ≡ some s'
    → evict s ≡ some (record s' { total_cached = s'.total_cached - 1 })
unfolding evict
evict-many s s' h e = ground arith

evict-few : (s : Cache) → s.total_cached ≤ max_cached → evict s ≡ some s
unfolding evict
evict-few s h = ground arith

add_to_cache-evict :
    (t : CachedTask) (s s₁ s' : Cache)
    → add_to_head s.next_node (allocate t s) ≡ some s₁
    → evict (record s₁ { total_cached = s₁.total_cached + 1 }) ≡ some s'
    → add_to_cache t s ≡ some s'
unfolding add_to_cache
add_to_cache-evict t s s₁ s' e e₁ = ground arith

evict-Holds :
    (s : Cache) (l : List CachedTask)
    → HoldsUpTo (suc max_cached) s l
    → (s' : Cache) × (evict s ≡ some s') × Holds s' (take max_cached l)
evict-Holds s l v = elim (dec_lt max_cached (length l)) [
  | yes many ↦
      let (s', out, holds) = remove_tail-Holds s l v (omega (arith, v.bounded)) in
      (
        record s' { total_cached = s'.total_cached - 1 },
        evict-many s s' (omega (arith, v.count)) out,
        holds,
      )
  | no few ↦ (
    s,
    evict-few s (omega (arith, v.count)),
    subst (λ xs. Holds s xs) (sym (take_all max_cached l (omega arith)))
        (record {
          at = v.at;
          content = v.content;
          sequence = v.sequence;
          below = v.below;
          tasks = v.tasks;
          count = v.count;
          bounded = omega arith;
          indexed = v.indexed;
          distinct = v.distinct;
          alive = v.alive;
        }),
  )
]

-- The keys with a new one.
new-indexed :
    (k' : Bytes) (t : CachedTask) (s : Cache) (l : List CachedTask) (v : Holds s l)
    → lookup k' (assign (key_of t) s.next_node s.index)
      ≡ address (push s.next_node v.at) (position k' (t ∷ l))
new-indexed k' t s l v = elim (Option-cases (position k' l)) [
  | inl absent ↦
      ground
        (arith, lookup-assign (key_of t) k' s.next_node s.index, v.indexed k', position-cons k' t l)
  | inr (i, there) ↦
      ground
        (arith, lookup-assign (key_of t) k' s.next_node s.index, v.indexed k', position-cons k' t l)
]

-- `addToCache` of a task whose key is not there: it is the first, and beyond 128 tasks the last goes.
pub add_to_cache-Holds :
    (t : CachedTask) (s : Cache) (l : List CachedTask)
    → Holds s l
    → position (key_of t) l ≡ none
    → (s' : Cache) × (add_to_cache t s ≡ some s') × Holds s' (added t l)
unfolding added
add_to_cache-Holds t s l v absent =
    let new : (i : ℕ) → i ≤ length l → v.at i ≢ s.next_node =
      λ i h e. absurd (omega (arith, v.below i h)) in
    let start : IsSequence (allocate t s) (length l) v.at v.content = record {
      links =
          override-IsLinked s.nodes s.next_node (length l) (some (new_node t)) v.at v.content
            v.sequence.links new;
      apart = v.sequence.apart;
      head = v.sequence.head;
      tail = v.sequence.tail;
    } in
    let (h, p, out, fronted) =
      add_to_head-IsSequence (allocate t s) s.next_node (length l) t v.at v.content start new
        (ground arith) in
    let more = record (relinked h p (allocate t s)) { total_cached = s.total_cached + 1 } in
    let held : HoldsUpTo (suc max_cached) more (t ∷ l) = record {
      at = push s.next_node v.at;
      content = push t v.content;
      sequence = record {
        links = fronted.links;
        apart = fronted.apart;
        head = fronted.head;
        tail = fronted.tail;
      };
      below =
          push-below (length l) s.next_node (s.next_node + 1) v.at
            (λ i hi. omega (arith, v.below i hi)) (omega arith);
      tasks = push-tasks t l v.content v.tasks;
      count = omega (arith, v.count);
      bounded = omega (arith, v.bounded);
      indexed = λ k'. new-indexed k' t s l v;
      distinct = cons-IsDistinct t l absent v.distinct;
      alive = v.alive;
    } in
    let (s', done, holds) = evict-Holds more (t ∷ l) held in
    (s', add_to_cache-evict t s (relinked h p (allocate t s)) s' out done, holds)
