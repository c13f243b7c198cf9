-- ===== src/LruCache/Holds.antt =====
-- The methods of the cache, on a cache that holds a list of tasks.
use mathlib.Core.Path.{subst}
use simple_kv_svr.Base.{
  false, ℕ, zero, suc, ◌+◌, ◌-◌, ◌≤◌, ◌<◌, Option, none, some, List, ◌∷◌, length, get_elem?, Bytes,
  lookup, erase, lookup-erase, key_eq, key_eq_iff, ◌≡◌, ◌≢◌, refl, sym, arith, inl, inr, Bool-cases,
  Option-cases,
}
use simple_kv_svr.LruCache.{
  CachedTask, Heap, Cache, free, drop_index, key_of, max_cached, get_cache, delete_cache,
}
use simple_kv_svr.LruCache.Recent.{
  find_task, forget, position, used, shifted, IsDistinct, position-lt, position-none, position-some,
  length-forget, get_elem?-forget, position-forget_ne, position-forget_self, forget-IsDistinct,
  one_position, used-none, used-some, cons-IsDistinct, position-cons,
}
use simple_kv_svr.LruCache.Links.{skip, push, skip-lt, skip-le}
use simple_kv_svr.LruCache.Sequence.{
  IsSequence, relinked, skip-new, take_out-IsSequence, add_to_head-IsSequence, override-IsLinked,
}

-- The node at a place of the list.
abbrev pub address : (ℕ → ℕ) → Option ℕ → Option ℕ
address at none = none
address at (some i) = some (at (suc i))

-- The cache holds the list, of at most `m` tasks, and the tasks that were copied are there.
pub record HoldsUpTo (m : ℕ) (s : Cache) (l : List CachedTask) : Type 0 where
  pub at : ℕ → ℕ
  pub content : ℕ → CachedTask
  pub sequence : IsSequence s (length l) at content
  pub below : (i : ℕ) → i ≤ length l → at i < s.next_node
  pub tasks : (i : ℕ) (t : CachedTask) → get_elem? l i ≡ some t → content (suc i) ≡ t
  pub count : s.total_cached ≡ length l
  pub bounded : length l ≤ m
  pub indexed : (k : Bytes) → lookup k s.index ≡ address at (position k l)
  pub distinct : IsDistinct l
  pub alive : (b : ℕ) → s.gone b ≡ false

abbrev pub Holds : Cache → List CachedTask → Type 0
Holds s l = HoldsUpTo max_cached s l

skip-below :
    (n k b : ℕ) (at : ℕ → ℕ)
    → ((i : ℕ) → i ≤ suc n → at i < b)
    → (i : ℕ) → i ≤ n
    → skip (suc k) at i < b
skip-below n k b at below i h = ground (arith, below i, below (i + 1))

pub push-below :
    (n a b : ℕ) (at : ℕ → ℕ)
    → ((i : ℕ) → i ≤ n → at i < b)
    → a < b
    → (i : ℕ) → i ≤ suc n
    → push a at i < b
push-below n a b at below h i hi = ground (arith, below 0, below (i - 1))

-- What stands at the places after one was taken out.
skip-tasks :
    (k : Bytes) (l : List CachedTask) (j : ℕ) (content : ℕ → CachedTask)
    → position k l ≡ some j
    → ((i : ℕ) (t : CachedTask) → get_elem? l i ≡ some t → content (suc i) ≡ t)
    → (i : ℕ) (t : CachedTask) → get_elem? (forget k l) i ≡ some t
    → skip (suc j) content (suc i) ≡ t
skip-tasks k l j content there tasks i t e =
    ground (arith, get_elem?-forget k l j i there, tasks i t, tasks (suc i) t)

address-shifted :
    (at : ℕ → ℕ) (j : ℕ) (p : Option ℕ)
    → p ≢ some j
    → address (skip (suc j) at) (shifted j p) ≡ address at p
address-shifted at j none d = refl
address-shifted at j (some i) d = ground (arith, skip-lt (suc j) (suc i) at, skip-le (suc j) i at)

pub push-tasks :
    (t : CachedTask) (l : List CachedTask) (content : ℕ → CachedTask)
    → ((i : ℕ) (u : CachedTask) → get_elem? l i ≡ some u → content (suc i) ≡ u)
    → (i : ℕ) (u : CachedTask) → get_elem? (t ∷ l) i ≡ some u
    → push t content (suc i) ≡ u
push-tasks t l content tasks zero u e = cc
push-tasks t l content tasks (suc i) u e = ground (arith, tasks i u)

-- Where the keys are found after the node at place `j` went to the front.
to_front-indexed :
    (k k' : Bytes) (s : Cache) (l : List CachedTask) (j : ℕ) (t : CachedTask) (v : Holds s l)
    → position k l ≡ some j
    → key_of t ≡ k
    → lookup k' s.index
      ≡ address (push (v.at (suc j)) (skip (suc j) v.at)) (position k' (t ∷ forget k l))
to_front-indexed k k' s l j t v there key = elim (Bool-cases (key_eq (key_of t) k')) [
  | inl same ↦
      ground (arith, v.indexed k', position-cons k' t (forget k l), key_eq_iff (key_of t) k')
  | inr other ↦
      let differ : k ≢ k' = λ e. absurd (ground (arith, key_eq_iff (key_of t) k')) in
      let apart : position k' l ≢ some j = λ e. differ (one_position k k' l j there e) in
      ground (
        arith,
        v.indexed k',
        position-cons k' t (forget k l),
        position-forget_ne k k' l j there differ,
        address-shifted v.at j (position k' l) apart,
      )
]

to_front-Holds :
    (k : Bytes) (s : Cache) (l : List CachedTask) (j n : ℕ) (t : CachedTask) (v : Holds s l)
    → position k l ≡ some j
    → key_of t ≡ k
    → v.content (suc j) ≡ t
    → n ≡ length (forget k l)
    → length l ≡ suc n
    → (h : Heap) (p : Option ℕ)
    → IsSequence
        (relinked h p s)
        (suc n)
        (push (v.at (suc j)) (skip (suc j) v.at))
        (push (v.content (suc j)) (skip (suc j) v.content))
    → Holds (relinked h p s) (t ∷ forget k l)
to_front-Holds k s l j n t v there key same e len h p fronted = record {
  at = push (v.at (suc j)) (skip (suc j) v.at);
  content = push (v.content (suc j)) (skip (suc j) v.content);
  sequence =
      subst
        (λ m.
          IsSequence (relinked h p s) (suc m) (push (v.at (suc j)) (skip (suc j) v.at))
            (push (v.content (suc j)) (skip (suc j) v.content)))
        e fronted;
  below =
      push-below (length (forget k l)) (v.at (suc j)) s.next_node (skip (suc j) v.at)
        (skip-below (length (forget k l)) j s.next_node v.at (λ i hi. v.below i (omega arith)))
        (v.below (suc j) (omega (arith, position-lt k l j there)));
  tasks =
      subst
        (λ u.
          (i : ℕ) (w : CachedTask)
          → get_elem? (t ∷ forget k l) i ≡ some w
          → push u (skip (suc j) v.content) (suc i) ≡ w)
        (sym same)
        (push-tasks t (forget k l) (skip (suc j) v.content)
          (skip-tasks k l j v.content there v.tasks));
  count = omega (arith, v.count);
  bounded = omega (arith, v.bounded);
  indexed = λ k'. to_front-indexed k k' s l j t v there key;
  distinct =
      cons-IsDistinct t (forget k l) (rw key (position-forget_self k l v.distinct))
        (forget-IsDistinct k l v.distinct);
  alive = v.alive;
}

-- `getCache`: it finds the task of its key, which is then the first.
pub get_cache-Holds :
    (k : Bytes) (s : Cache) (l : List CachedTask)
    → Holds s l
    → (s' : Cache) × (get_cache k s ≡ some (find_task k l, s')) × Holds s' (used k l)
unfolding get_cache used
get_cache-Holds k s l v = elim (Option-cases (position k l)) [
  | inl absent ↦
      let (missing, same) = position-none k l absent in
      (s, ground (arith, v.indexed k), rw (used-none k l missing) v)
  | inr (j, there) ↦
      let (t, found, at_j, key) = position-some k l j there in
      let n = length (forget k l) in
      let len : length l ≡ suc n = omega (arith, length-forget k l j there) in
      let sequence = subst (λ m. IsSequence s m v.at v.content) len v.sequence in
      let low : j ≤ n = omega (arith, position-lt k l j there) in
      let (h, p, out, taken, alone) = take_out-IsSequence s n j v.at v.content sequence low in
      let a = v.at (suc j) in
      let (h', p', in_front, fronted) =
        add_to_head-IsSequence (relinked h p s) a n (v.content (suc j)) (skip (suc j) v.at)
          (skip (suc j) v.content) taken (skip-new n j v.at sequence.apart low) alone in
      let same : v.content (suc j) ≡ t = v.tasks j t at_j in
      (
        relinked h' p' s,
        ground (arith, v.indexed k, fronted.links 1),
        rw (used-some k l t found)
            (to_front-Holds k s l j n t v there key same refl len h' p' fronted),
      )
]

-- The index without a key, and the list without its task.
erased-indexed :
    (k k' : Bytes) (s : Cache) (l : List CachedTask) (j : ℕ) (v : Holds s l)
    → position k l ≡ some j
    → lookup k' (erase k s.index) ≡ address (skip (suc j) v.at) (position k' (forget k l))
erased-indexed k k' s l j v there = elim (Bool-cases (key_eq k k')) [
  | inl same ↦
      ground
        (arith, lookup-erase k k' s.index, position-forget_self k l v.distinct, key_eq_iff k k')
  | inr other ↦
      let differ : k ≢ k' = λ e. absurd (ground (arith, key_eq_iff k k')) in
      let apart : position k' l ≢ some j = λ e. differ (one_position k k' l j there e) in
      ground (
        arith,
        lookup-erase k k' s.index,
        v.indexed k',
        position-forget_ne k k' l j there differ,
        address-shifted v.at j (position k' l) apart,
      )
]

-- `deleteCache`
pub delete_cache-Holds :
    (k : Bytes) (s : Cache) (l : List CachedTask)
    → Holds s l
    → (s' : Cache) × (delete_cache k s ≡ some s') × Holds s' (forget k l)
unfolding delete_cache
delete_cache-Holds k s l v = elim (Option-cases (position k l)) [
  | inl absent ↦
      let (missing, same) = position-none k l absent in (s, ground (arith, v.indexed k), rw same v)
  | inr (j, there) ↦
      let n = length (forget k l) in
      let len : length l ≡ suc n = omega (arith, length-forget k l j there) in
      let sequence = subst (λ m. IsSequence s m v.at v.content) len v.sequence in
      let low : j ≤ n = omega (arith, position-lt k l j there) in
      let (h, p, out, taken, alone) = take_out-IsSequence s n j v.at v.content sequence low in
      let new = skip-new n j v.at sequence.apart low in
      (
        drop_index k
            (record (free (v.at (suc j)) (relinked h p s)) { total_cached = s.total_cached - 1 }),
        ground (arith, v.indexed k),
        record {
          at = skip (suc j) v.at;
          content = skip (suc j) v.content;
          sequence = record {
            links =
                override-IsLinked h (v.at (suc j)) n none (skip (suc j) v.at)
                  (skip (suc j) v.content) taken.links new;
            apart = taken.apart;
            head = taken.head;
            tail = taken.tail;
          };
          below = skip-below n j s.next_node v.at (λ i hi. v.below i (omega arith));
          tasks = skip-tasks k l j v.content there v.tasks;
          count = omega (arith, v.count);
          bounded = omega (arith, v.bounded);
          indexed = λ k'. erased-indexed k k' s l j v there;
          distinct = forget-IsDistinct k l v.distinct;
          alive = v.alive;
        },
      )
]
