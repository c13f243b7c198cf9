-- ===== src/ShmQueue/Alloc.antt =====
-- `CShareQueueAlloc`: a process maps the queue of another one, or makes a new one.
use simple_kv_svr.Base.{
  ℕ, ◌+◌, ◌*◌, ◌%◌, ◌<◌, Bool, true, false, not, ◌||◌, Option, none, some, ◌≡◌, arith,
  if◌then◌else◌, ◌==◌, int_mod, inl, inr, ◌⊎◌,
}
use simple_kv_svr.ShmQueue.{ShareQueue, create}

-- What the system calls do: the size of the segment that `shmget` finds under the key, whether it can
-- make one, and whether `shmctl` and `shmat` succeed.
pub record ShmIo : Type 0 where
  pub existing : Option ℕ
  pub creates : Bool
  pub stats : Bool
  pub attaches : Bool

-- The value returned is 0 with a queue, or minus the number here; or it is 0 with a segment that has not the
-- room of the queue's nodes, whose use is undefined.
pub data Alloc : Type 0 where
  failed : ℕ → Alloc
  mapped : ShareQueue → Alloc
  too_small : Alloc

-- `size`; `base` is the compiler's sizeof(CShareQueue), and sizeof(CShareQueueNode) is 520.
abbrev pub segment_size : ℕ → ℕ → ℕ
segment_size base queue_len = (queue_len * 520 + base) % int_mod

-- Whether `size` is the number of bytes that the queue takes: it is an `unsigned int`.
abbrev pub has_room : ℕ → ℕ → Bool
has_room base queue_len = segment_size base queue_len == queue_len * 520 + base

-- From `shmat` on; `memory` is the queue that lies in an existing segment.
abbrev pub attach : ShmIo → ℕ → ℕ → Bool → ShareQueue → Alloc
attach io base queue_len is_exist memory =
    if not io.attaches
    then Alloc.failed 5
    else if not (has_room base queue_len)
    then Alloc.too_small
    else if not is_exist
    then Alloc.mapped (create queue_len)
    else Alloc.mapped memory

unfoldable pub alloc : ShmIo → ℕ → ℕ → Bool → ShareQueue → Alloc
alloc io base queue_len is_exist memory = elim io.existing [
  | none ↦
      if is_exist || not io.creates
      then Alloc.failed 1
      else attach io base queue_len is_exist memory
  | some found ↦
      if is_exist
      then if not io.stats
        then Alloc.failed 2
        else if not (found == segment_size base queue_len)
        then Alloc.failed 3
        else attach io base queue_len is_exist memory
      else Alloc.failed 4
]

-- `CShareQueueAlloc` gives a queue in two ways only, and its segment has the bytes that the queue takes: a queue that is to exist has a segment of just its size, and
-- stays as it is; a queue that is not to exist has none, and is made new.
pub alloc-mapped :
    (io : ShmIo) (base queue_len : ℕ) (is_exist : Bool) (memory q : ShareQueue)
    → alloc io base queue_len is_exist memory ≡ Alloc.mapped q
    → (queue_len * 520 + base < int_mod)
      × (((is_exist ≡ true) × (io.existing ≡ some (segment_size base queue_len)) × (q ≡ memory))
          ⊎ ((is_exist ≡ false) × (io.existing ≡ none) × (q ≡ create queue_len)))
unfolding alloc
alloc-mapped io base queue_len true memory q h = (ground arith, inl (ground arith))
alloc-mapped io base queue_len false memory q h = (ground arith, inr (ground arith))
