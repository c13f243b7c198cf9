-- ===== src/Store/Alone.antt =====
-- How far a log grows, and that no thread of `rebuildFile` is started while the last file stays within OFFLIMIT.
use simple_kv_svr.Base.{
  ℕ, ◌+◌, ◌-◌, ◌≤◌, ◌≡◌, refl, sym, ap, ◌∙◌, none, some, List, [], ◌∷◌, length, get_elem?,
  get_elem?-append_length, length-append, false, ltb, arith, inl, inr, Option-cases,
}
use simple_kv_svr.DataNode.{
  Record, DataNode, no_fault, all_read, header_size, append_record, off_limit,
}
use simple_kv_svr.DataNode.Log.{IsRecord}
use simple_kv_svr.Index
use simple_kv_svr.Index.{RecordOffset}
use simple_kv_svr.Store.{
  SimpleKvStore, Task, Command, deref, file_num, last_file, add_file, check, set_record, del_record,
  set_val, del_val, get_val, dispatch,
}
use simple_kv_svr.Store.Holds.{deref-of_cell}
use simple_kv_svr.Store.Append.{
  HasLast, IsReady, check_lem, append_last-no_fault, appended, appended-there, end_of,
}

-- `totalOffset` of the last file, 0 where there is none.
unfoldable pub log_size : SimpleKvStore → ℕ
log_size s = elim (last_file s) [
  | none ↦ 0
  | some p ↦ elim (deref s p) [ none ↦ 0 | some d ↦ d.total_offset ]
]

-- The bytes that a task appends.
abbrev pub written_of : Command → Task → ℕ
written_of Command.set task = header_size + task.key_len + task.value_len
written_of Command.del task = header_size + task.key_len
written_of _ task = 0

no_last : (files : List ℕ) → get_elem? files (length files - 1) ≡ none → length files ≡ 0
no_last [] h = refl
no_last (p ∷ []) h = absurd (cc)
no_last (p ∷ q ∷ files) h = absurd (omega (arith, no_last (q ∷ files) (ground arith)))

log_size-at :
    (s : SimpleKvStore) (p : ℕ) (d : DataNode)
    → last_file s ≡ some p
    → deref s p ≡ some d
    → log_size s ≡ d.total_offset
unfolding log_size
log_size-at s p d last there = ground arith

log_size-none : (s : SimpleKvStore) → last_file s ≡ none → log_size s ≡ 0
unfolding log_size
log_size-none s h = ground arith

log_size-add_file : (s : SimpleKvStore) → log_size (add_file s) ≡ 0
unfolding add_file
log_size-add_file s =
    log_size-at (add_file s) (length s.nodes) _
      (get_elem?-append_length s.file_list (length s.nodes) _
        (omega (arith, length-append s.file_list (length s.nodes ∷ []))))
      (deref-of_cell (add_file s) (length s.nodes) _
        (get_elem?-append_length s.nodes _ (length s.nodes) refl))

rebuilds-add_file : (s : SimpleKvStore) → file_num s ≡ 0 → (add_file s).rebuilds ≡ s.rebuilds
unfolding add_file
rebuilds-add_file s h = ground arith

check-alone :
    (s s₁ : SimpleKvStore)
    → IsReady s
    → log_size s ≤ off_limit
    → check s ≡ some s₁
    → (s₁.rebuilds ≡ s.rebuilds) × (log_size s₁ ≡ log_size s)
unfolding check
check-alone s s₁ (inl no_file) small h =
    let first : s₁ ≡ add_file s = ground arith in
    (
      ap (λ x. x.rebuilds) first ∙ rebuilds-add_file s (no_last s.file_list no_file),
      ap log_size first ∙ log_size-add_file s ∙ sym (log_size-none s no_file),
    )
check-alone s s₁ (inr l) small h =
    let size = log_size-at s l.address l.node l.last l.there in
    let under : ltb off_limit l.node.total_offset ≡ false = ground arith in
    let same : s₁ ≡ s = ground (arith, l.last, l.there) in
    (ap (λ x. x.rebuilds) same, ap log_size same)

append_record-total :
    (r : Record) (d : DataNode)
    → (append_record no_fault r d).0.total_offset
      ≤ d.total_offset + (header_size + r.key_len + r.value_len)
unfolding append_record
append_record-total r d = ground arith

appended-log_size :
    (r : Record) (s : SimpleKvStore) (l : HasLast s)
    → log_size (appended r s l) ≤ log_size s + (header_size + r.key_len + r.value_len)
appended-log_size r s l = omega (
  arith,
  log_size-at s l.address l.node l.last l.there,
  log_size-at (appended r s l) l.address (append_record no_fault r l.node).0 l.last
      (appended-there r s l),
  append_record-total r l.node,
)

-- What a task that appends a record leaves: the log with the record, with some index.
record Adds (r : Record) (s s' : SimpleKvStore) : Type 0 where
  alone : s'.rebuilds ≡ s.rebuilds
  size : log_size s' ≤ log_size s + (header_size + r.key_len + r.value_len)

log_size-index :
    (s : SimpleKvStore) (i : Index.SimpleKvIndex) → log_size (record s { index = i }) ≡ log_size s
unfolding log_size
log_size-index s i = refl

written-Adds :
    (r : Record) (s s₁ s' : SimpleKvStore) (l : HasLast s₁) (i : Index.SimpleKvIndex)
    → s' ≡ record (appended r s₁ l) { index = i }
    → s₁.rebuilds ≡ s.rebuilds
    → log_size s₁ ≡ log_size s
    → Adds r s s'
written-Adds r s s₁ s' l i e alone size = record {
  alone = ap (λ x. x.rebuilds) e ∙ alone;
  size =
      omega
        (arith, ap log_size e, log_size-index (appended r s₁ l) i, appended-log_size r s₁ l, size);
}

set_val-Adds :
    (task : Task) (s : SimpleKvStore) (out : Task × SimpleKvStore)
    → IsRecord (set_record task)
    → IsReady s
    → log_size s ≤ off_limit
    → set_val no_fault task s ≡ some out
    → Adds (set_record task) s out.1
unfolding set_val
set_val-Adds task s out v ready small h = elim (Option-cases (check s)) [
  | inl stuck ↦ absurd (ground arith)
  | inr (s₁, checked) ↦
      let (l, grows, index) = check_lem s s₁ ready checked in
      let (alone, size) = check-alone s s₁ ready small checked in
      let i =
        (Index.save_val task.key task.key_len (end_of s₁ l)
          (appended (set_record task) s₁ l).index).0 in
      written-Adds (set_record task) s s₁ out.1 l i
        (ground (arith, checked, append_last-no_fault (set_record task) s₁ l v)) alone size
]

del_val-Adds :
    (task : Task) (s : SimpleKvStore) (out : Task × SimpleKvStore)
    → IsRecord (del_record task)
    → IsReady s
    → log_size s ≤ off_limit
    → del_val no_fault task s ≡ some out
    → Adds (del_record task) s out.1
unfolding del_val
del_val-Adds task s out v ready small h = elim (Option-cases (check s)) [
  | inl stuck ↦ absurd (ground arith)
  | inr (s₁, checked) ↦
      let (l, grows, index) = check_lem s s₁ ready checked in
      let (alone, size) = check-alone s s₁ ready small checked in
      let i = (Index.del_key task.key task.key_len (appended (del_record task) s₁ l).index).0 in
      written-Adds (del_record task) s s₁ out.1 l i
        (ground (arith, checked, append_last-no_fault (del_record task) s₁ l v)) alone size
]

get_val-store :
    (uninit : ℕ) (task : Task) (s : SimpleKvStore) (out : Task × SimpleKvStore)
    → get_val all_read uninit task s ≡ some out
    → out.1 ≡ record s { miss = s.miss + 1 }
unfolding get_val
get_val-store uninit task s out h = ground arith

log_size-miss : (s : SimpleKvStore) (n : ℕ) → log_size (record s { miss = n }) ≡ log_size s
unfolding log_size
log_size-miss s n = refl

-- The records of a task are those of `int` lengths that fit its buffers.
abbrev pub IsWritable : Command → Task → Type 0
IsWritable Command.set task = IsRecord (set_record task)
IsWritable Command.del task = IsRecord (del_record task)
IsWritable _ task = Unit {0}

-- A task with no fault, where the last file has not grown past OFFLIMIT: no thread is started, and the log has
-- grown by its record.
pub dispatch-alone :
    (cmd : Command) (task : Task) (s : SimpleKvStore) (out : Task × SimpleKvStore)
    → IsWritable cmd task
    → IsReady s
    → log_size s ≤ off_limit
    → dispatch cmd (record { append = no_fault; read = all_read; uninit = 0 }) task s ≡ some out
    → (out.1.rebuilds ≡ s.rebuilds) × (log_size out.1 ≤ log_size s + written_of cmd task)
unfolding dispatch
dispatch-alone Command.get task s out v ready small h =
    let same = get_val-store 0 task s out h in
    (ap (λ x. x.rebuilds) same, omega (arith, ap log_size same, log_size-miss s (s.miss + 1)))
dispatch-alone Command.set task s out v ready small h =
    let a = set_val-Adds task s out v ready small h in (a.alone, a.size)
dispatch-alone Command.del task s out v ready small h =
    let a = del_val-Adds task s out v ready small h in (a.alone, omega (arith, a.size))
dispatch-alone _ task s out v ready small h =
    let same : out.1 ≡ s = cc in (ap (λ x. x.rebuilds) same, omega (arith, ap log_size same))
