-- ===== src/Store/Append.antt =====
-- `check` and the append to the last file: what they leave alone, and that they succeed.
use mathlib.Core.Option.{some-injective}
use mathlib.Core.Path.{subst}
use simple_kv_svr.Base.{
  ◌≤◌, Option-cases, ℕ, ◌+◌, ◌<◌, ◌≡◌, ◌≢◌, refl, sym, ◌∙◌, Bool, true, none, some, [], ◌∷◌, length,
  set as set_elem, take, get_elem?-lt, get_elem?-set_self, get_elem?-append_length, length-append,
  ltb, arith, ◌⊎◌, inl, inr, Bool-cases, length-take_of_le,
}
use simple_kv_svr.DataNode.{
  Record, DataNode, AppendIo, no_fault, header_size, append_record, off_limit,
}
use simple_kv_svr.DataNode.Log.{
  IsRecord, IsSynced, append_record-Extends, append_record-IsSynced, append_record-no_fault,
  get_record-append_record_self,
}
use simple_kv_svr.Index.{RecordOffset}
use simple_kv_svr.Store.{
  SimpleKvStore, deref, file_num, last_file, max_file, add_file, check, append_last,
}
use simple_kv_svr.Store.Holds.{
  Holds, Grows, Grows-refl, Grows-trans, Grows-append, Grows-set, deref-of_cell, cell-of_deref,
}

-- There is a last file, it is open, and its count is in step with it.
pub record HasLast (s : SimpleKvStore) : Type 0 where
  pub address : ℕ
  pub node : DataNode
  pub last : last_file s ≡ some address
  pub there : deref s address ≡ some node
  pub synced : IsSynced node

-- The last file, where there is one, is open, and its count is in step with it.
abbrev pub IsReady : SimpleKvStore → Type 0
IsReady s = (last_file s ≡ none) ⊎ HasLast s

pub add_file-Grows : (s : SimpleKvStore) → Grows s (add_file s)
unfolding add_file
add_file-Grows s = Grows-append s (add_file s) _ refl

pub add_file-HasLast : (s : SimpleKvStore) → HasLast (add_file s)
unfolding add_file
add_file-HasLast s = record {
  address = length s.nodes;
  node = _;
  last =
      get_elem?-append_length s.file_list (length s.nodes) _
        (omega (arith, length-append s.file_list (length s.nodes ∷ [])));
  there =
      deref-of_cell (add_file s) (length s.nodes) _
        (get_elem?-append_length s.nodes _ (length s.nodes) refl);
  synced = refl;
}

index-add_file : (s : SimpleKvStore) → (add_file s).index ≡ s.index
unfolding add_file
index-add_file s = refl

-- What `check` does: nothing, or it opens a new file.
pub check_cases :
    (s s' : SimpleKvStore)
    → IsReady s
    → check s ≡ some s'
    → ((s' ≡ s) × HasLast s) ⊎ (s' ≡ add_file s)
unfolding check
check_cases s s' (inl no_file) h = inr (ground arith)
check_cases s s' (inr l) h = elim (Bool-cases (ltb off_limit l.node.total_offset)) [
  | inl over ↦ inr (ground (arith, l.last, l.there))
  | inr under ↦ inl (ground (arith, l.last, l.there), l)
]

-- With a place left in `fileList` it does not fail.
pub check_total : (s : SimpleKvStore) → IsReady s → file_num s < max_file → check s ≢ none
unfolding check
check_total s (inl no_file) room e = ground arith
check_total s (inr l) room e = ground (arith, l.last, l.there)

-- After `check` there is a last file, in step; no object went, and the index is as it was.
pub check_lem :
    (s s' : SimpleKvStore)
    → IsReady s
    → check s ≡ some s'
    → HasLast s' × Grows s s' × (s'.index ≡ s.index)
check_lem s s' ready h = elim (check_cases s s' ready h) [
  | inl (same, l) ↦ rw same (l, Grows-refl s, refl)
  | inr added ↦ rw added (add_file-HasLast s, add_file-Grows s, index-add_file s)
]

-- The store with the record appended.
abbrev pub appended : Record → (s : SimpleKvStore) → HasLast s → SimpleKvStore
appended r s l = record s {
  nodes = set_elem s.nodes l.address (some (append_record no_fault r l.node).0);
}

abbrev pub end_of : (s : SimpleKvStore) → HasLast s → RecordOffset
end_of s l = record { data_node = l.address; offset = l.node.total_offset }

pub append_last-no_fault :
    (r : Record) (s : SimpleKvStore) (l : HasLast s)
    → IsRecord r
    → append_last no_fault r s ≡ some (end_of s l, appended r s l, true)
unfolding append_last
append_last-no_fault r s l v = ground (arith, l.last, l.there, append_record-no_fault r l.node v)

pub appended-there :
    (r : Record) (s : SimpleKvStore) (l : HasLast s)
    → deref (appended r s l) l.address ≡ some (append_record no_fault r l.node).0
appended-there r s l = deref-of_cell (appended r s l) l.address _ (
    get_elem?-set_self s.nodes l.address _
      (get_elem?-lt s.nodes l.address _ (cell-of_deref s l.address l.node l.there)))

appended-HasLast :
    (r : Record) (s : SimpleKvStore) (l : HasLast s) → IsRecord r → HasLast (appended r s l)
appended-HasLast r s l v = record {
  address = l.address;
  node = (append_record no_fault r l.node).0;
  last = l.last;
  there = appended-there r s l;
  synced = append_record-IsSynced r l.node v l.synced;
}

appended-Holds :
    (r : Record) (s : SimpleKvStore) (l : HasLast s)
    → IsRecord r
    → Holds (appended r s l) (end_of s l) (take r.key_len r.key) (take r.value_len r.value)
appended-Holds r s l v =
    let ek : length (take r.key_len r.key) ≡ r.key_len =
      length-take_of_le r.key_len r.key v.key_there in
    let ev : length (take r.value_len r.value) ≡ r.value_len =
      length-take_of_le r.value_len r.value v.value_there in
    record {
      node = (append_record no_fault r l.node).0;
      there = appended-there r s l;
      count = header_size + r.key_len + r.value_len;
      crc = r.crc;
      read =
          rw (ek, ev)
            (get_record-append_record_self r r.key_len r.value_len l.node v l.synced (omega arith)
              (omega arith));
    }

-- The append to the last file with no fault: the record is there afterwards, at the place returned.
abbrev pub IsAppended : Record → SimpleKvStore → RecordOffset × SimpleKvStore × Bool → Type 0
IsAppended r s out =
    (out.2 ≡ true)
    × HasLast out.1
    × Grows s out.1
    × (out.1.index ≡ s.index)
    × Holds out.1 out.0 (take r.key_len r.key) (take r.value_len r.value)

pub append_last_lem :
    (r : Record) (s : SimpleKvStore) (out : RecordOffset × SimpleKvStore × Bool)
    → HasLast s
    → IsRecord r
    → append_last no_fault r s ≡ some out
    → IsAppended r s out
append_last_lem r s out l v h =
    subst (IsAppended r s) (some-injective _ _ (sym (append_last-no_fault r s l v) ∙ h)) (
      refl,
      appended-HasLast r s l v,
      Grows-set s (appended r s l) l.address l.node _ l.there
          (append_record-Extends no_fault r l.node) refl,
      refl,
      appended-Holds r s l v,
    )

pub append_last_total :
    (io : AppendIo) (r : Record) (s : SimpleKvStore) → HasLast s → append_last io r s ≢ none
unfolding append_last
append_last_total io r s l e = ground (arith, l.last, l.there)

-- What `check` and the append of a record do together, with no fault and a place for one more file.
pub record Writes (r : Record) (s : SimpleKvStore) : Type 0 where
  pub checked_store : SimpleKvStore
  pub out : RecordOffset × SimpleKvStore × Bool
  pub checked : check s ≡ some checked_store
  pub appends : append_last no_fault r checked_store ≡ some out
  pub wrote : out.2 ≡ true
  pub last : HasLast out.1
  pub grows : Grows s out.1
  pub same_index : out.1.index ≡ s.index
  pub one_file : file_num out.1 ≤ file_num s + 1
  pub holds : Holds out.1 out.0 (take r.key_len r.key) (take r.value_len r.value)

file_num-add_file : (s : SimpleKvStore) → file_num (add_file s) ≡ file_num s + 1
unfolding add_file
file_num-add_file s = omega (arith, length-append s.file_list (length s.nodes ∷ []))

file_num-check : (s s' : SimpleKvStore) → check s ≡ some s' → file_num s' ≤ file_num s + 1
unfolding check
file_num-check s s' h = ground (arith, file_num-add_file s)

file_num-append_last :
    (io : AppendIo) (r : Record) (s : SimpleKvStore) (out : RecordOffset × SimpleKvStore × Bool)
    → append_last io r s ≡ some out
    → file_num out.1 ≡ file_num s
unfolding append_last
file_num-append_last io r s out h = ground arith

write_checked :
    (r : Record) (s s₁ : SimpleKvStore)
    → IsRecord r
    → check s ≡ some s₁
    → HasLast s₁ × Grows s s₁ × (s₁.index ≡ s.index)
    → Writes r s
write_checked r s s₁ v checked (l, g, same) = elim (Option-cases (append_last no_fault r s₁)) [
  | inl stuck ↦ absurd (append_last_total no_fault r s₁ l stuck)
  | inr (out, appends) ↦
      let (wrote, last, grown, kept, holds) = append_last_lem r s₁ out l v appends in
      record {
        checked_store = s₁;
        out = out;
        checked = checked;
        appends = appends;
        wrote = wrote;
        last = last;
        grows = Grows-trans g grown;
        same_index = kept ∙ same;
        one_file =
            omega
              (arith, file_num-append_last no_fault r s₁ out appends, file_num-check s s₁ checked);
        holds = holds;
      }
]

pub write_lem :
    (r : Record) (s : SimpleKvStore) → IsRecord r → IsReady s → file_num s < max_file → Writes r s
write_lem r s v ready room = elim (Option-cases (check s)) [
  | inl stuck ↦ absurd (check_total s ready room stuck)
  | inr (s₁, checked) ↦ write_checked r s s₁ v checked (check_lem s s₁ ready checked)
]
