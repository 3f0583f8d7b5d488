-- ===== src/DebugData.antt =====
-- `DebugData` (libs/v6core/src/debug_data.cpp, libs/v6core/include/core/debug_data.h): labels,
-- constants, comments, memory edits, code performance records and the counts of accesses. A count of
-- updates is an `int` that stays below 2 ^ 31. The lists for a filter are left out.
pub mod Names
pub mod Perf
pub mod Laws
use v6emul.Base.{
  ℕ, ◌+◌, ◌-◌, ◌^◌, Bool, true, Option, none, some, List, [], ◌∷◌, length, leb, ◌==◌, if◌then◌else◌,
  u64, update,
}
use v6emul.Base.Dict.{Dict, lookup, insert, remove}
use v6emul.DebugData.Names.{NameMap, set_names, add_name, del_name, del_names, rename_name}
use v6emul.DebugData.Perf.{CodePerf, Means, cancel_sample, edit, check_perf, max_records}
use Prim.Native.String.{String}

-- `MemoryEdit`
pub record MemoryEdit : Type 0 where
  pub comment : String
  pub global_addr : ℕ
  pub entered_value : ℕ
  pub original_value : ℕ
  pub readonly : Bool
  pub active : Bool

pub record DebugData {ℓ} (D : Type ℓ) : Type ℓ where
  pub labels : NameMap
  pub consts : NameMap
  pub comments : Dict String
  pub memory_edits : Dict MemoryEdit
  pub code_perfs : Dict (CodePerf D)
  pub labels_updates : ℕ
  pub consts_updates : ℕ
  pub comments_updates : ℕ
  pub edits_updates : ℕ
  pub code_perfs_updates : ℕ
  pub next_code_perf_id : ℕ
  pub code_perf_ids_exhausted : Bool
  pub mem_runs : ℕ → ℕ
  pub mem_reads : ℕ → ℕ
  pub mem_writes : ℕ → ℕ

-- the largest `Id`
abbrev pub id_max : ℕ
id_max = 2 ^ 31 - 1

module _ {ℓ} {D : Type ℓ} where
  -- `Reset`
  unfoldable pub reset_counts : DebugData D → DebugData D
  reset_counts d = record d { mem_runs = λ a. 0; mem_reads = λ a. 0; mem_writes = λ a. 0 }

  -- `MemRunsUpdate`, `MemReadsUpdate`, `MemWritesUpdate`
  unfoldable pub mem_runs_update : ℕ → DebugData D → DebugData D
  mem_runs_update addr d = record d {
    mem_runs = update d.mem_runs addr (u64 (d.mem_runs addr + 1));
  }

  unfoldable pub mem_reads_update : ℕ → DebugData D → DebugData D
  mem_reads_update addr d = record d {
    mem_reads = update d.mem_reads addr (u64 (d.mem_reads addr + 1));
  }

  unfoldable pub mem_writes_update : ℕ → DebugData D → DebugData D
  mem_writes_update addr d = record d {
    mem_writes = update d.mem_writes addr (u64 (d.mem_writes addr + 1));
  }

  -- the labels with a change that is counted, if there is one
  unfoldable pub with_labels : Option NameMap → DebugData D → DebugData D
  with_labels none d = d
  with_labels (some labels) d = record d { labels = labels; labels_updates = d.labels_updates + 1 }

  unfoldable pub set_labels : ℕ → List String → DebugData D → DebugData D
  set_labels addr ns d = with_labels (some (set_names addr ns d.labels)) d

  unfoldable pub add_label : ℕ → String → DebugData D → DebugData D
  add_label addr name d = with_labels (some (add_name addr name d.labels)) d

  unfoldable pub del_label : ℕ → String → DebugData D → DebugData D
  del_label addr name d = with_labels (del_name addr name d.labels) d

  unfoldable pub del_labels : ℕ → DebugData D → DebugData D
  del_labels addr d = with_labels (del_names addr d.labels) d

  unfoldable pub del_all_labels : DebugData D → DebugData D
  del_all_labels d = with_labels (some []) d

  unfoldable pub rename_label : ℕ → String → String → DebugData D → DebugData D
  rename_label addr old new d = with_labels (rename_name addr old new d.labels) d

  unfoldable pub with_consts : Option NameMap → DebugData D → DebugData D
  with_consts none d = d
  with_consts (some consts) d = record d { consts = consts; consts_updates = d.consts_updates + 1 }

  unfoldable pub set_consts : ℕ → List String → DebugData D → DebugData D
  set_consts addr ns d = with_consts (some (set_names addr ns d.consts)) d

  unfoldable pub add_const : ℕ → String → DebugData D → DebugData D
  add_const addr name d = with_consts (some (add_name addr name d.consts)) d

  unfoldable pub del_const : ℕ → String → DebugData D → DebugData D
  del_const addr name d = with_consts (del_name addr name d.consts) d

  unfoldable pub del_consts : ℕ → DebugData D → DebugData D
  del_consts addr d = with_consts (del_names addr d.consts) d

  unfoldable pub del_all_consts : DebugData D → DebugData D
  del_all_consts d = with_consts (some []) d

  unfoldable pub rename_const : ℕ → String → String → DebugData D → DebugData D
  rename_const addr old new d = with_consts (rename_name addr old new d.consts) d

  unfoldable pub set_comment : ℕ → String → DebugData D → DebugData D
  set_comment addr comment d = record d {
    comments = insert addr comment d.comments;
    comments_updates = d.comments_updates + 1;
  }

  unfoldable pub del_comment : ℕ → DebugData D → DebugData D
  del_comment addr d = elim (lookup addr d.comments) [
    | none ↦ d
    | some comment ↦ record d {
      comments = remove addr d.comments;
      comments_updates = d.comments_updates + 1;
    }
  ]

  unfoldable pub del_all_comments : DebugData D → DebugData D
  del_all_comments d = record d { comments = []; comments_updates = d.comments_updates + 1 }

  unfoldable pub set_memory_edit : MemoryEdit → DebugData D → DebugData D
  set_memory_edit e d = record d {
    memory_edits = insert e.global_addr e d.memory_edits;
    edits_updates = d.edits_updates + 1;
  }

  unfoldable pub del_memory_edit : ℕ → DebugData D → DebugData D
  del_memory_edit addr d = elim (lookup addr d.memory_edits) [
    | none ↦ d
    | some e ↦ record d {
      memory_edits = remove addr d.memory_edits;
      edits_updates = d.edits_updates + 1;
    }
  ]

  unfoldable pub del_all_memory_edits : DebugData D → DebugData D
  del_all_memory_edits d = record d { memory_edits = []; edits_updates = d.edits_updates + 1 }

-- `AddCodePerf`: what it throws, or the id
pub data CodePerfResult {ℓ} (A : Type ℓ) : Type ℓ where
  capacity id_exhausted : CodePerfResult A
  added : ℕ → A → CodePerfResult A

module _ {ℓ} {D : Type ℓ} (means : Means D) where
  unfoldable pub add_code_perf : CodePerf D → DebugData D → CodePerfResult (DebugData D)
  add_code_perf c d =
      let last = d.next_code_perf_id == id_max in
      if leb max_records (length d.code_perfs)
      then capacity
      else if d.code_perf_ids_exhausted
      then id_exhausted
      else added d.next_code_perf_id (record d {
        code_perf_ids_exhausted = if last then true else d.code_perf_ids_exhausted;
        next_code_perf_id = if last then d.next_code_perf_id else d.next_code_perf_id + 1;
        code_perfs = insert d.next_code_perf_id c d.code_perfs;
        code_perfs_updates = d.code_perfs_updates + 1;
      })

  -- `EditCodePerf`, with `none` for what it throws
  unfoldable pub edit_code_perf : ℕ → CodePerf D → DebugData D → Option (DebugData D)
  edit_code_perf n new d = elim (lookup n d.code_perfs) [
    | none ↦ none
    | some c ↦ some (record d {
      code_perfs = insert n (edit means new c) d.code_perfs;
      code_perfs_updates = d.code_perfs_updates + 1;
    })
  ]

  unfoldable pub del_code_perf : ℕ → DebugData D → DebugData D
  del_code_perf n d = elim (lookup n d.code_perfs) [
    | none ↦ d
    | some c ↦ record d {
      code_perfs = remove n d.code_perfs;
      code_perfs_updates = d.code_perfs_updates + 1;
    }
  ]

  unfoldable pub del_all_code_perfs : DebugData D → DebugData D
  del_all_code_perfs d = elim (d.code_perfs) [
    | [] ↦ d
    | c ∷ cs ↦ record d { code_perfs = []; code_perfs_updates = d.code_perfs_updates + 1 }
  ]

  abbrev each : (CodePerf D → CodePerf D) → Dict (CodePerf D) → Dict (CodePerf D)
  each f [] = []
  each f ((n, c) ∷ cs) = (n, f c) ∷ each f cs

  unfoldable pub cancel_code_perf_samples : DebugData D → DebugData D
  cancel_code_perf_samples d = record d { code_perfs = each (cancel_sample means) d.code_perfs }

  unfoldable pub check_code_perfs : ℕ → ℕ → DebugData D → DebugData D
  check_code_perfs addr cc d = record d {
    code_perfs = each (check_perf means addr cc) d.code_perfs;
  }
