-- ===== src/Storage/FileSystem/Writes.antt =====
-- Files before and after a write, a rename or a removal.
use pyupload_x.Base.{
  ◌≡◌, inl, inr, true, false, Option, none, some, arith, if◌then◌else◌, Option-cases,
}
use pyupload_x.Storage.{Bytes}
use pyupload_x.Storage.FileSystem.{
  FilePath, file, Nodes, path_eq, is_under, without, without_tree, with_node, file_at, Disk,
  write_file, replace, unlink, next_fault, written,
}
use pyupload_x.Storage.FileSystem.Laws.{
  path_eq_refl, node_at-with_node, node_at-without, node_at-without_tree,
}

-- What the files are, as a function of their paths.
abbrev pub View : Type 0
View = FilePath → Option Bytes

abbrev pub view : Disk → View
view d q = file_at q d.nodes

pub file_at-without :
    (p q : FilePath) (nodes : Nodes)
    → file_at q (without p nodes) ≡ (if path_eq p q then none else file_at q nodes)
unfolding file_at
file_at-without p q nodes = ground (arith, node_at-without p q nodes)

pub file_at-with_node :
    (p q : FilePath) (b : Bytes) (nodes : Nodes)
    → file_at q (with_node p (file b) nodes) ≡ (if path_eq p q then some b else file_at q nodes)
unfolding file_at
file_at-with_node p q b nodes = ground (arith, node_at-with_node p q (file b) nodes)

pub file_at-without_tree :
    (p q : FilePath) (nodes : Nodes)
    → file_at q (without_tree p nodes) ≡ (if is_under p q then none else file_at q nodes)
unfolding file_at
file_at-without_tree p q nodes = ground (arith, node_at-without_tree p q nodes)

-- A write that was complete, and one that was not.
pub write_file-true :
    (p : FilePath) (b : Bytes) (d : Disk) (q : FilePath)
    → (write_file p b d).0 ≡ true
    → file_at q (write_file p b d).1.nodes ≡ (if path_eq p q then some b else file_at q d.nodes)
unfolding write_file
write_file-true p b d q h = ground (arith, file_at-with_node p q b d.nodes)

pub write_file-false :
    (p : FilePath) (b : Bytes) (d : Disk) (q : FilePath)
    → path_eq p q ≡ false
    → file_at q (write_file p b d).1.nodes ≡ file_at q d.nodes
unfolding write_file
write_file-false p b d q e =
    ground (arith, file_at-with_node p q (written (next_fault d.faults) b) d.nodes)

pub replace-some :
    (s t q : FilePath) (nodes nodes' : Nodes)
    → replace s t nodes ≡ some nodes'
    → file_at q nodes'
      ≡ (if path_eq t q then file_at s nodes else if path_eq s q then none else file_at q nodes)
unfolding replace
replace-some s t q nodes nodes' h = elim (Option-cases (file_at s nodes)) [
  | inl e ↦ ground arith
  | inr (b, e) ↦
      ground (arith, file_at-with_node t q b (without s nodes), file_at-without s q nodes)
]

pub unlink-some :
    (p q : FilePath) (nodes nodes' : Nodes)
    → unlink p nodes ≡ some nodes'
    → file_at q nodes' ≡ (if path_eq p q then none else file_at q nodes)
unfolding unlink
unlink-some p q nodes nodes' h = ground (arith, file_at-without p q nodes)

-- A file that is written and then put in another's place.
pub replace-write_file :
    (s t q : FilePath) (b : Bytes) (d : Disk) (nodes : Nodes)
    → (write_file s b d).0 ≡ true
    → replace s t (write_file s b d).1.nodes ≡ some nodes
    → file_at q nodes
      ≡ (if path_eq t q then some b else if path_eq s q then none else file_at q d.nodes)
replace-write_file s t q b d nodes h r = ground (
  arith,
  replace-some s t q (write_file s b d).1.nodes nodes,
  write_file-true s b d s,
  write_file-true s b d q,
  path_eq_refl s,
)
