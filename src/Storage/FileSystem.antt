-- ===== src/Storage/FileSystem.antt =====
-- What app/storage/local.py uses of pathlib, os and shutil: a tree of directories and files without
-- links. A path is the list of its segments from the root; a path with `.` or `..` is taken as what
-- it resolves to. Calls fail where the tree does not allow them, and a write fails where the
-- environment says so.
pub mod Laws
pub mod Writes
use pyupload_x.Base.{
  ℕ, Bool, true, false, not, ◌&&◌, ◌||◌, Option, none, some, List, [], ◌∷◌, ◌++◌, if◌then◌else◌,
  take, select, Text, codes, text_eq, starts_with,
}
use pyupload_x.Storage.{Bytes}
use pyupload_x.Paths.{is_skipped, is_parent}
use pyupload_x.Paths.Segments.{split_on}

abbrev pub FilePath : Type 0
FilePath = List Text

unfoldable pub path_eq : FilePath → FilePath → Bool
path_eq [] [] = true
path_eq [] (t ∷ q) = false
path_eq (s ∷ p) [] = false
path_eq (s ∷ p) (t ∷ q) = text_eq s t && path_eq p q

-- `path == root or path.is_relative_to(root)`
unfoldable pub is_under : FilePath → FilePath → Bool
is_under [] p = true
is_under (r ∷ root) [] = false
is_under (r ∷ root) (s ∷ p) = text_eq r s && is_under root p

-- `path.parent`
unfoldable pub parent : FilePath → FilePath
parent [] = []
parent (s ∷ []) = []
parent (s ∷ t ∷ p) = s ∷ parent (t ∷ p)

-- The segments that a text adds to a path.
unfoldable pub components : Text → List Text
unfolding split_on
components part = select (λ s. not (is_skipped s)) (split_on b'/' part)

-- `path / part`: an absolute part replaces the path
unfoldable pub join_part : FilePath → Text → FilePath
unfolding components starts_with
join_part p part = if starts_with (codes "/") part then components part else p ++ components part

unfoldable pub join_path : FilePath → List Text → FilePath
unfolding join_part
join_path p [] = p
join_path p (part ∷ parts) = join_path (join_part p part) parts

-- `path.resolve()`, with the segments before
unfoldable pub resolve_from : FilePath → FilePath → FilePath
unfolding parent
resolve_from done [] = done
resolve_from done (s ∷ p) = resolve_from (if is_parent s then parent done else done ++ s ∷ []) p

pub data Node : Type 0 where
  directory : Node
  file : Bytes → Node

abbrev pub Nodes : Type 0
Nodes = List (FilePath × Node)

unfoldable pub node_at : FilePath → Nodes → Option Node
unfolding path_eq
node_at p [] = none
node_at p ((q, n) ∷ rest) = if path_eq q p then some n else node_at p rest

-- the nodes without one, and without those at or below a path (`shutil.rmtree`)
unfoldable pub without : FilePath → Nodes → Nodes
unfolding path_eq
without p [] = []
without p ((q, n) ∷ rest) = if path_eq q p then without p rest else (q, n) ∷ without p rest

unfoldable pub without_tree : FilePath → Nodes → Nodes
unfolding is_under
without_tree p [] = []
without_tree p ((q, n) ∷ rest) =
    if is_under p q then without_tree p rest else (q, n) ∷ without_tree p rest

unfoldable pub with_node : FilePath → Node → Nodes → Nodes
unfolding without
with_node p n nodes = (p, n) ∷ without p nodes

abbrev pub is_directory : Option Node → Bool
is_directory (some directory) = true
is_directory _ = false

abbrev pub contents : Option Node → Option Bytes
contents (some (file b)) = some b
contents _ = none

-- The bytes of the file at a path, and `path.is_dir()`.
unfoldable pub file_at : FilePath → Nodes → Option Bytes
unfolding node_at
file_at p nodes = contents (node_at p nodes)

unfoldable pub is_dir : FilePath → Nodes → Bool
unfolding node_at
is_dir p nodes = is_directory (node_at p nodes)

-- What the environment does to a write: `some n` is an `OSError` after `n` bytes.
abbrev pub Fault : Type 0
Fault = Option ℕ

-- The tree, and what happens to the writes to come; there is none left to fail at the end.
pub record Disk : Type 0 where
  pub nodes : Nodes
  pub faults : List Fault

unfoldable pub make_dir : FilePath → Nodes → Option Nodes
unfolding node_at with_node
make_dir p nodes = elim (node_at p nodes) [
  | none ↦ some (with_node p directory nodes)
  | some directory ↦ some nodes
  | some (file b) ↦ none
]

-- `path.mkdir(parents=True, exist_ok=True)`, from a prefix of the path on. `none` is its `OSError`:
-- a file stands on the way, and nothing was made.
unfoldable pub make_dirs : FilePath → FilePath → Nodes → Option Nodes
unfolding make_dir
make_dirs done [] nodes = make_dir done nodes
make_dirs done (s ∷ p) nodes = elim (make_dir done nodes) [
  | none ↦ none
  | some nodes' ↦ make_dirs (done ++ s ∷ []) p nodes'
]

abbrev pub next_fault : List Fault → Fault
next_fault [] = none
next_fault (f ∷ fs) = f

abbrev pub other_faults : List Fault → List Fault
other_faults [] = []
other_faults (f ∷ fs) = fs

abbrev pub written : Fault → Bytes → Bytes
written none b = b
written (some n) b = take n b

abbrev pub is_some {ℓ} : {A : Type ℓ} → Option A → Bool
is_some none = false
is_some (some a) = true

-- `open(path, "wb")` and the writes: whether all was written, and the disk.
unfoldable pub write_file : FilePath → Bytes → Disk → Bool × Disk
unfolding is_dir with_node parent
write_file p b d = if not (is_dir (parent p) d.nodes) || is_dir p d.nodes then (false, d) else (
  not (is_some (next_fault d.faults)),
  record {
    nodes = with_node p (file (written (next_fault d.faults) b)) d.nodes;
    faults = other_faults d.faults;
  },
)

-- `os.replace(source, destination)`; `none` is its `OSError`
unfoldable pub replace : FilePath → FilePath → Nodes → Option Nodes
unfolding is_dir file_at with_node without
replace source destination nodes = elim (file_at source nodes) [
  | none ↦ none
  | some b ↦
      if is_dir destination nodes
      then none
      else some (with_node destination (file b) (without source nodes))
]

-- `path.unlink(missing_ok=True)`; `none` is its `OSError`
unfoldable pub unlink : FilePath → Nodes → Option Nodes
unfolding is_dir without
unlink p nodes = if is_dir p nodes then none else some (without p nodes)
