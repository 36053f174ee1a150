-- ===== src/Storage/FileSystem/Laws.antt =====
-- Reading a tree of files after a change of it.
use mathlib.Core.List.{append-nil, append_assoc}
use pyupload_x.Base.{
  ◌≡◌, refl, subst, ◌∙◌, ◌↔◌, inl, inr, true, false, ◌||◌, none, some, [], ◌∷◌, ◌++◌, arith,
  if◌then◌else◌, Bool-cases, Option-cases, text_eq_refl, text_eq_iff,
}
use pyupload_x.Storage.FileSystem.{
  FilePath, Node, directory, Nodes, path_eq, is_under, node_at, without, without_tree, with_node,
  file_at, is_dir, make_dir, make_dirs,
}

pub path_eq_refl : (p : FilePath) → path_eq p p ≡ true
unfolding path_eq
path_eq_refl [] = refl
path_eq_refl (s ∷ p) = ground (arith, text_eq_refl s, path_eq_refl p)

path_eq→eq : (p q : FilePath) → path_eq p q ≡ true → p ≡ q
unfolding path_eq
path_eq→eq [] [] h = refl
path_eq→eq [] (t ∷ q) h = cc
path_eq→eq (s ∷ p) [] h = cc
path_eq→eq (s ∷ p) (t ∷ q) h = ground (arith, text_eq_iff s t, path_eq→eq p q)

pub path_eq_iff : (p q : FilePath) → (path_eq p q ≡ true) ↔ (p ≡ q)
path_eq_iff p q = (path_eq→eq p q, λ e. rw e (path_eq_refl q))

pub is_under_append : (root p : FilePath) → is_under root (root ++ p) ≡ true
unfolding is_under
is_under_append [] p = refl
is_under_append (r ∷ root) p = ground (arith, text_eq_refl r, is_under_append root p)

-- What stands below two paths that do not stand below one another is apart.
pub is_under_apart :
    (a b p : FilePath)
    → is_under a b ≡ false
    → is_under b a ≡ false
    → is_under a p ≡ true
    → is_under b p ≡ false
unfolding is_under
is_under_apart [] b p h k u = cc
is_under_apart (r ∷ a) [] p h k u = cc
is_under_apart (r ∷ a) (s ∷ b) [] h k u = refl
is_under_apart (r ∷ a) (s ∷ b) (t ∷ p) h k u = ground (
  arith,
  text_eq_iff r s,
  text_eq_iff s r,
  text_eq_iff r t,
  text_eq_iff s t,
  is_under_apart a b p,
)

pub node_at-without :
    (p q : FilePath) (nodes : Nodes)
    → node_at q (without p nodes) ≡ (if path_eq p q then none else node_at q nodes)
unfolding without node_at
node_at-without p q [] = ground arith
node_at-without p q ((r, n) ∷ rest) =
    ground (arith, node_at-without p q rest, path_eq_iff r p, path_eq_iff r q, path_eq_iff p q)

pub node_at-with_node :
    (p q : FilePath) (n : Node) (nodes : Nodes)
    → node_at q (with_node p n nodes) ≡ (if path_eq p q then some n else node_at q nodes)
unfolding with_node node_at
node_at-with_node p q n nodes = ground (arith, node_at-without p q nodes)

pub node_at-without_tree :
    (p q : FilePath) (nodes : Nodes)
    → node_at q (without_tree p nodes) ≡ (if is_under p q then none else node_at q nodes)
unfolding without_tree node_at
node_at-without_tree p q [] = ground arith
node_at-without_tree p q ((r, n) ∷ rest) = elim (Bool-cases (path_eq r q)) [
  | inl e ↦
      rw ((path_eq_iff r q).0 e) (ground (arith, node_at-without_tree p q rest, path_eq_refl q))
  | inr e ↦ ground (arith, node_at-without_tree p q rest)
]

-- A directory that is made: there is one, each was one or is new, and files stay.
pub make_dir-file_at :
    (p q : FilePath) (nodes nodes' : Nodes)
    → make_dir p nodes ≡ some nodes'
    → file_at q nodes' ≡ file_at q nodes
unfolding make_dir file_at
make_dir-file_at p q nodes nodes' h =
    ground (arith, node_at-with_node p q directory nodes, path_eq_iff p q)

pub make_dir-is_dir :
    (p q : FilePath) (nodes nodes' : Nodes)
    → make_dir p nodes ≡ some nodes'
    → is_dir q nodes' ≡ (path_eq p q || is_dir q nodes)
unfolding make_dir is_dir
make_dir-is_dir p q nodes nodes' h =
    ground (arith, node_at-with_node p q directory nodes, path_eq_iff p q)

pub make_dirs-file_at :
    (done p q : FilePath) (nodes nodes' : Nodes)
    → make_dirs done p nodes ≡ some nodes'
    → file_at q nodes' ≡ file_at q nodes
unfolding make_dirs
make_dirs-file_at done [] q nodes nodes' h = make_dir-file_at done q nodes nodes' h
make_dirs-file_at done (s ∷ p) q nodes nodes' h = elim (Option-cases (make_dir done nodes)) [
  | inl e ↦ ground arith
  | inr (m, e) ↦
      make_dirs-file_at (done ++ s ∷ []) p q m nodes' (ground arith)
      ∙ make_dir-file_at done q nodes m e
]

pub make_dirs-is_dir :
    (done p q : FilePath) (nodes nodes' : Nodes)
    → make_dirs done p nodes ≡ some nodes'
    → (is_dir q nodes ≡ true → is_dir q nodes' ≡ true) × (is_dir (done ++ p) nodes' ≡ true)
unfolding make_dirs
make_dirs-is_dir done [] q nodes nodes' h = (
  λ k. rw (make_dir-is_dir done q nodes nodes' h, k) (ground arith),
  rw (append-nil done, make_dir-is_dir done done nodes nodes' h, path_eq_refl) refl,
)
make_dirs-is_dir done (s ∷ p) q nodes nodes' h = elim (Option-cases (make_dir done nodes)) [
  | inl e ↦ ground arith
  | inr (m, e) ↦
      let (more, last) = make_dirs-is_dir (done ++ s ∷ []) p q m nodes' (ground arith) in
      (
        λ k. more (rw (make_dir-is_dir done q nodes m e, k) (ground arith)),
        subst (λ (r : FilePath). is_dir r nodes' ≡ true) (append_assoc done (s ∷ []) p) last,
      )
]
