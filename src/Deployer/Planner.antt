-- ===== src/Deployer/Planner.antt =====
-- internal/deployer/planner.go: the actions that turn the disk into the desired files.
pub mod Members
pub mod Replan
pub mod Converge
use workspaced.Prelude.{
  ℕ, Bool, true, false, not, ◌&&◌, ◌||◌, Option, none, some, List, [], ◌∷◌, ◌++◌, ◌==◌,
  if◌then◌else◌, Str, codes, str_eq, has_prefix, map,
}
use workspaced.Prelude.GoMap
use workspaced.Prelude.GoMap.{GoMap}
use workspaced.Os.{
  Disk, Node, regular, symlink, directory, Result, ok, err, ◌>>=◌, lstat, readlink, open_file,
  Opened, not_opened, unreadable, contents, perm_bits, os_error, call_read, Error,
}
use workspaced.Source.{File, FileType, type_symlink, target}
use workspaced.Deployer.Types.{
  ActionType, create, update, delete, noop, ManagedInfo, no_info, State, Action,
}

-- strings.Contains
unfoldable pub contains : Str → Str → Bool
contains [] sub = has_prefix [] sub
contains (c ∷ s) sub = has_prefix (c ∷ s) sub || contains s sub

abbrev pub bundle : Str
bundle = codes "bundle:"

unfoldable pub is_symlink_type : FileType → Bool
is_symlink_type type_symlink = true
is_symlink_type _ = false

unfoldable pub is_symlink_node : Node → Bool
is_symlink_node (symlink to) = true
is_symlink_node _ = false

abbrev node_perm : Node → ℕ
node_perm (regular perm bytes) = perm
node_perm (symlink to) = 0o777
node_perm (directory perm) = perm

-- What the planner is given: the options of the run, and the digest of package crypto/sha256.
pub record Planner : Type 0 where
  pub no_cache : Bool
  pub ignore : Str → Bool
  pub sha256 : Str → Str

abbrev pub link_differs : Str → Result Str → Bool
link_differs desired (ok actual) = not (str_eq desired actual)
link_differs desired (err e) = true

abbrev pub content_differs : Planner → Str → Opened → Str → Result Bool
content_differs p bytes not_opened path = ok true
content_differs p bytes unreadable path = err (os_error call_read path)
content_differs p bytes (contents actual) path =
    ok (not (str_eq (p.sha256 bytes) (p.sha256 actual)))

-- needsUpdate of planOne, for a target that exists.
unfoldable pub needs_update : Planner → Disk → Str → File → Node → Result Bool
unfolding is_symlink_type is_symlink_node
needs_update p d path f node =
    let by_link = f.link_target >>= λ desired. ok (link_differs desired (readlink d path)) in
    let by_content = f.reader >>= λ bytes. content_differs p bytes (open_file d path) path in
    if not (is_symlink_type f.file_type) && is_symlink_node node
      || is_symlink_type f.file_type && not (is_symlink_node node)
    then ok true
    else if is_symlink_type f.file_type
    then by_link
    else if node_perm node == perm_bits f.mode
    then by_content
    else ok true

abbrev pub info_of : Option ManagedInfo → ManagedInfo
info_of none = no_info
info_of (some i) = i

abbrev pub is_some : Option ManagedInfo → Bool
is_some none = false
is_some (some i) = true

-- What planOne decides once it is known whether the target differs.
unfoldable pub settle : Planner → Str → File → Option ManagedInfo → Bool → ActionType
settle p path f current true = update
settle p path f current false =
    if p.ignore path
    then noop
    else if not (is_some current) || not (str_eq (info_of current).source_info f.source_info)
    then update
    else noop

abbrev pub action_of : ActionType → Str → File → Option ManagedInfo → Action
action_of kind path f current = record {
  kind = kind;
  target = path;
  desired = some f;
  current = info_of current;
}

-- The bundle fast path: a managed target whose source fingerprint is unchanged.
unfoldable pub is_same_bundle : File → Option ManagedInfo → Bool
unfolding contains
is_same_bundle f current =
    is_some current
    && str_eq (info_of current).source_info f.source_info
    && contains (info_of current).source_info bundle

unfoldable pub plan_existing :
    Planner → Disk → Str → File → Option ManagedInfo → Node → Result Action
unfolding needs_update settle is_same_bundle
plan_existing p d path f current node =
    if p.no_cache
    then ok (action_of update path f current)
    else if is_same_bundle f current
    then ok (action_of noop path f current)
    else needs_update p d path f node >>= λ differs.
        ok (action_of (settle p path f current differs) path f current)

unfoldable pub plan_node :
    Planner → Disk → Str → File → Option ManagedInfo → Option Node → Result Action
unfolding plan_existing
plan_node p d path f current none = ok (action_of create path f none)
plan_node p d path f current (some node) = plan_existing p d path f current node

unfoldable pub plan_one : Planner → Disk → State → File → Result Action
plan_one p d state f = plan_node p d (target f) f (GoMap.get state (target f)) (lstat d (target f))

-- taskgroup.Map over the desired files: the actions in input order, or the first error.
unfoldable pub plan_all : Planner → Disk → State → List File → Result (List Action)
plan_all p d state [] = ok []
plan_all p d state (f ∷ fs) =
    plan_one p d state f >>= λ a. plan_all p d state fs >>= λ rest. ok (a ∷ rest)

unfoldable pub is_desired : List File → Str → Bool
is_desired [] path = false
is_desired (f ∷ fs) path = str_eq (target f) path || is_desired fs path

-- A deletion for each managed target that is not desired any more.
unfoldable pub orphans : List File → State → List Action
unfolding is_desired
orphans fs [] = []
orphans fs ((path, info) ∷ state) =
    let rest = orphans fs state in
    if is_desired fs path
    then rest
    else record { kind = delete; target = path; desired = none; current = info } ∷ rest

unfoldable pub plan : Planner → Disk → List File → State → Result (List Action)
plan p d fs state = plan_all p d state fs >>= λ actions. ok (actions ++ orphans fs state)
