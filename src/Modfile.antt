-- ===== src/Modfile.antt =====
-- internal/modfile/sumfile.go and sumops.go: the tools of the lock file.
pub mod Tools
pub mod Renovate
mod Samples
use workspaced.Prelude.{
  Bool, true, false, ◌&&◌, ◌||◌, not, Option, none, some, List, [], ◌∷◌, if◌then◌else◌, Str, codes,
  str_eq, trim_space,
}
use workspaced.Prelude.GoMap
use workspaced.Prelude.GoMap.{GoMap}

pub record LockedTool : Type 0 where
  pub ref : Str
  pub version : Str
  pub dep_name : Str
  pub datasource : Str
  pub package_name : Str
  pub versioning : Str

pub record RenovateDependency : Type 0 where
  pub kind : Str
  pub ref : Str
  pub dep_name : Str
  pub package_name : Str
  pub current_value : Str
  pub current_digest : Str
  pub current_version : Str
  pub datasource : Str
  pub versioning : Str
  pub extract_version : Str
  pub registry_urls : List Str
  pub dep_type : Str
  pub source_url : Str
  pub manager : Str
  pub skip_reason : Str

-- SumFile, as far as tools go; `none` is the nil index.
pub record SumFile : Type 0 where
  pub dependencies : List RenovateDependency
  pub tool_locks : Option (GoMap LockedTool)

abbrev pub first_of : Str → Str → Str
first_of [] other = other
first_of (c ∷ s) other = c ∷ s

abbrev pub is_tool : RenovateDependency → Bool
is_tool d = str_eq d.kind (codes "tool")

unfoldable pub lock_key : RenovateDependency → Str
lock_key d = first_of (trim_space d.ref) (trim_space d.dep_name)

unfoldable pub lock_version : RenovateDependency → Str
lock_version d = first_of (trim_space d.current_value) (trim_space d.current_version)

unfoldable pub locked : RenovateDependency → LockedTool
unfolding lock_key lock_version
locked d = record {
  ref = lock_key d;
  version = lock_version d;
  dep_name = trim_space d.dep_name;
  datasource = trim_space d.datasource;
  package_name = trim_space d.package_name;
  versioning = trim_space d.versioning;
}

-- The loop of rebuildToolLocksFromDependencies.
unfoldable pub rebuild_from : GoMap LockedTool → List RenovateDependency → GoMap LockedTool
unfolding locked
rebuild_from out [] = out
rebuild_from out (d ∷ ds) =
    let skipped = rebuild_from out ds in
    let added = rebuild_from (GoMap.put out (lock_key d) (locked d)) ds in
    if is_tool d && not (str_eq (lock_key d) []) && not (str_eq (lock_version d) [])
    then added
    else skipped

unfoldable pub rebuild_tool_locks : SumFile → GoMap LockedTool
unfolding rebuild_from
rebuild_tool_locks s = rebuild_from [] s.dependencies

-- The last loop of FindTool, whose comparisons do not trim.
unfoldable pub find_dependency : Str → List RenovateDependency → Option LockedTool
find_dependency name [] = none
find_dependency name (d ∷ ds) =
    let rest = find_dependency name ds in
    if is_tool d && (str_eq d.ref name || str_eq d.dep_name name)
    then some (record {
      ref = d.ref;
      version = first_of d.current_value d.current_version;
      dep_name = d.dep_name;
      datasource = d.datasource;
      package_name = d.package_name;
      versioning = d.versioning;
    })
    else rest

abbrev pub or_else : Option LockedTool → Option LockedTool → Option LockedTool
or_else none other = other
or_else (some lock) other = some lock

abbrev pub indexed : Option (GoMap LockedTool) → Str → Option LockedTool
indexed none name = none
indexed (some locks) name = GoMap.get locks name

unfoldable pub find_tool : SumFile → Str → Option LockedTool
unfolding rebuild_tool_locks find_dependency
find_tool s raw =
    let name = trim_space raw in
    let found =
      or_else (indexed s.tool_locks name)
        (or_else (GoMap.get (rebuild_tool_locks s) name) (find_dependency name s.dependencies)) in
    if str_eq name [] then none else found

unfoldable pub trim_lock : LockedTool → LockedTool
trim_lock lock = record {
  ref = trim_space lock.ref;
  version = trim_space lock.version;
  dep_name = trim_space lock.dep_name;
  datasource = trim_space lock.datasource;
  package_name = trim_space lock.package_name;
  versioning = trim_space lock.versioning;
}

abbrev pub differs : Str → Str → Bool
differs new old = not (str_eq new []) && not (str_eq old new)

unfoldable pub is_changed : LockedTool → RenovateDependency → Bool
is_changed lock d =
    not (str_eq d.current_value lock.version)
    || differs lock.dep_name d.dep_name
    || differs lock.datasource d.datasource
    || differs lock.package_name d.package_name
    || differs lock.versioning d.versioning

unfoldable pub updated : LockedTool → RenovateDependency → RenovateDependency
updated lock d = record d {
  current_value = lock.version;
  dep_name = first_of lock.dep_name d.dep_name;
  datasource = first_of lock.datasource d.datasource;
  package_name = first_of lock.package_name d.package_name;
  versioning = first_of lock.versioning d.versioning;
}

abbrev pub new_dependency : LockedTool → RenovateDependency
new_dependency lock = record {
  kind = codes "tool";
  ref = lock.ref;
  dep_name = lock.dep_name;
  package_name = lock.package_name;
  current_value = lock.version;
  current_digest = [];
  current_version = [];
  datasource = lock.datasource;
  versioning = lock.versioning;
  extract_version = [];
  registry_urls = [];
  dep_type = [];
  source_url = [];
  manager = [];
  skip_reason = [];
}

-- The loop of UpsertTool, and what it appends if there is no entry.
unfoldable pub upsert_dependency :
    LockedTool → List RenovateDependency → Bool × List RenovateDependency
unfolding is_changed updated
upsert_dependency lock [] = (true, new_dependency lock ∷ [])
upsert_dependency lock (d ∷ ds) =
    let (changed, rest) = upsert_dependency lock ds in
    if is_tool d && str_eq (trim_space d.ref) lock.ref
    then (is_changed lock d, updated lock d ∷ ds)
    else (changed, d ∷ rest)

abbrev pub index_of : SumFile → Option (GoMap LockedTool) → GoMap LockedTool
index_of s none = rebuild_tool_locks s
index_of s (some locks) = locks

unfoldable pub with_alias : Str → LockedTool → GoMap LockedTool → GoMap LockedTool
with_alias name lock locks =
    let stored = GoMap.put locks lock.ref lock in
    if not (str_eq name []) && not (str_eq name lock.ref)
    then GoMap.put stored name lock
    else stored

unfoldable pub upsert_tool : Str → LockedTool → SumFile → Bool × SumFile
unfolding trim_lock upsert_dependency with_alias rebuild_tool_locks
upsert_tool name raw s =
    let lock = trim_lock raw in
    let (changed, deps) = upsert_dependency lock s.dependencies in
    if str_eq lock.ref [] || str_eq lock.version [] then (false, s) else (
      changed,
      record {
        dependencies = deps;
        tool_locks = some (with_alias (trim_space name) lock (index_of s s.tool_locks));
      },
    )
