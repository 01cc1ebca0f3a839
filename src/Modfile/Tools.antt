-- ===== src/Modfile/Tools.antt =====
-- internal/modfile/sumops.go: what UpsertTool records is found, and recording it again changes nothing.
use workspaced.Prelude.{
  arith, refl, ap, ◌≡◌, ◌≢◌, false, ◌&&◌, ◌||◌, some, List, [], ◌∷◌, Str, codes, str_eq, trim_space,
  str_eq_refl, str_eq_ne, Bool-cases, inl, inr,
}
use workspaced.Prelude.GoMap
use workspaced.Prelude.GoMap.{GoMap}
use workspaced.Modfile.{
  LockedTool, RenovateDependency, SumFile, first_of, is_tool, is_changed, updated,
  upsert_dependency, upsert_tool, find_tool, trim_lock, with_alias, index_of, differs,
  new_dependency,
}

differs_first : (new old : Str) → differs new (first_of new old) ≡ false
differs_first [] old = unfold str_eq in refl
differs_first (c ∷ s) old = rw (str_eq_refl (c ∷ s)) (ground arith)

updated-unchanged :
    (lock : LockedTool) (d : RenovateDependency) → is_changed lock (updated lock d) ≡ false
unfolding is_changed updated
updated-unchanged lock d =
    rw
      (
        str_eq_refl lock.version,
        differs_first lock.dep_name d.dep_name,
        differs_first lock.datasource d.datasource,
        differs_first lock.package_name d.package_name,
        differs_first lock.versioning d.versioning,
      )
      refl

differs_self : (x : Str) → differs x x ≡ false
differs_self x = rw (str_eq_refl x) (ground arith)

new-unchanged : (lock : LockedTool) → is_changed lock (new_dependency lock) ≡ false
unfolding is_changed
new-unchanged lock =
    rw
      (
        str_eq_refl lock.version,
        differs_self lock.dep_name,
        differs_self lock.datasource,
        differs_self lock.package_name,
        differs_self lock.versioning,
      )
      refl

again :
    (lock : LockedTool) (ds : List RenovateDependency)
    → trim_space lock.ref ≡ lock.ref
    → (upsert_dependency lock (upsert_dependency lock ds).1).0 ≡ false
unfolding upsert_dependency
again lock [] e = rw (e, str_eq_refl lock.ref, str_eq_refl (codes "tool")) (new-unchanged lock)
again lock (d ∷ ds) e = elim (Bool-cases (is_tool d && str_eq (trim_space d.ref) lock.ref)) [
  | inl q ↦ rw (q) (unfold updated in rw (q) (updated-unchanged lock d))
  | inr q ↦ rw (q) (rw (q) (again lock ds e))
]

-- Recording a tool a second time reports no change, so that the lock file is not written again; the
-- reference of the tool has no white space at its ends.
pub upsert_tool-again :
    (name : Str) (lock : LockedTool) (s : SumFile)
    → trim_space lock.ref ≡ lock.ref
    → (upsert_tool name lock (upsert_tool name lock s).1).0 ≡ false
unfolding upsert_tool
upsert_tool-again name lock s e =
    elim (Bool-cases (str_eq (trim_space lock.ref) [] || str_eq (trim_space lock.version) [])) [
      | inl q ↦ rw (q) refl
      | inr q ↦ rw (q) (again (trim_lock lock) s.dependencies (ap trim_space e))
    ]

stored-found :
    (name : Str) (lock : LockedTool) (locks : GoMap LockedTool)
    → GoMap.get (with_alias name lock locks) lock.ref ≡ some lock
unfolding with_alias
stored-found name lock locks = ground (
  arith,
  GoMap.get-put (GoMap.put locks lock.ref lock) name lock lock.ref,
  GoMap.get-put locks lock.ref lock lock.ref,
  str_eq_refl lock.ref,
)

-- What was recorded is found: after UpsertTool of a tool with a reference and a version, FindTool of
-- the reference gives the tool with its fields trimmed, under whatever alias it was recorded.
pub find_tool-upsert_tool :
    (name : Str) (lock : LockedTool) (s : SumFile)
    → trim_space lock.ref ≢ []
    → trim_space lock.version ≢ []
    → find_tool (upsert_tool name lock s).1 lock.ref ≡ some (trim_lock lock)
unfolding find_tool upsert_tool
find_tool-upsert_tool name lock s r v =
    let q = str_eq_ne (trim_space lock.ref) [] r in
    rw (q, str_eq_ne (trim_space lock.version) [] v)
      (rw (stored-found (trim_space name) (trim_lock lock) (index_of s s.tool_locks)) refl)
