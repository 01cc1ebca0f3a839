-- ===== src/Modfile/Samples.antt =====
-- Lock files on which the theorems on internal/modfile are applied.
use workspaced.Prelude.{
  ◌≢◌, ◌↔◌, AllPairs, In, trim_by, space_size, space_size_back, arith, ◌≡◌, none, some, [], ◌∷◌,
  codes, trim_space, trim_left, trim_right, is_space,
}
use workspaced.Modfile.Renovate.{dependency_merge_key, merge_dependencies}
use workspaced.Modfile.Renovate.Indexed.{or_entry, last_with}
use workspaced.Modfile.Renovate.Merged.{KeysDiffer, merge_dependencies-entries}
use workspaced.Modfile.{
  RenovateDependency, LockedTool, SumFile, upsert_tool, find_tool, trim_lock, new_dependency,
}
use workspaced.Modfile.Tools.{find_tool-upsert_tool}

abbrev jq : LockedTool
jq = record {
  ref = codes "github:jqlang/jq";
  version = codes " 1.7 ";
  dep_name = codes "jq";
  datasource = [];
  package_name = [];
  versioning = [];
}

abbrev old_file : SumFile
old_file = record {
  dependencies = new_dependency (record jq { version = codes "1.6" }) ∷ [];
  tool_locks = none;
}

find_tool-upsert_tool_example :
    find_tool (upsert_tool (codes "jq") jq old_file).1 (codes "github:jqlang/jq")
    ≡ some (trim_lock jq)
unfolding trim_space trim_left trim_right is_space trim_by space_size space_size_back
find_tool-upsert_tool_example =
    find_tool-upsert_tool (codes "jq") jq old_file (ground arith) (ground arith)

abbrev older_jq : RenovateDependency
older_jq = new_dependency (record jq { version = codes "1.6" })

merge_dependencies-entries_example :
    AllPairs KeysDiffer (merge_dependencies (older_jq ∷ []) (new_dependency jq ∷ []))
    × ((d : RenovateDependency)
        → In d (merge_dependencies (older_jq ∷ []) (new_dependency jq ∷ [])) ↔ (
            (dependency_merge_key d ≢ [])
            × (or_entry
                  (last_with (dependency_merge_key d) (new_dependency jq ∷ []))
                  (last_with (dependency_merge_key d) (older_jq ∷ []))
                ≡ some d)))
merge_dependencies-entries_example =
    merge_dependencies-entries (older_jq ∷ []) (new_dependency jq ∷ [])
