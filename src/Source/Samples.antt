-- ===== src/Source/Samples.antt =====
-- Files on which the theorem on internal/source/plugin_conflict_strict.go is applied.
use workspaced.Prelude.{◌≡◌, ◌↔◌, [], ◌∷◌, codes}
use workspaced.Os.{ok}
use workspaced.Source.{File, type_static}
use workspaced.Source.Pipeline.{resolve_strict}
use workspaced.Source.Conflict.{HaveOwnTargets, resolve_strict_iff}

abbrev first : File
first = record {
  rel_path = codes "rc";
  target_base = codes "/h";
  mode = 420;
  reader = ok (codes "x");
  source_info = codes "module:a";
  file_type = type_static;
  link_target = ok [];
  module_name = codes "a";
}

abbrev second : File
second = record first { source_info = codes "module:b" }

resolve_strict_iff_example :
    (resolve_strict (first ∷ second ∷ []) ≡ ok (first ∷ second ∷ []))
    ↔ HaveOwnTargets (first ∷ second ∷ [])
resolve_strict_iff_example = resolve_strict_iff (first ∷ second ∷ [])
