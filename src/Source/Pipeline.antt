-- ===== src/Source/Pipeline.antt =====
-- The plugins of internal/source that need no engine: relocation, the concatenation of `.d.tmpl`
-- directories and the strict conflict resolver; and the pipeline that runs plugins in a row.
use workspaced.Prelude.{
  Bool, false, Option, none, some, List, [], ◌∷◌, ◌++◌, if◌then◌else◌, Str, codes, str_lt, map,
  has_prefix, ◌||◌,
}
use workspaced.Prelude.Sort
use workspaced.Prelude.GoMap
use workspaced.Prelude.GoMap.{GoMap}
use workspaced.FilePath
use workspaced.Os
use workspaced.Os.{Result, ok, err, ◌>>=◌, message}
use workspaced.Source.{File, type_dot_d, target}

abbrev pub Plugin : Type 0
Plugin = List File → Result (List File)

-- Pipeline.Run: each plugin gets what the one before it returned.
unfoldable pub run : List Plugin → List File → Result (List File)
run [] files = ok files
run (p ∷ ps) files = p files >>= λ next. run ps next

unfoldable pub relocated : Str → File → File
relocated base f = record f { target_base = base }

-- RelocatePlugin.Process
unfoldable pub relocate : Str → Plugin
unfolding relocated
relocate base files = ok (map (relocated base) files)

-- The loop of StrictConflictResolverPlugin.Process over the owned paths.
unfoldable pub resolve_from : GoMap File → List File → Result Unit
resolve_from owned [] = ok tt
resolve_from owned (f ∷ fs) = elim (GoMap.get owned (target f)) [
  | some existing ↦ err (message (target f))
  | none ↦ resolve_from (GoMap.put owned (target f) f) fs
]

unfoldable pub resolve_strict : Plugin
unfolding resolve_from
resolve_strict files = resolve_from [] files >>= λ _. ok files

abbrev marker : Str
marker = codes ".d.tmpl"

-- strings.Contains(rel, ".d.tmpl/")
unfoldable pub in_dot_d : Str → Bool
in_dot_d [] = false
in_dot_d (c ∷ s) = has_prefix (c ∷ s) (codes ".d.tmpl/") || in_dot_d s

-- strings.Split(rel, ".d.tmpl")[0]
unfoldable pub before_marker : Str → Str
before_marker [] = []
before_marker (c ∷ s) =
    let rest = before_marker s in if has_prefix (c ∷ s) marker then [] else c ∷ rest

abbrev members : Option (List File) → List File
members none = []
members (some fs) = fs

unfoldable pub dot_d_target : File → Str
unfolding before_marker
dot_d_target f = FilePath.join f.target_base (before_marker f.rel_path)

-- The first pass: the files outside `.d.tmpl` directories, and the groups by their target.
unfoldable pub group_files : List File → GoMap (List File) → List File × GoMap (List File)
group_files [] groups = ([], groups)
group_files (f ∷ fs) groups =
    if in_dot_d f.rel_path
    then group_files fs
        (GoMap.put groups (dot_d_target f) (members (GoMap.get groups (dot_d_target f)) ++ f ∷ []))
    else (let (plain, all) = group_files fs groups in (f ∷ plain, all))

-- ConcatenatedFile.Reader: the components with a line break between each two.
unfoldable pub concat_reader : List File → Result Str
concat_reader [] = ok []
concat_reader (f ∷ fs) = f.reader >>= λ bytes.
    concat_reader fs >>= λ rest. elim fs [ [] ↦ ok bytes | g ∷ gs ↦ ok (bytes ++ b'\n' ∷ rest) ]

unfoldable pub rel_path_less : File → File → Bool
rel_path_less f g = str_lt f.rel_path g.rel_path

abbrev relative_to : Str → Option Str → Result Str
relative_to path none = err (message path)
relative_to path (some r) = ok r

-- The file of one group, whose components are sorted by their relative paths.
unfoldable pub concatenated : Str → List File → Result (List File)
unfolding concat_reader rel_path_less
concatenated path [] = ok []
concatenated path (f ∷ fs) = relative_to path (FilePath.rel f.target_base path) >>= λ r. ok (
    record {
      rel_path = r;
      target_base = f.target_base;
      mode = 0o644;
      reader = concat_reader (f ∷ fs);
      source_info = codes "concatenated:" ++ path;
      file_type = type_dot_d;
      link_target = err Os.not_symlink;
      module_name = f.module_name;
    }
    ∷ [])

unfoldable pub group_keys : GoMap (List File) → List Str
group_keys [] = []
group_keys ((k, fs) ∷ groups) = k ∷ group_keys groups

unfoldable pub concat_groups : GoMap (List File) → List Str → Result (List File)
unfolding concatenated
concat_groups groups [] = ok []
concat_groups groups (path ∷ paths) =
    concatenated path (Sort.sort rel_path_less (members (GoMap.get groups path))) >>= λ file.
    concat_groups groups paths >>= λ rest. ok (file ++ rest)

-- DotDProcessorPlugin.Process
unfoldable pub process_dot_d : Plugin
unfolding group_files concat_groups group_keys
process_dot_d files =
    let (plain, groups) = group_files files [] in
    concat_groups groups (Sort.sort str_lt (group_keys groups)) >>= λ made. ok (plain ++ made)
