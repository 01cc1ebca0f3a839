-- ===== src/Source.antt =====
-- internal/source: the files that the pipeline finds and makes, before they are written.
pub mod Pipeline
pub mod Conflict
mod Samples
use workspaced.Prelude.{
  ℕ, Bool, true, false, Option, none, some, List, [], ◌∷◌, ◌++◌, if◌then◌else◌, Str, codes,
}
use workspaced.FilePath.{join}
use workspaced.Os.{Result, ok, err, not_symlink}

pub data FileType : Type 0 where
  type_symlink type_static type_template type_multi_file type_dot_d : FileType

-- The interface File: what its methods return. `reader` is what reading it to the end yields.
pub record File : Type 0 where
  pub rel_path : Str
  pub target_base : Str
  pub mode : ℕ
  pub reader : Result Str
  pub source_info : Str
  pub file_type : FileType
  pub link_target : Result Str
  pub module_name : Str

-- DesiredState.Target
unfoldable pub target : File → Str
target f = join f.target_base f.rel_path
