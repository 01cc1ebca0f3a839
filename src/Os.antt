-- ===== src/Os.antt =====
-- The functions of package os that the apply calls, over a flat disk: a path names a node. Paths are
-- not followed through symbolic links. What else may fail (permissions, a full disk) is `fault`.
pub mod Keeps
use workspaced.Prelude.{
  ℕ, ◌%◌, Bool, true, false, ◌&&◌, ◌||◌, not, Option, none, some, List, [], ◌∷◌, ◌++◌, ◌==◌,
  if◌then◌else◌, Str, codes, str_eq, has_prefix,
}
use workspaced.Prelude.GoMap
use workspaced.Prelude.GoMap.{GoMap}
use workspaced.FilePath.{slash}

pub data Node : Type 0 where
  regular : ℕ → Str → Node
  symlink : Str → Node
  directory : ℕ → Node

-- The permission bits that MkdirAll gives.
abbrev pub dir_perm : ℕ
dir_perm = 0o755

-- FileMode.Perm
abbrev pub perm_bits : ℕ → ℕ
perm_bits mode = mode % 0o1000

-- The calls that can fail.
pub data Call : Type 0 where
  call_lstat call_readlink call_read call_remove call_remove_all call_mkdir call_symlink call_write
        call_chmod :
      Call

pub record Disk : Type 0 where
  pub nodes : GoMap Node
  pub fault : Call → Str → Bool

-- A failure of a step, with the call or the source that failed.
pub data Error : Type 0 where
  os_error : Call → Str → Error
  not_symlink : Error
  reader_error : Str → Error
  message : Str → Error

pub data Result (A : Type 0) : Type 0 where
  ok : A → Result A
  err : Error → Result A

infixl 5 ◌>>=◌
abbrev pub ◌>>=◌ : {A B : Type 0} → Result A → (A → Result B) → Result B
ok a >>= f = f a
err e >>= f = err e

unfoldable pub lstat : Disk → Str → Option Node
lstat d p = if d.fault call_lstat p then none else GoMap.get d.nodes p

abbrev link_of : Str → Option Node → Result Str
link_of p (some (symlink target)) = ok target
link_of p _ = err (os_error call_readlink p)

unfoldable pub readlink : Disk → Str → Result Str
readlink d p =
    if d.fault call_readlink p
    then err (os_error call_readlink p)
    else link_of p (GoMap.get d.nodes p)

-- os.Open, and reading to the end what was opened.
pub data Opened : Type 0 where
  not_opened unreadable : Opened
  contents : Str → Opened

abbrev pub opened_node : Option Node → Opened
opened_node none = not_opened
opened_node (some (regular perm bytes)) = contents bytes
opened_node (some (symlink to)) = not_opened
opened_node (some (directory perm)) = unreadable

unfoldable pub open_file : Disk → Str → Opened
open_file d p = if d.fault call_read p then not_opened else opened_node (GoMap.get d.nodes p)

-- Is `q` the path of something below the directory `p`?
unfoldable pub below : Str → Str → Bool
below p q = has_prefix q (p ++ slash ∷ [])

unfoldable pub has_children : GoMap Node → Str → Bool
unfolding below
has_children [] p = false
has_children ((q, n) ∷ m) p = below p q || has_children m p

abbrev is_there : Option Node → Bool
is_there none = false
is_there (some n) = true

-- os.Remove: of a directory only if it is empty
unfoldable pub remove : Disk → Str → Result Disk
unfolding has_children
remove d p =
    if d.fault call_remove p || not (is_there (GoMap.get d.nodes p)) || has_children d.nodes p
    then err (os_error call_remove p)
    else ok (record d { nodes = GoMap.remove d.nodes p })

unfoldable pub drop_below : GoMap Node → Str → GoMap Node
unfolding below
drop_below [] p = []
drop_below ((q, n) ∷ m) p =
    let rest = drop_below m p in if str_eq q p || below p q then rest else (q, n) ∷ rest

-- os.RemoveAll
unfoldable pub remove_all : Disk → Str → Result Disk
remove_all d p =
    if d.fault call_remove_all p
    then err (os_error call_remove_all p)
    else ok (record d { nodes = drop_below d.nodes p })

-- The directories that a path runs through: each non-empty text before a slash, and the path itself.
unfoldable pub ancestors : Str → Str → List Str
ancestors done [] = done ∷ []
ancestors done (c ∷ s) =
    let rest = ancestors (done ++ c ∷ []) s in
    if c == slash && not (str_eq done []) then done ∷ rest else rest

abbrev make_dir : Str → Option Node → GoMap Node → Result (GoMap Node)
make_dir p none m = ok (GoMap.put m p (directory dir_perm))
make_dir p (some (directory perm)) m = ok m
make_dir p (some (symlink target)) m = ok m
make_dir p (some (regular perm bytes)) m = err (os_error call_mkdir p)

unfoldable pub make_dirs : List Str → GoMap Node → Result (GoMap Node)
make_dirs [] m = ok m
make_dirs (p ∷ ps) m = make_dir p (GoMap.get m p) m >>= λ n. make_dirs ps n

-- os.MkdirAll
unfoldable pub mkdir_all : Disk → Str → Result Disk
unfolding make_dirs ancestors
mkdir_all d p =
    if d.fault call_mkdir p
    then err (os_error call_mkdir p)
    else make_dirs (ancestors [] p) d.nodes >>= λ m. ok (record d { nodes = m })

-- os.Symlink, which fails if the path is taken
unfoldable pub make_symlink : Disk → Str → Str → Result Disk
make_symlink d target p =
    if d.fault call_symlink p || is_there (GoMap.get d.nodes p)
    then err (os_error call_symlink p)
    else ok (record d { nodes = GoMap.put d.nodes p (symlink target) })

abbrev pub replace_file : Disk → Str → ℕ → Str → Option Node → Result Disk
replace_file d p perm bytes (some (directory dperm)) = err (os_error call_write p)
replace_file d p perm bytes _ = ok (record d { nodes = GoMap.put d.nodes p (regular perm bytes) })

-- The permissions of a file that was written with a mode; 0 stands for the default ones.
unfoldable pub written_perm : ℕ → ℕ
written_perm mode = if mode == 0 then 0o666 else perm_bits mode

-- atomicfile.Write up to the rename of its temporary file over the path: the path has the new file, or
-- nothing changes.
unfoldable pub write_file : Disk → Str → ℕ → Str → Result Disk
write_file d p mode bytes =
    if d.fault call_write p
    then err (os_error call_write p)
    else replace_file d p (written_perm mode) bytes (GoMap.get d.nodes p)

-- The chmod of atomicfile.Write behind the rename, to the mode that the file was made with.
unfoldable pub chmod_file : Disk → Str → ℕ → Result Disk
chmod_file d p mode =
    if not (mode == 0) && d.fault call_chmod p then err (os_error call_chmod p) else ok d
