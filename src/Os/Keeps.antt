-- ===== src/Os/Keeps.antt =====
-- What the calls leave of a node that stands at a path.
use workspaced.Prelude.{
  ℕ, false, some, List, [], ◌∷◌, if◌then◌else◌, Str, str_eq, arith, ◌≡◌, ◌≢◌, refl, str_eq_iff,
  str_eq_ne, Bool-cases, inl, inr,
}
use workspaced.Prelude.GoMap
use workspaced.Prelude.GoMap.{GoMap, get-put, get-remove}
use workspaced.Os.{
  call_mkdir, dir_perm, Node, regular, symlink, directory, Disk, Result, ok, err, ◌>>=◌, below,
  drop_below, remove, remove_all, make_dirs, mkdir_all, make_symlink, write_file, chmod_file,
  written_perm, ancestors,
}

get-drop_below :
    (m : GoMap Node) (p q : Str)
    → p ≢ q
    → below p q ≡ false
    → GoMap.get (drop_below m p) q ≡ GoMap.get m q
unfolding drop_below GoMap.get
get-drop_below [] p q h k = refl
get-drop_below ((j, n) ∷ m) p q h k =
    ground (arith, get-drop_below m p q h k, str_eq_iff j p, str_eq_iff j q)

pub remove-keeps :
    (d d' : Disk) (p q : Str)
    → remove d p ≡ ok d'
    → p ≢ q
    → GoMap.get d'.nodes q ≡ GoMap.get d.nodes q
unfolding remove
remove-keeps d d' p q h ne = ground (arith, get-remove d.nodes p q, str_eq_ne p q ne)

pub remove_all-keeps :
    (d d' : Disk) (p q : Str)
    → remove_all d p ≡ ok d'
    → p ≢ q
    → below p q ≡ false
    → GoMap.get d'.nodes q ≡ GoMap.get d.nodes q
unfolding remove_all
remove_all-keeps d d' p q h ne k = ground (arith, get-drop_below d.nodes p q ne k)

make_dirs-keeps :
    (ps : List Str) (m m' : GoMap Node) (q : Str) (n : Node)
    → make_dirs ps m ≡ ok m'
    → GoMap.get m q ≡ some n
    → GoMap.get m' q ≡ some n
unfolding make_dirs
make_dirs-keeps [] m m' q n h k = ground arith
make_dirs-keeps (p ∷ ps) m m' q n h k = ground (
  arith,
  make_dirs-keeps ps m m' q n,
  make_dirs-keeps ps (GoMap.put m p (directory dir_perm)) m' q n,
  get-put m p (directory dir_perm) q,
  str_eq_iff p q,
)

-- Making directories keeps every node that is there.
pub mkdir_all-keeps :
    (d d' : Disk) (p q : Str) (n : Node)
    → mkdir_all d p ≡ ok d'
    → GoMap.get d.nodes q ≡ some n
    → GoMap.get d'.nodes q ≡ some n
unfolding mkdir_all
mkdir_all-keeps d d' p q n h k = elim (Bool-cases (d.fault call_mkdir p)) [
  | inl f ↦ ground arith
  | inr f ↦ go (make_dirs (ancestors [] p) d.nodes) refl (rw f at h)
]
  where
    go :
        (r : Result (GoMap Node))
        → make_dirs (ancestors [] p) d.nodes ≡ r
        → (r >>= λ m. ok (record d { nodes = m })) ≡ ok d'
        → GoMap.get d'.nodes q ≡ some n
    go (ok m) e f = ground (arith, make_dirs-keeps (ancestors [] p) d.nodes m q n e k)
    go (err x) e f = cc

pub make_symlink-puts :
    (d d' : Disk) (to p q : Str)
    → make_symlink d to p ≡ ok d'
    → GoMap.get d'.nodes q ≡ (if str_eq p q then some (symlink to) else GoMap.get d.nodes q)
unfolding make_symlink
make_symlink-puts d d' to p q h = ground (arith, get-put d.nodes p (symlink to) q)

pub write_file-puts :
    (d d' : Disk) (p : Str) (mode : ℕ) (bytes q : Str)
    → write_file d p mode bytes ≡ ok d'
    → GoMap.get d'.nodes q
      ≡ (if str_eq p q then some (regular (written_perm mode) bytes) else GoMap.get d.nodes q)
unfolding write_file
write_file-puts d d' p mode bytes q h =
    ground (arith, get-put d.nodes p (regular (written_perm mode) bytes) q)

-- The faults of a disk are those of its medium: no call changes them.
pub remove-fault : (d d' : Disk) (p : Str) → remove d p ≡ ok d' → d'.fault ≡ d.fault
unfolding remove
remove-fault d d' p h = ground arith

pub remove_all-fault : (d d' : Disk) (p : Str) → remove_all d p ≡ ok d' → d'.fault ≡ d.fault
unfolding remove_all
remove_all-fault d d' p h = ground arith

pub mkdir_all-fault : (d d' : Disk) (p : Str) → mkdir_all d p ≡ ok d' → d'.fault ≡ d.fault
unfolding mkdir_all
mkdir_all-fault d d' p h = ground arith

pub make_symlink-fault :
    (d d' : Disk) (to p : Str) → make_symlink d to p ≡ ok d' → d'.fault ≡ d.fault
unfolding make_symlink
make_symlink-fault d d' to p h = ground arith

pub write_file-fault :
    (d d' : Disk) (p : Str) (mode : ℕ) (bytes : Str)
    → write_file d p mode bytes ≡ ok d'
    → d'.fault ≡ d.fault
unfolding write_file
write_file-fault d d' p mode bytes h = ground arith

pub make_symlink-keeps :
    (d d' : Disk) (to p q : Str)
    → make_symlink d to p ≡ ok d'
    → p ≢ q
    → GoMap.get d'.nodes q ≡ GoMap.get d.nodes q
make_symlink-keeps d d' to p q h ne = rw (make_symlink-puts d d' to p q h, str_eq_ne p q ne)

pub write_file-keeps :
    (d d' : Disk) (p : Str) (mode : ℕ) (bytes q : Str)
    → write_file d p mode bytes ≡ ok d'
    → p ≢ q
    → GoMap.get d'.nodes q ≡ GoMap.get d.nodes q
write_file-keeps d d' p mode bytes q h ne =
    rw (write_file-puts d d' p mode bytes q h, str_eq_ne p q ne)

pub chmod_file-same : (d d' : Disk) (p : Str) (mode : ℕ) → chmod_file d p mode ≡ ok d' → d' ≡ d
unfolding chmod_file
chmod_file-same d d' p mode h = ground arith
