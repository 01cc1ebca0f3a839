-- ===== src/Dotfiles/Cycle.antt =====
-- What an apply changes, by its options and by how far it gets.
use workspaced.Prelude.{
  ◌≢◌, ◌⊎◌, ℕ, ◌+◌, Bool, none, some, List, [], ◌∷◌, if◌then◌else◌, Str, length, ◌≡◌, ap, arith,
  str_eq_iff,
}
use workspaced.Prelude.GoMap
use workspaced.Os.{err, Error}
use workspaced.Deployer.Types.{Action, ActionType, create, update, delete, noop, State}
use workspaced.Dotfiles.{
  drop_ignored, Manager, Counts, count_one, count_actions, ApplyResult, World,
}

-- DropIgnored removes the entries of the ignored targets and leaves the others, and its count is
-- the number of entries that went.
pub drop_ignored_lem :
    (ignore : Str → Bool) (state : State)
    → (length (drop_ignored ignore state).0 + (drop_ignored ignore state).1 ≡ length state)
      × ((path : Str)
          → GoMap.get (drop_ignored ignore state).0 path
            ≡ (if ignore path then none else GoMap.get state path))
unfolding drop_ignored GoMap.get
drop_ignored_lem ignore [] = (omega arith, λ path. ground arith)
drop_ignored_lem ignore ((k, info) ∷ state) =
    let ih = drop_ignored_lem ignore state in
    (
      ground (arith, ih.0),
      λ path. ground (arith, ih.1 path, str_eq_iff k path, ap ignore {x = k} {y = path}),
    )

abbrev total : Counts → ℕ
total c = c.created + c.updated + c.deleted + c.noop

count_one-total : (k : ActionType) (c : Counts) → total (count_one k c) ≡ total c + 1
unfolding count_one
count_one-total create c = omega arith
count_one-total update c = omega arith
count_one-total delete c = omega arith
count_one-total noop c = omega arith

count_actions-total :
    (acts : List Action) (c : Counts) → total (count_actions acts c) ≡ total c + length acts
unfolding count_actions
count_actions-total [] c = omega arith
count_actions-total (a ∷ acts) c =
    omega (arith, count_actions-total acts (count_one a.kind c), count_one-total a.kind c)

module _ {S : Type 0} (m : Manager S) (w : World S) where
  -- The stored state is the one before, or saving it is what failed.
  abbrev pub KeptOrSaving : ApplyResult × World S → Type 0
  KeptOrSaving (result, after) =
      (after.stored ≡ w.stored)
      ⊎ ((state : State) × (e : Error) × ((m.store.save state w.stored).0 ≡ err e)
          × (result.error ≡ some e))

  abbrev KeepsStore : ApplyResult × World S → Type 0
  KeepsStore r = r.0.error ≢ none → KeptOrSaving r
