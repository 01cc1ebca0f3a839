-- ===== src/Deployer/Types.antt =====
-- internal/deployer/types.go: actions, the state, and the order of actions.
use workspaced.Prelude.{
  ℕ, Bool, true, false, Option, List, [], ◌==◌, ltb, if◌then◌else◌, Str, str_lt,
}
use workspaced.Prelude.GoMap.{GoMap}
use workspaced.Prelude.Sort
use workspaced.Source.{File}

pub data ActionType : Type 0 where
  create update delete noop : ActionType

pub record ManagedInfo : Type 0 where
  pub source_info : Str

abbrev pub no_info : ManagedInfo
no_info = record { source_info = [] }

-- State.Files: what the tool owns, by target path.
abbrev pub State : Type 0
State = GoMap ManagedInfo

-- A deletion has no desired file.
pub record Action : Type 0 where
  pub kind : ActionType
  pub target : Str
  pub desired : Option File
  pub current : ManagedInfo

unfoldable pub rank : ActionType → ℕ
rank delete = 0
rank update = 1
rank create = 2
rank noop = 3

-- The `less` of SortActions.
unfoldable pub action_less : Action → Action → Bool
unfolding rank
action_less a b =
    if rank a.kind == rank b.kind then str_lt a.target b.target else ltb (rank a.kind) (rank b.kind)

unfoldable pub sort_actions : List Action → List Action
unfolding action_less
sort_actions = Sort.sort action_less

unfoldable pub is_noop : ActionType → Bool
is_noop noop = true
is_noop _ = false
