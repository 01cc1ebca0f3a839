-- ===== src/Lib.antt =====
-- The core of workspaced: how dotfiles are planned, applied and remembered, and the parsers and
-- terminal rows that serve it.
--
-- A run of Manager.Apply (internal/dotfiles/manager.go) lets the plugins of a pipeline
-- (internal/source) collect the desired files, loads the state of the last run, plans the actions
-- (internal/deployer/planner.go), executes them (executor.go), and saves the state (state.go).
--
-- Files and code:
--   Source, Source.Pipeline     internal/source/{types,pipeline,relocate,plugin_dotd,lazy_file,
--                               plugin_conflict_strict}.go: File is a record of what the methods
--                               return; a plugin is a function that may fail.
--   Deployer.Types              internal/deployer/types.go: actions and SortActions (sort_actions).
--   Deployer.Planner            internal/deployer/planner.go: planOne (plan_one) and Plan (plan).
--   Deployer.Executor           internal/deployer/executor.go: Execute (execute); applyFS is apply_fs,
--                               made of delete_fs, link_fs and file_fs over the disk of Os.
--   Deployer.Paths              RelToRoot, AbsFromRoot and PrettyPath of executor.go.
--   Deployer.Store              internal/deployer/state.go: the keys of Load and Save.
--   Dotfiles                    internal/dotfiles/manager.go, hooks.go and DropIgnored of
--                               internal/deployer/ignore.go.
--   Archive                     internal/archive/path.go: PathWithinDest, JoinWithin and
--                               SymlinkTargetWithin.
--   Atomic                      internal/atomicfile/atomicfile.go call by call; Os has Write as two steps.
--   Resolution                  internal/tool/resolution/resolver.go: which version of a tool is asked
--                               for, and its binary.
--   Driver                      pkg/driver/driver.go: Register, SetWeights, Get and Doctor.
--   Lsp                         internal/lsp/config.go: which servers a language has.
--   Lsp.Frame, Lsp.Merge        internal/lsp/jsonrpc.go and merge.go.
--   Lsp.Proxy                   internal/lsp/proxy.go and docs.go: documents, servers, and requests (Lsp.Proxy.Requests); the
--                               goroutines that send notifications run in any order (deliver).
--   Semver                      internal/semver/semver.go.
--   Spec                        internal/parse/spec/spec.go.
--   Modfile                     internal/modfile/{sumfile,sumops}.go: the tools of the lock file.
--   Modfile.Renovate            internal/modfile/renovate.go: MergeRenovateDependencies.
--   Env                         pkg/driver/env/driver.go: ExpandPath and NormalizeURL.
--   Env.SearchPath              MergeEssentialPaths of driver.go.
--   Taskgroup.LineFilter        pkg/taskgroup/linefilter.go: the one-line terminal.
--   Taskgroup.Collection        pkg/taskgroup/task_collection.go: the live tasks, by id and description.
--   Taskgroup.Group             pkg/taskgroup/taskgroup.go: Go and the parts of runTask. Group.Runs has
--                               them as steps of goroutines (step), and runs as lists of events.
--   Taskgroup.Map               pkg/taskgroup/map.go: Map.Run over the children of a group.
--   Taskgroup.LineWriter        pkg/taskgroup/linewriter.go: the hub of rows, Write, Close and abandon.
-- FilePath, Os, Taskgroup.Utf8 and parts of Prelude stand for functions of Go's standard library.
--
-- Text is a list of bytes, a row a list of runes, a map an association list whose lookup takes the
-- first entry. An `int` is a natural number where the code holds no negative one. The disk maps a path
-- to a node, paths are not followed through symbolic links, and a predicate says which other calls
-- fail. There, writing a file is two steps, up to the rename of the temporary file and the chmod behind
-- it; Atomic has all of them.
--
-- Fuel: tab_loop has more rounds than there are columns, and its `none` means that the loop goes on.
-- The rounds of write are the bytes of its input and one more, since each round takes a byte, and so are
-- those of read_header. decimal_from has more rounds than the number has digits.
--
-- A goroutine takes its steps between the places where it waits. An event that cannot be taken ends a
-- run with `none`, so that theorems on runs hold for each order that the code allows.
--
-- Not modelled: the planner and the executor use the map of taskgroup as a run in input order that stops
-- at the first error, and Taskgroup.Group has the interleavings; groups of groups; what hooks do
-- outside; logs and warnings. JSON, which paths git ignores, the digest, the compatibility checks and
-- the constructors of drivers, the start and the replies of language servers, and the resolution of
-- symbolic links are parameters. Lines of .tool-versions are cut into fields at ASCII white space. The
-- other parts of the program call the system or third-party libraries.
pub mod Prelude
pub mod Archive
pub mod Atomic
pub mod Deployer
pub mod Dotfiles
pub mod Driver
pub mod Env
pub mod FilePath
pub mod Lsp
pub mod Modfile
pub mod Os
pub mod Resolution
pub mod Semver
pub mod Source
pub mod Spec
pub mod Taskgroup
