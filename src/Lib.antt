-- ===== src/Lib.antt =====
-- TuxBridge: a server that exposes configured operations of a Linux host over HTTP.
--
-- Parts and files (paths from the repository's root):
--   Auth         src/auth.rs: the middleware `require_api_key`; `admit` is all that runs before `next.run`
--   Approvals    src/approvals.rs: the approval store, one function for each method
--   RolePolicy   src/role_policy.rs: the rules made from the two embedded documents, `route_matches`
--   Security     src/security.rs: profiles, `validate_default_shell`
--   Config       src/config.rs: types, defaults, `validate`, `auth_principals`
--   Events       src/events.rs; Audit: src/audit.rs; Ring: the bounded deque of both
--   State        src/state.rs: the record that the handlers share; Ids: the counters' identifiers
--   Error        src/error.rs: `ApiError`, and `Result` with `?` as `>>=`
--   Hardening    src/hardening.rs: the outermost middleware, `begin` and `conclude` around the handler
--   Paths        std::path by components; Host: the file system and SHA-256, a parameter; Host/Memory: one for tests
--   Mutation     src/mutation.rs: resolution and guards; Mutation/Write: the handlers and `atomic_write`
--   GitMutation  src/git_mutation.rs: the checks and the git commands of the five handlers
--   Process      child processes, a parameter, and the chain of steps that start them
--   Git          src/git.rs: Git/Parse the parsers, Git/Handlers the four handlers
--   GitExtra     src/git_extra.rs: head, remotes, stashes
--   Workspace    src/workspace.rs: the listing of workspaces and `resolve_path`
--   UserFiles    src/user_files.rs: UserFiles/Resolve the guards, UserFiles/Read and UserFiles/Write the handlers
--   Excerpt      the beginning of a file as text, which src/fs.rs and src/user_files.rs share
--   Fs           src/fs.rs: Fs/Read list, stat and read; Fs/Search the search, with a depth as fuel
--   Sessions     src/sessions.rs: the store; Sessions/Files its file operations, Sessions/Handlers the handlers,
--                Sessions/Writes what the writes of a rollback are
--   Lsp          src/lsp.rs: Lsp/Positions, Lsp/Edits and Lsp/Workspace, positions and edits
--   Jobs         src/command.rs: the store of background jobs, one function for each method
--   Json, Http   the values and messages that these parts read
--   Prelude      text, UTF-8, dictionaries, lists, tests
--
-- Text is a list of Unicode scalar values, and `len` counts UTF-8 bytes. A `HashMap` or `BTreeMap` is an
-- association list. A method that holds a lock from its first read to its last write is one function
-- from state to state. The clock, the environment and the parsed JSON documents are arguments. A
-- message keeps the parts that `format!` joins. `u64` counters wrap at 2^64 where the code adds
-- with `fetch_add`; theorems that need it bound the number of steps. A loop over text takes its length
-- as fuel, which each round shortens; the recursion over directories takes a depth, which is
-- enough when it is two more than the parts of the longest path that the host accepts. Requests may
-- interleave between steps that hold a lock. Where a slice in `git_status` can panic, the model answers
-- `none`.
--
-- Not modelled: the axum router and the parse of requests, tokio's channels and tasks, serde, TOML,
-- the processes of language servers and of commands. Of src/command.rs only the store of jobs is here, of
-- src/lsp.rs only positions and edits. src/code_tools.rs, src/raw_command.rs, src/project.rs,
-- src/verification.rs, src/repo_map.rs, src/structural.rs, src/diagnostics.rs, src/system.rs,
-- src/lsp_status.rs, src/doctor.rs, src/bonus.rs, src/dashboard.rs and src/main.rs are not modelled.
pub mod Prelude
pub mod Error
pub mod Ids
pub mod Json
pub mod Security
pub mod Config
pub mod RolePolicy
pub mod Ring
pub mod Events
pub mod Approvals
pub mod Audit
pub mod State
pub mod Http
pub mod Auth
pub mod Hardening
pub mod Paths
pub mod Host
pub mod Mutation
pub mod Workspace
pub mod Excerpt
pub mod UserFiles
pub mod Fs
pub mod Process
pub mod GitMutation
pub mod Git
pub mod GitExtra
pub mod Sessions
pub mod Lsp
pub mod Jobs
