-- ===== src/Lib.antt =====
-- Verification of Compose Manager's backend, a server that finds Docker Compose projects below some
-- scan roots, shows and updates them, and deletes images and whole projects on request.
--
-- The parts, and the code that each models:
--   Base        lists, texts as lists of bytes, maps as association lists, Boolean tests
--   Filepath    the lexical half of Go's path/filepath on Unix: Clean, Join, Dir, Base, Rel
--   Model       backend/internal/model/model.go, the records of backend/internal/docker/removal.go
--   Auth        Limiter: backend/internal/auth/limiter.go; Store: the tables of users and sessions of
--               backend/internal/store/store.go; Manager: backend/internal/auth/manager.go
--   Api         backend/internal/api: Gate is the middleware authenticate, Accounts the requests on
--               accounts, Handlers the others, Routes the table and a request's whole way
--   Compose     Identifier: the pattern of project keys; Guard: backend/internal/compose/pathguard.go,
--               and PathContains, RemovalDirectory and checkRemovalMounts of removal.go and
--               removal_linux.go beside it
--               Runner: runner.go there, the arguments and the writer of the output; Keys: the keys of
--               projects in discovery.go; Editor: editor.go, saving and restoring; Workspace:
--               workspace.go, as Listing, Writing and Projects
--   Docker      Logs and Usage: parts of backend/internal/docker/engine.go and removal.go
--   App         References and Images: the image list and DeleteImage of
--               backend/internal/app/service.go; Removal: backend/internal/app/project_removal.go and
--               removal_paths.go, as Paths, Plan and Delete; Tasks: the update tasks of service.go
--
-- The deletion of a project calls the guard for the paths, and the same comparison of image references
-- as the image list. Its state is the map of tickets; what it does to the host is a trace of effects,
-- the newest first. What it reads of Docker, of the files and of the file system at one time is a
-- `World`, which the environment gives for each trace; whether an effect succeeds is given the same way.
-- A function that returns an error in Go returns a sum or a result type; the texts of the messages are
-- constructors. Locks are left out: what a method does under its lock is one step, and a lock that
-- cannot be taken is a Boolean of the state. A Go map is a list of its entries; where the code ranges
-- over one, the list's order stands for the order that Go chooses.
--
-- A request meets the middleware, then the route that the multiplexer of net/http chooses, a parameter,
-- then the handler. Requests on accounts work on the limiters, the manager and its tables; the others
-- call the service, whose operations are an interface over its state. A `Host` gives the clock, the
-- digest and the failures of the database at one call.
--
-- The editor's state is the files and the versions, the workspace's the files and the directories; a
-- `Site` gives which calls of a save fail and the names that the operating system gives to temporary
-- files. A new directory is made with its parents, which are looked up in as many rounds as its path has
-- elements.
--
-- Numbers are unbounded, but the sums of memory figures are those of 64 bits: counts stay below the
-- lengths of lists, and times are nanoseconds or seconds since a start. The loop that looks for the
-- existing part of a path runs on fuel, one round for each element of the path and one for the root: each
-- round drops the last element, and the search ends at the root. `filepath.EvalSymlinks`, `os.Stat` and
-- the table of mounts are parameters, fields of `System`. Texts are bytes, and letters are lowered and
-- spaces trimmed as in ASCII: names with other letters or spaces are outside the model.
--
-- Not modelled: the hashing of passwords, the tables other than users and sessions, the headers and the
-- log of requests, the scan of the discovery, the registry client, the read caches and statistics. The
-- reading of Compose files, Docker's answers and SHA-256 stand as what the environment answers.
pub mod Base
pub mod Filepath
pub mod Model
pub mod Auth
pub mod Compose
pub mod App
pub mod Docker
pub mod Api
