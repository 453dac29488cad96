-- ===== src/Lib.antt =====
-- A model of kranq, which runs CI jobs in disposable virtual machines, with proofs of what its parts
-- do. Paths below are from the root of the repository.
--
-- The parts and how they interact. A push arrives over ssh or http; internal/gitsrv decides which
-- repository it names and what its options ask for, internal/task checks the task file that it
-- brings, and a task record enters the store (internal/state). The scheduler (internal/sched)
-- lists the store at each tick, asks the gate (internal/gate) whether claude may be used and the
-- probe (internal/hostres) whether the machine has room, and launches jobs; what a job returns is
-- settled into the store and may close the gate. A job runs on a chain of images, whose layers
-- come from the Kranqfile of the checkout (internal/project), whose names are hashes of the layers
-- (internal/image/name.go) and which internal/image/manager.go builds, reuses and prunes. A run
-- that must be the only one of its kind takes a fence first (internal/fence), a ref at the remote
-- that git moves only from one known object to the next, and gives it back at its end
-- (internal/run/fence.go). Machines that can be pushed to stand in a registry (internal/peer), and
-- internal/token holds who may push over http.
--
-- Files:
--   Base            lists, integers, bytes, Go's strings and strconv functions as far as used
--   State           internal/state/task.go (State/Task) and store.go (State/Store)
--   Hostres         internal/hostres/hostres.go: Fits and FitsCPU
--   Gate            internal/gate/gate.go
--   Sched           internal/sched/sched.go: Tick, launch and block in Sched; the types and the
--                   decision about a task in Sched/Defs; execute, settle, Cancel and Recover in
--                   Sched/Outcome; every interleaving of these in Sched/World
--   Project         internal/project/lex.go (Project/Fields and Project/Lex), kranqfile.go
--                   (Project/Kranqfile), and of project.go the types and bind (Project/Bind)
--   Image           internal/image: name.go (Image/Name), meta.go (Image/Meta), and manager.go: the
--                   driver and Destroy (Image/Machine), the scripts of a layer (Image/Script),
--                   Ensure and the builds (Image/Build), Prune and heads (Image/Prune)
--   Peer            internal/peer/registry.go
--   Token           internal/token/token.go
--   Gitsrv          internal/gitsrv: options.go (Gitsrv/Options), the names of repo.go
--                   (Gitsrv/Repo), quoting (Gitsrv/Quote), ssh.go (Gitsrv/Ssh), retain.go
--                   (Gitsrv/Retain); ParseResult, with the line of internal/cli/githook.go that
--                   it reads and the exit code of internal/cli/push.go (Gitsrv/Result)
--   Fence           internal/fence: fence.go (Fence/Defs) and ops.go (Fence/Ops), git as they use it
--                   (Fence/Git, with an instance in Fence/Memory), the calls of clients and what each
--                   may do (Fence/Calls); internal/run/fence.go (Fence/Settle)
--   Task            internal/task/spec.go (Task/Spec)
--   Tests           runs on concrete inputs
--
-- State and operations. A Go struct is a record with the fields that modelled code uses, a method
-- is a function from the old record to the new one, and an error is a constructor of a data type,
-- whose text is kept only where a task's record keeps it. A function has the Go function's name in
-- snake case. A Go map is an association list. Strings are lists of bytes, and white space and
-- letter case are those of ASCII. A time is a number of nanoseconds, 0 for the zero time, and in
-- Token and Gitsrv/Retain of seconds. The memory and the cpus that the scheduler adds and subtracts
-- wrap around at 64 bits, and strconv.Atoi keeps these bounds; other counts and times are unbounded.
-- A range over the runes of a string goes over the bytes of its runes written again (Base/Utf8).
--
-- Parameters. Code outside the repository is an argument: sha256 with its rendering in hex, the
-- renderings of numbers and times, gzip with base64, floating-point numbers, JSON, and for each
-- write of a file a flag that says whether the operating system took it. git, as the fence uses
-- it, is a record of commands on an unknown world (Fence/Git), with what is documented of
-- --force-with-lease, --atomic, ls-remote and commit-tree as its laws, which are about fences and
-- objects whose names are written in full: a push of what a fence points at already succeeds
-- whatever the lease says, and ls-remote may list other refs whose names end alike. limactl,
-- behind vm.Driver, is a record of calls on an unknown world of machines (Image/Machine), with
-- which machines there are after each call as its laws. A mutex makes a method one step;
-- Sched/World lets the steps of the scheduler's goroutines follow each other in any order. While a
-- process waits for the lock of an image, others may act: the host after the wait is a parameter.
--
-- Fuel. The loop over the lines of a Kranqfile takes one unit for each line, since each turn
-- leaves fewer lines. The loop over the flags of an ssh command takes one more than there are
-- bytes, since each turn leaves a shorter text. The walk from an image to its ancestors takes two
-- more than there are records, since each turn but the last two keeps one more name that has a
-- record. All other loops are recursion on their list.
--
-- Not modelled: the rest of the command line, the daemon's socket, http, the processes that run in
-- a machine, git and limactl themselves, the files under the store with their JSON, the reading of
-- a checkout, the sizes of machines, the shell text of a job, the keys, the texts of errors, and
-- the limit of bufio.Scanner on the length of a line.
pub mod Base
pub mod State
pub mod Hostres
pub mod Gate
pub mod Sched
pub mod Project
pub mod Image
pub mod Peer
pub mod Token
pub mod Gitsrv
pub mod Fence
pub mod Task
pub mod Tests
