-- ===== src/Lib.antt =====
-- lxcri: an OCI container runtime on top of liblxc, in Go. The runtime checks a spec, turns it into
-- configuration items of liblxc, starts a monitor process that in turn starts lxcri-init in the
-- container, and unblocks, signals and deletes the container later on.
--
-- The parts and their files:
--
-- Base: text, paths, integers, errors and lists; Base/Host is the kernel, the file system and liblxc.
--   A function that changes anything takes the history of the calls made so far and returns its result
--   with the longer history. Every query, and the outcome of every call, is a function of the history,
--   so that a theorem for every host holds for every interleaving with other processes.
--   Base/Poll is the loop `for { select { case <-ctx.Done(): … default: … } }` of container.go and
--   cgroup.go. It runs on fuel, with an error of the model's own when that is used up. One unit
--   more than the rounds before the context is done is enough, since a round looks at the context
--   first.
--   Base/Calls has the sequences of calls that a host takes, in which the theorems say what was done.
-- Oci: the types of the OCI specification, with the fields that are read. Settings: `Runtime` of
--   runtime.go. Config: the wrappers around configuration items of container.go.
-- Specki: pkg/specki/specki.go. IdMap has `UnmapContainerID` over uint32, Env has `Getenv`, `Setenv`
--   and `cleanenv` of create.go, Devices has `IsDeviceEnabled` and `AllowEssentialDevices`, Json the two
--   functions on JSON files, NewSpec the constructors of specs.
-- Namespaces: namespaces.go. Seccomp: seccomp.go. Mounts: mount.go; Mounts/Made is about the creation of
--   destinations, Mounts/Entries about the entries that are written, Mounts/Resolved about their order.
-- Create: the steps of create.go and init.go. Create/Userns has `configureUserNamespace`,
--   Create/Configure composes the steps to `configureContainer`, and Create/Instance has `Create` with
--   `create` of container.go and `runStartCmd` of runtime.go; Create/Kept, Create/Sound,
--   Create/Started and Create/Created are about what they have done, step by step, and Create/Ends and Create/Total about its errors.
-- Hooks: `RunHook` and `RunHooks` of pkg/specki/specki.go, `configureHooks` of create.go, the program
--   cmd/lxcri-hook (Program, Environment) and the program cmd/lxcri-hook-builtin (Builtin) with `InitHook`
--   of pkg/specki/specki.go.
-- Cgroup: cgroup.go. Events has the events file and the freezer, Kill `killCgroup`, Delete
--   `deleteCgroup` with its ten levels, SystemdPath, Devices and Configure the set-up.
-- Container: container.go. State has `ContainerState`, Status `State`, Wait the loops that wait for the
--   monitor and for the init process, Attach the options of `Exec`, Log has `SetLog`.
-- Runtime: runtime.go. Check has `checkConfig` and `checkSpec`, Lifecycle has `Load`, `Start`, `Kill`,
--   `Delete` and `List` with the methods of container.go that they call, Setup has `NewRuntime`,
--   `LoadConfig`, `ConfigureLogger` and `Init`. Runtime/Spared has sequences of operations as a step
--   relation, and Runtime/Ends is about the fuel of whole operations, with Base/Free for kinds of errors
--   that no code of the program makes; the files called Free are about the errors of one part each.
-- Init: the init process, cmd/lxcri-init/main.go; Main has `main` and the termination log.
-- Cli: the program cmd/lxcri. Signal and PidFile are utils.go, Commands and Main are cli.go: the actions
--   of the commands, what is set up before them, and the exit code.
-- Examples: a host, a container and runs of the operations on them.
--
-- How they interact: `doCreate` reads the spec and calls `Create`, which checks it, makes the runtime
-- directory, configures liblxc by `configureContainer`, writes the files that the hooks and the later
-- commands read, starts the monitor and waits for lxcri-init; on an error `doCreate` calls `Delete`.
-- `Delete` calls `killCgroup`, the wait for the monitor, liblxc, `deleteCgroup` and the hooks; `Start` opens
-- the fifo that the init process blocks on, and waits until the command line of that process shows that
-- it has executed the container process; `configureHooks` registers the program that runs the hooks;
-- `Init` adds the built-in hook program to them; the essential devices and their rules are what the
-- device controller writes.
--
-- Parameters: what JSON and YAML decode to and encode as, the parsers of log levels and signal names, the
-- encoding of a device number, and uname.
--
-- Of a container the spec is given: the code follows the pointer to it without a test, and a container
-- without one is outside of the model, as is a lxcri.json that has none. The call that starts a hook stands
-- for its pipe and its start together.
--
-- Not modelled: logging, which has no effect on the results, the flag tables and the parser of the
-- command line, the C program of the monitor, and the test program.
pub mod Base
pub mod Oci
pub mod Config
pub mod Settings
pub mod Specki
pub mod Namespaces
pub mod Runtime
pub mod Hooks
pub mod Container
pub mod Cgroup
pub mod Seccomp
pub mod Mounts
pub mod Init
pub mod Create
pub mod Examples
pub mod Cli
