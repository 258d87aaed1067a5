-- ===== src/Lib.antt =====
-- A model of rinit, an init system for small Linux devices: the crate rinit-core, which decides and
-- never makes a system call, the command line of its client rctl, and of the crates that act the
-- mounts of /etc/fstab and the setting up of a unit's cgroup, with the system calls as parameters.
--
-- The parts, and the files that model them:
--   crates/rinit-core/src/unit/mod.rs             Unit/Name.antt: names, their parsing, their types,
--     templates and instances. Every other part speaks of units by these names.
--   crates/rinit-core/src/unit/template.rs        Unit/Specifiers.antt: `substitute`.
--   crates/rinit-core/src/unit/state/*.rs         Unit/State.antt: states, events and effects, the
--     table `transition` and the loop `drive`.
--   crates/rinit-core/src/unit/config.rs          Unit/Config.antt: the configuration of a unit with its
--     defaults, and the values of its directives.
--   crates/rinit-core/src/unit/parser.rs          Unit/Parser.antt: from the text of a unit file to a
--     configuration. Its child modules are the stages: Lexing has the lines, comments, sections,
--     entries and tokens, Values the values, Directives the keys by section and what each sets,
--     Running the loop over the lines and the checks at the end; EnvironmentFile is a parser of its
--     own.
--   crates/rinit-core/src/unit/cgroup.rs          Unit/Cgroup.antt: the files that limits become, and
--     in Unit/Cgroup/Setup.antt `Cgroup::setup` of crates/rinit/src/cgroup.rs, which writes them.
--   crates/rinit-core/src/unit/sandbox.rs         Unit/Sandbox.antt: the steps of a privilege drop.
--   crates/rinit-core/src/unit/job.rs             Unit/Job.antt: the queue that merges requests into
--     targets, and `reconcile`, which compares a target with the actual state.
--   crates/rinit-core/src/unit/restart.rs         Unit/Restart.antt: the delays between restarts and
--     the breaker that ends them. Its answer is the event (a timer's end, or the tripped limit)
--     that the state machine sees in `restart_wait`.
--   crates/rinit-core/src/unit/dependency.rs      Unit/Dependency.antt: the graph and the names of its
--     units, with child modules for the steps: Building makes the graph of a unit directory and the
--     schedule of a boot, Scheduling orders it, finds a cycle, assigns levels and follows
--     activations, Sockets turns socket paths into dependencies. Units are indices into the sorted
--     names, as in the code.
--   crates/rinit-core/src/unit/notify.rs          Unit/Notify.antt: the datagrams of sd_notify.
--   crates/rinit-core/src/ratelimit.rs            RateLimit.antt: the limiter of console output.
--   crates/rinit-core/src/control.rs              Control/Codes, Wire, Requests and Responses: the
--     protocol between rctl and rinit.
--   crates/rinit-core/src/logger.rs               Logger.antt: the ring of service output.
--   crates/rinit-core/src/users.rs                Users.antt: users and groups by name.
--   crates/rctl/src/parse.rs                      Rctl.antt: the arguments of rctl, with Options for
--     the loops over options and Commands for the commands. What it makes are the requests of
--     Control/Requests.
--   crates/rinit-runtime/src/fstab.rs, mounts.rs  Fstab.antt: the lines of /etc/fstab and the escapes of
--     /proc/mounts, Fstab/Options.antt the option field, Fstab/Mounting.antt the second wave,
--     Fstab/Trace.antt its run call by call and Fstab/InUse.antt what it passes over.
-- A file's child modules hold its theorems, named for what they are about, and `Samples`, where each
-- of them is applied to concrete values. Prelude holds what is shared: lists under native indices,
-- machine words, the slice operations and the UTF-8 reading of Rust's standard library as it
-- documents them, and the ordered map that stands for BTreeMap.
--
-- How the code is written here. A struct is a record, an enum a data type with the source's cases.
-- A method that changes `self` takes the old value and returns the new one, with its answer behind
-- it. A text is its list of code points; where the code looks at bytes of a name the two agree,
-- since a name's characters are ASCII; datagrams and the bodies on the wire are lists of bytes. A
-- u16, u32 or u64 is a natural number with the word's saturation or wrap-around written out
-- (Prelude/Word). Loops are recursion on the list that they consume, or on the number that they
-- count down. Two have fuel: following activations (`visit`) pops the target and every edge at
-- most once, so their number is enough, and the search for a cycle (`search_cycle`) passes every
-- edge and finishes every unit at most once, and has that number of turns for each unit that it
-- starts from. The jitter's generator is computed as the code computes it, and the theorems on
-- delays hold for whatever it yields. Lengths of slices are taken to fit in a usize where the code
-- adds to them, and that is a condition of the theorem where it matters.
--
-- Messages for people are data types with a case for each, which keep the text that they show. A
-- system call is a function of a record (`Kernel`, `MountOps`) that the theorems hold for all of; its
-- log lines are left out. The MS_* bits of a mount are distinct, so a word of flags is the function
-- that tells which are set. The escapes of /proc/mounts and the characters that the unit files'
-- grammar names are ASCII, so the loops over bytes are loops over characters.
--
-- Not modelled: Display and the texts for people, `JobQueue::targets` (a sorted copy for display),
-- of crates/rinit/src/cgroup.rs all but `setup`, `run_with` of fstab.rs, which reads the file, the
-- unit manager, the boot and the other modules of the crates that do input and output.
pub mod Prelude
pub mod Unit
pub mod RateLimit
pub mod Control
pub mod Rctl
pub mod Fstab
pub mod Users
pub mod Logger
