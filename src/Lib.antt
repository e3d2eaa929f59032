-- ===== src/Lib.antt =====
-- Phronesis: the supervisor of agent processes and the policy checks on what they do.
--
-- The program is a C library. A supervisor (src/supervisor.c) keeps up to sixteen agents in slots, in
-- memory and as one-line files, starts, binds, observes and stops their processes, and writes what
-- happens to an action log (src/action_log.c). A policy check (src/policy.c) decides on a tool, an
-- action and a path of an agent: deny, allow or prompt. src/phronesis.c is the command line around it,
-- and src/capnp_api.c serves the checks as Cap'n Proto messages. A shell command is decided twice: by
-- the rules on its directory, and by policy packs (src/policy_janet.c), Janet programs that are loaded
-- from files which src/beneath.c opens below a directory. Playground builds keep a ring of trace events
-- (src/policy_trace.c). The directories come from src/paths.c, and a process may be placed in
-- a control group by src/cgroup.c. The C code around the library is modelled as its clients: the binding
-- for Rust, which builds a message and has it checked, the C functions of the playground's page, the tool
-- that exports a message to a file, and the example of the C interface.
--
-- Files:
--  Base: bytes, C strings, int and decimal numbers; tests and list lemmas shared by the others.
--  Path: the components of a path, and the byte tests on paths.
--  Policy: src/policy.c and src/policy_reason.c (path_under_workspace, path_is_sensitive,
--    phronesis_policy_eval, phronesis_resolve_script, phronesis_map_admit_kind).
--  World: the file tree and the system calls. A call is answered by the record Os, as a function of
--    the calls before it, so that a failure may happen at every point.
--  ActionLog: src/action_log.c (json_escape, phronesis_action_log_append, phronesis_action_log_last).
--  Paths: src/paths.c (mkdir_one, phronesis_paths_ensure_dir, phronesis_paths_resolve).
--  Cgroup: src/cgroup.c, the Linux variant.
--  Supervisor: src/supervisor.c. Types holds its state, SlotFile the file of a slot, Slots the table,
--    Process the signals, Lifecycle start, bind, status and stop, Check phronesis_policy_check, Runs these
--    calls one after another, with any changes of the world in between.
--  Beneath: src/beneath.c (phronesis_beneath_rel, walk_open, phronesis_beneath_open), over a kernel that
--    answers each call on descriptors as a function of the calls before it.
--  Cli: src/phronesis.c, the options and the commands of main, with exit codes and stdout.
--  Trace: src/policy_trace.c. Ring is the ring and the event under construction, Json the export with
--    its growing buffer, Host the functions that packs call.
--  Pack: src/policy_janet.c. Paths and Files hold the tests on pack paths and the pack root, Listing and
--    Spec the specification of packs (parse_pack_spec), Compile and Image how one pack is loaded
--    (compile_pack, load_pack_image), Load the loaded packs (load_packs_from_spec and the reload), View the
--    view of a command, Compose and Shell the answers of the packs (compose_pack_entry). ImageMain is
--    src/pack_image_main.c, the tool that writes an image.
--  Wire: src/capnp_api.c on decoded messages: Checks and Shell the checks (phronesis_check_seat, _model,
--    _path, _risk, _shell and _audio) and the reload, Admit the admits and the agent status, Status
--    phronesis_status with src/version.c, Message the loops that write a message, Emit the messages that
--    answer a check (emit_decision, and build_policy_decision_reason of src/policy_janet.c), Events the
--    trace events of the checks of a seat, a path and a shell command (PD_TRACE_EVENT there and in
--    phronesis_policy_eval).
--  Clients: Message the loops write_msg of the clients; Encode the message that two of them build; Rust
--    crates/phronesis-sys/csrc/shell_encode.c; Export playground/scripts/export_shell_msg.c; Playground
--    playground/wasm/embind_api.c; Minimal examples/c/minimal.c.
--  Tests: the definitions on concrete inputs.
--
-- A char is a number, a char pointer is an optional list of bytes without a NUL, and NULL is none. A
-- function that stores to an out parameter returns what it stores. int and pid_t are unbounded
-- integers here: "%d" of a value outside of int is undefined in C. The loop that reaps a process group
-- runs on fuel, one more than the number of children that the group can hold (Os.group_size): every
-- turn but the last reaps a child. The waits of kill_tree are bounded in the source. Out parameters and
-- the supervisor handle are taken to be given, as every caller in the repository passes them; memory is
-- taken to suffice, but for the allocations that Trace and Pack ask for.
--
-- The Janet interpreter is the record Janet, over values V and a heap H that every call may change. The
-- record System answers the questions about pack files: stat, opendir, reads and allocations are functions
-- of the number of questions asked before, so that files may change between any two. A codec is a record of
-- partial functions between bytes and messages. A Writer is what the Cap'n Proto runtime writes of a
-- message into a buffer of a given size; that a reader finds in a written message what was put into it
-- (ReadsFields, ReadsShell, ReadsBack) is a hypothesis, which Tests.Codec shows of a concrete codec. The
-- loops that double a buffer run on fuel: 65 rounds for the trace, whose size_t has 32 bits, as in the
-- wasm32 build of the playground, or 64; a need of at most half of SIZE_MAX + 1 bytes never exhausts them.
-- For a message they are 8, since its buffer doubles from 8 KiB to 1 MiB in seven
-- (Wire.Message.write_msg-ends). What a buffered stream has flushed in the end is given apart from what
-- fwrite returns (Clients.Export.Sink). strlen is below 2^64, and its conversion to int keeps the low 32 bits.
--
-- Not modelled: the Janet interpreter and the Cap'n Proto runtime themselves, which are parameters; the
-- tables of functions that a pack image may name, which are the interpreter's; the trace events that
-- packs and their loading make in playground builds, which are a parameter in Clients.Playground;
-- the generated readers and writers of messages; the vendored copies under crates/ and third_party/, the
-- Rust code, the Janet packs, and the page, the scripts and the build files of the playground.
pub mod Base
pub mod Path
pub mod Policy
pub mod World
pub mod ActionLog
pub mod Paths
pub mod Cgroup
pub mod Supervisor
pub mod Beneath
pub mod Cli
pub mod Clients
pub mod Wire
pub mod Trace
pub mod Pack
pub mod Tests
