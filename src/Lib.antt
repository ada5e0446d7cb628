-- ===== src/Lib.antt =====
-- kelinode-rs is the node agent of a proxy panel: it takes nodes and users from the panel, runs a
-- proxy core with them, forwards ports to its nodes and reports traffic. This library models the
-- parts below, in functions that can be run, and proves what makes them correct.
--
-- * User (src/user.rs): the cached users of a node and the changes that the panel sends, whole or as
--   a delta. `UserSyncState` is the state; `apply_user_delta_body` and `apply_full_user_list` are its
--   steps, `user_delta_body_diff` announces what a step will do, and `apply_user_delta`,
--   `compare_user_list` and `compare_incremental_delta` are their loops. The children say what they
--   do uuid by uuid: User/Lookup how lists are read, User/Loops and User/Delta the loops as maps,
--   User/Applied, User/Diff and User/Incremental the three functions, User/Agree and User/Sync how
--   they agree.
-- * Panel (src/panel/types.rs): a node as the panel describes it, with the fields that are read here.
-- * PortForward (src/port_forward.rs): the iptables rules that redirect external ports to nodes.
--   PortForward has the ranges and matchers, PortForward/Parse the parser of port lists,
--   PortForward/Rules the builders for Hysteria2 and Mieru, PortForward/Spec the text of rules,
--   PortForward/Commands the commands, PortForward/Inspect, PortForward/Tools and
--   PortForward/Repair inspection, repair and cleanup over an executor. The other children have the
--   proofs: Ranges, Matchers, Chunks and Parsed of the ports that are covered; Building, Disjoint,
--   Safety and Mieru of the rules built; Args, Complete, ServedPorts and Served of the ports that
--   they must match; Fields, Managed, Added and Difference of the text and the commands;
--   Unprivileged and Reports of the executor.
--   The rules take the nodes of Panel; the runner calls inspection and repair.
-- * Report (src/report.rs): the traffic that the core counted, merged by node and user
--   (`keli_core_traffic_snapshots_with_user_lookup`), and its report to the panel, by one route or by
--   the two older ones, for each node of a batch (Report/Batch). Report/Merged,
--   Report/Online and Report/Delivery have the proofs.
-- * Runner (src/runner.rs): the three runtime loops over callbacks that refresh the users and run a
--   tick, and the events that interrupt a pause. Runner/Exit and Runner/Events have the proofs.
-- * Upgrade (src/upgrade.rs): the state of an upgrade, its requests, and the quoting of values for the
--   shell. Upgrade/Requests and Upgrade/Quoting have the proofs; the command is that of Runner's
--   signal.
-- * SubscriptionProxy (src/subscription_proxy.rs, and its configuration in src/config.rs): the proxy
--   that serves subscriptions and websites of the panel under the node's own address. Its state is
--   the `SubscriptionProxyRuntimeManager` of SubscriptionProxy/Manager, and
--   `apply_and_start_with_file_system` its step: it normalises a configuration
--   (SubscriptionProxy/Normalize), prepares the certificate and the validation file
--   (SubscriptionProxy/Certificate), plans what to do by a fingerprint (SubscriptionProxy/Apply) and
--   starts or stops the servers. A request is read from the stream (SubscriptionProxy/Http/Reader),
--   parsed (SubscriptionProxy/Http), routed to a site, a website or a file (SubscriptionProxy/Route,
--   with the paths, the escapes and the websites of SubscriptionProxy/Paths,
--   SubscriptionProxy/Percent and SubscriptionProxy/Website), fetched with the headers of
--   SubscriptionProxy/Headers, and answered by SubscriptionProxy/Response. SubscriptionProxy/Serve is
--   one connection from the reads to the reply, for the handlers of the servers. The files below
--   these have the proofs; SubscriptionProxy/Http/Printed is a request as a client writes it.
-- * Machine (src/machine.rs, and its configuration in src/config.rs): how the answers of the panels of
--   a machine's profiles become the nodes to run, the failures, and one configuration of the
--   subscription proxy, by `resolve_machine_profiles` (Machine/Resolve) with the names of
--   Machine/Names, the sites of Machine/Offered and the merging of Machine/Merge. Machine/Resolved,
--   Machine/Summary, Machine/Answered and Machine/Keys have the proofs on nodes and failures,
--   Machine/Pushed, Machine/Sites and Machine/Served those on the proxy, which SubscriptionProxy
--   then applies.
-- * Realtime (src/realtime.rs, and the worker of src/runner.rs): the messages of the panel over the
--   websocket and the receipts that answer them (Realtime), the options of a connection
--   (Realtime/Options), and the worker that hands what is asked to the runtime loop of Runner
--   (Realtime/Worker, `serve_realtime_runtime_transport`), with its proofs in
--   Realtime/Worker/Answers.
-- * BTreeMap and Prelude: the standard library as far as the code uses it, with the strings, the
--   numbers and the UTF-8 of Rust.
--
-- A `str` is the list of its scalar values; the tests on letters and digits are those of ASCII, as in
-- the code. A `u16` or `u32` is a natural number, with the bound written out where the code meets it.
-- The error of a `Result<_, String>` is the message or, where the code formats one, the case of the
-- message with what it quotes. A `BTreeMap` is the list of its entries in the order of the keys. Loops
-- are recursion on the list they run over. `flush_chunks` has fuel, the number of ports, since each
-- round takes one port or more; the runtime loops have fuel for each round, and one more than
-- `max_ticks` is enough. The stream of a request is the list of what its reads return. The files, the
-- `openssl` call, the servers of the proxy and what a connection does but read are the operations of
-- the records `Files`, `Servers` and `Stream` over the state of the machine, and the fetch of an
-- upstream is a parameter; so are the operations of
-- a connection (`RealtimeRuntime`) and those of the crate `url` (`Urls`). A trait
-- (`PortForwardExecutor`, `NodeActivitySender`, `RuntimeLoopCallbacks`, `UpgradeExecutor`) is a record
-- of its methods over a state, and the theorems on it hold for each such record.
--
-- Not modelled: what only does input and output (the HTTP and websocket clients, the processes and
-- the files, `SystemPortForwardExecutor`, the paths and the storage of the cached users, the sockets,
-- the TLS and the loops over connections of the subscription proxy), the JSON of the core's configuration, the script
-- of an upgrade, and the ticks of the runner.
pub mod Prelude
pub mod BTreeMap
pub mod User
pub mod Panel
pub mod PortForward
pub mod Report
pub mod Runner
pub mod Upgrade
pub mod SubscriptionProxy
pub mod Machine
pub mod Realtime
