-- ===== src/Lib.antt =====
-- mux is a terminal multiplexer. A daemon, muxd, keeps ptys alive, each with a terminal
-- emulator behind it; clients attach to a pty, get a dump of its screen and then its live
-- output, and may leave, be evicted, come back, and send input. It tells what a coding agent in
-- a pty is doing, and relays panes to daemons on other hosts. This library models the daemon
-- and its wire formats and proves what they promise.
--
-- The parts, by file.
--
--   Frame    crates/mux-proto/src/frame.rs: the envelopes of the lanes and of the length-prefixed
--            messages, over lists of bytes. A reader is a function from the bytes that will arrive
--            before the end of input to what it read and the rest.
--   Audio    crates/mux-proto/src/audio.rs: packets and the filter on their order.
--   Peer     crates/mux-proto/src/peer.rs: requests, replies, snapshots and events.
--   Terminal crates/ghostty-vt/src/lib.rs: the wrapper of the emulator. The emulator itself,
--            libghostty, is fetched by the build: it is the record Ghostty, a parameter throughout.
--   Session  crates/muxd/src/manager.rs and control.rs: the state of one pty (PtySession) and what a
--            single call does to it.
--   Attach   manager.rs (read_loop, attach_on, detach, reap) and crates/muxd/src/server.rs (resize):
--            a pty with its read loop and its clients, as a step relation. A step is what runs
--            without giving up the terminal lock, or a wait that ends; steps interleave freely.
--   Manager  manager.rs: the table of ptys. Manager.Lease has kill, close, reopen, the expiry task
--            and reap; Manager.Adopt has the handoff from a predecessor, Manager.Detecting the
--            task of the agent detector. A session is named by its
--            place in a list that only grows, which stands for the Arc that tasks hold.
--   Server   server.rs and control.rs: from a request to its answer, or to what takes the connection
--            over. What the postcard crate and the texts of errors make of values is the record Wire.
--   Migrate  crates/muxd/src/migrate.rs: the message that hands every live pty to a successor.
--   Agents   crates/agents/src/engine.rs and lib.rs: Agents.Names has the names, Agents.Manifest and
--            Agents.Gate the rules and their compilation, Agents.Region what a rule reads of the
--            screen, Agents.Detect the choice among the rules, Agents.Load the entry to the engine.
--            A slice of a text is none where the code panics.
--   Broker   crates/muxd/src/broker.rs: Broker.Links has the connections that are kept,
--            Broker.Pins the keys of known hosts, Broker.Stream the request on its way out.
--   Client   crates/mux-attach/src/main.rs: Client has the command line, Client.Handshake the request
--            and the reply to it, Client.Pump what is done with the frames of a session,
--            Client.Reconnect the waits for a daemon and the run as a whole. The clock and what comes of
--            each dial are arguments; what the relay does is a list of actions.
--   Daemon   crates/muxd/src/main.rs: Daemon has the command line, Daemon.Upgrade the questions of
--            probe and upgrade.
--   Tokens   crates/muxd/src/tls.rs: the file of authorized tokens.
--   Text     Rust's str, of the standard library, over lists of characters: trim, lines, slices by
--            byte offsets, fields, numbers.
--   AudioRoute crates/muxd/src/audio.rs: the loop of serve_route and the playing end of bridge.
--            AudioRoute.Lease has who may open, join and use a route, with audio/provider.rs.
--
-- The parts interact as in the source: Manager keeps Sessions, which keep Terminals; Attach
-- puts a read loop and clients around one Session; what goes to a client is framed by Frame,
-- and a relay of Client takes it apart and gives it to the terminal of its pane;
-- Session.Detector reads a Terminal and asks Agents; a request that Broker sends is read by
-- Server.Opening at the other end. Answers of the system (the time, process groups, a spawned
-- child, a drawn generation) are arguments. A generation, 128 random bits that the source keeps
-- as text, is a number.
--
-- Machine integers are natural numbers with their wrap-around written out where the source
-- counts (revisions, client ids, devices of a route). Every function recurses on its data but
-- for Server.Incoming.receive and Client.Pump.pump, which run on fuel; more fuel than there are
-- bytes is enough, since a frame takes bytes from the stream. The loops of a relay and of an
-- upgrade recurse on what happens in their turns.
--
-- Not modelled: system calls, the transports and the audio backends, the Swift app, the bytes
-- that the postcard crate makes of a value, and memory ordering: a lock that the source holds
-- is a step of the model. The crates regex and toml and the Unicode tables of lower case are
-- the record Matcher and an argument; a contact with a known host, which reads and then appends
-- to a file, is one step. The loops that watch and observe, the uplink of a relay, and the
-- acquisition of audio are not part of the library yet.
mod Prelude
pub mod Frame
pub mod Audio
pub mod Peer
pub mod Text
pub mod Tokens
pub mod Agents
pub mod Terminal
pub mod Session
pub mod Attach
pub mod Manager
pub mod Server
pub mod Migrate
pub mod AudioRoute
pub mod Broker
pub mod Client
pub mod Daemon
