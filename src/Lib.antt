-- ===== src/Lib.antt =====
-- DWCS: a server that shares a world of versioned objects and hands out tasks under leases to its
-- clients. A client connects, subscribes to tags, acquires tasks, and submits results; a merge
-- function turns a result into updates of the world, and a projector sends each client what has
-- changed in the objects that it may see.
--
-- The parts and their files:
--   Base     Go's results, slices, callbacks and times (Base/Go), lists over the native numbers.
--   GoMap    Go's maps as association lists, in the order in which a loop goes through them.
--   Tags     sets of tags, and the tests that internal/world, internal/task and internal/session
--            share (toSet, tagsIntersect, Session.Unsubscribe).
--   World    internal/world/world.go. `World S` holds the objects and the change callbacks; `apply` is
--            World.Apply, `delete_object` World.Delete, and so on by name.
--   Task     internal/task/task.go. `Registry S` holds the tasks and the two lists of callbacks. Acquire
--            is `acquire`, made of its two critical sections `acquire_check` and `acquire_grant` and
--            of the callbacks between them; `lease_watcher` is leaseWatcher on what its select receives.
--   Session  internal/session/session.go. A *Session is named by its id, and what is written through
--            the pointer is written in the manager's map. The outbox, a channel, is a list.
--   Protocol internal/protocol/protocol.go, with encoding/json as the parameter `Codec`.
--   Metrics  internal/metrics/metrics.go. The log is a list of entries; Metrics/Log makes their text.
--            `claim_begin`, `claim_load` and `claim_end` of Metrics/Race are the steps of TaskClaimed.
--   Merge    internal/merge/merge.go. The merge function is a parameter, nil or not.
--   Projector internal/projector/projector.go; `tick` is one tick, for all sessions.
--   Backend  cmd/server/main.go: the state of the server, and the callbacks that main puts in.
--   Dispatcher internal/dispatcher/dispatcher.go: `handle` is Dispatcher.Handle on the whole server.
--   Transport internal/transport/transport.go: a connection that opens, its lines, and its end, with the
--            callbacks of main; `run` is the life of the server as a list of such events.
--            Transport/Udp is internal/transport/udp.go: the clients by session and by address around
--            the same server, with datagrams in place of lines.
--   AddrBook the two maps, by id and by address, of internal/transport/udp.go and
--            internal/peering/udp.go; and Drain, the loop by which both empty an outbox.
--   Peering  internal/peering: Peering is manager_iface.go, what a node asks of its network; Peering/Peers
--            is peering.go, with a whole connection in Connections and its bytes in Framing; Peering/Udp
--            is udp.go; Peering/FanIn is fanin.go, two managers behind one.
--   Gossip   internal/gossip/gossip.go: the window of seen messages.
--   Peer     internal/peer/peer.go: its event loop, and how a node treats the messages of other nodes.
--   Command  cmd/peer/main.go: what the command line of a peer means, and what a peer submits of itself.
--
-- Conventions. A time is a number of nanoseconds, 0 is the zero time, and what time.Now() returns is an
-- argument: one for each reading, or a function of the task or of the reading's index. A slice is
-- an Option of a list, `none` being nil. uint64 counters wrap at 2^64. The code runs callbacks with no
-- lock held: a callback acts on a state `S` of the caller's choice, and may panic where the code
-- recovers from it. A definition is a method that runs alone, and a history is a list of calls, each of
-- which returns before the next begins. What comes between the steps of a method is there for two of
-- them: Acquire, which unlocks to run callbacks, in Task/Sections and Task/Race; and TaskClaimed of the
-- metrics, which writes the counters of tasks and sessions with no lock held, as the other counting
-- methods do, in Metrics/Race. Loops are structural, but for `drain`, whose fuel is one more than
-- the messages that wait when it starts: Drain/drain_lem is that this is enough to take them all.
--
-- Not modelled: sockets, goroutines, tickers and signals, the flags of cmd, the HTTP endpoint of the
-- metrics, and the log package. The Go files at the root of the repository are copies of those under
-- internal/ and cmd/.
pub mod Base
pub mod GoMap
pub mod Tags
pub mod World
pub mod Task
pub mod Session
pub mod Protocol
pub mod Metrics
pub mod Merge
pub mod Projector
pub mod Backend
pub mod Dispatcher
pub mod AddrBook
pub mod Drain
pub mod Transport
pub mod Peering
pub mod Gossip
pub mod Peer
pub mod Command
