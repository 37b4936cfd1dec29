-- ===== src/Lib.antt =====
-- CAN Bridge Daemon: a daemon that streams the frames of CAN interfaces to its clients and sends theirs.
--
-- The parts and how they interact. A transport (TCP, WebSocket, gRPC) decodes the requests of a connection and
-- calls `BridgeService::handle`, which calls the ports (discovery, transmission, clock) and publishes
-- what was sent on the bus of frames; the SocketCAN reader and the fake generator publish there
-- too. Each connection keeps a set of subscribed interfaces, by which the frames of the bus are selected.
--
-- Which file models which part:
--   Prelude, Text        Boolean tests, lists over the native numbers and results; Rust's strings and their
--                        UTF-8. A byte is a number, and a byte of Rust one below 256.
--   BinaryMessage        src/domain/binary_message.rs: Types (requests, responses, message types), Wire
--                        (`put_…` and `get_…` as a parser monad), Client and Daemon (the payloads),
--                        Packet (header and entry points).
--   Protocol, Frame      src/domain/protocol.rs, src/domain/frame.rs.
--   Hex                  `bytes_to_hex_lower`, `hex_lower`, `hex_to_bytes`, `val`.
--   Service              src/app/service.rs over src/ports: `handle`, `publish_frame`, `now_ms`. The ports are a
--                        record of functions over the state of the world.
--   Subscription         the subscription sets of all sessions, and the filters of
--                        src/infra/transport_ws/ws_jsonl.rs.
--   Writer               the writer tasks of all sessions, and a connection: its reader, the queue between the
--                        two, the receiver of the bus and what was written, in steps of any order. Its
--                        Reader changes the subscriptions and answers in two turns.
--   BinarySession        what src/infra/transport_tcp/tcp_binary.rs and src/infra/transport_ws/ws_binary.rs have
--                        in common: session state, request dispatch, decode loop; Turns and Reader (the reader in turns)
--                        and Connected (its connection).
--   TcpBinary, WsBinary  the readers of the two binary sessions, as steps on what the socket gives.
--   TcpJson              the reader of src/infra/transport_tcp/tcp_jsonl.rs, as steps on lines; the decoding and
--                        encoding of serde_json are parameters.
--   WsJson               src/infra/transport_ws/ws_jsonl.rs: the reader on messages, what it selects, its handshake
--                        (Greeting), and the two writes of a subscription beside the two reads of the writer (Race).
--   TcpServer            src/infra/transport_tcp/tcp_json_or_binary_server.rs: the choice of the mode, the session
--                        that a connection gets, and the loop that accepts connections.
--   WsServer             src/infra/transport_ws/ws_json_or_binary_server.rs: the routes, and what `run` returns.
--   SocketCan            src/infra/socketcan_tx.rs and src/infra/socketcan_rx.rs, over the crate's interface and
--                        its documented behaviour.
--   FakeGenerator        src/infra/fake_generator.rs, the frames of a tick.
--   Grpc                 src/infra/transport_grpc.rs, the methods of the adapter.
--   Discovery            src/infra/iface_discovery_netlink.rs, over rtnetlink as a parameter, and the stub.
--   Startup              src/main.rs: the ports that the daemon is composed of, and the readers and the generator
--                        that it starts.
--   Process              src/main.rs as a process: the arguments, what is spawned in which order, the tasks beside
--                        it, and the shutdown. `abort` only asks a task to stop; tokio drops it later, in a step of its own.
--   Daemon               the daemon as a whole: the bus, the SocketCAN readers, the generator, gRPC calls and any
--                        number of clients of the kinds of session (Kinds), in turns of any order. A
--                        kind of session is an interface of operations and laws, on which the proof for the whole rests.
--   ExampleClient        examples/rust/tcp_binary_client.rs.
--   Tests                runs at concrete inputs and applications of the theorems.
--
-- The writer of a JSON session of a WebSocket takes two locks to select an event, one after the other, and the reader can
-- have its turns between the two (WsJson.Race.WsTurn). There the model is more than the code: what the
-- writer has seen under the first lock it can use for several events.
--
-- Numbers are natural numbers with the casts of the code written out. Errors are data types with the values
-- that their texts show, or the texts where a client sees them. A `HashSet` is a list of its elements.
--
-- An end of a session is modelled twice: a client leaves the daemon (Daemon.Step), and its writer, which is awaited, goes
-- on to the end of its queue (Writer.Finish).
--
-- Fuel: the decode loop (BinarySession.drain) runs on fuel, and `drain_all` gives the length of the buffer. A
-- request takes twelve bytes at least, so this is enough.
--
-- Not modelled: the sockets that the servers listen on and the serving of axum and tonic, whose outcomes are
-- arguments; the parsing of the command line, which clap derives; the JSON form of the messages, which
-- serde derives; logging; the other example clients, which write constants and print. The crates socketcan, rtnetlink, bytes and
-- serde_json are parameters; of tokio, a queue takes what is sent and keeps its order, the bus gives a receiver the events
-- in their order, less those it reports as lost, `select!` may choose any branch, and the
-- drop of the runtime waits for the blocking threads that run (Process.Ends.RuntimeLaws).
pub mod Prelude
pub mod Text
pub mod BinaryMessage
pub mod Protocol
pub mod Frame
pub mod Hex
pub mod Service
pub mod Subscription
pub mod Writer
pub mod BinarySession
pub mod TcpBinary
pub mod WsBinary
pub mod SocketCan
pub mod FakeGenerator
pub mod Grpc
pub mod Discovery
pub mod TcpJson
pub mod TcpServer
pub mod WsJson
pub mod WsServer
pub mod Startup
pub mod Process
pub mod Daemon
pub mod ExampleClient
mod Tests
