-- ===== src/Lib.antt =====
-- remoc: channels between two endpoints, multiplexed over one transport.
--
-- The lowest layer of the crate is the channel multiplexer (remoc/src/chmux). Two endpoints exchange
-- messages in frames over a transport. A message belongs to the connection (hello, ping, goodbye,
-- global credits) or to a port, one end of a channel. Data is sent against credits, bytes of the
-- peer's receive buffers: those of the port, and those of a buffer that the ports share. The
-- receiver counts the credits that held data uses and returns them as the data is consumed.
--
-- Files and the code they model:
--   * Io: readers over a slice of bytes, as the crate byteorder and `std::io::Read` give them. The
--     fixed-width integers of byteorder are a parameter, the record ByteOrder, with the laws that
--     the code relies on; Io/LittleEndian is a concrete instance.
--   * Varint: remoc/src/varint.rs. `write_v32`, `read_v32` and the incremental `VarintDecoder`.
--   * Msg: remoc/src/chmux/msg.rs. Msg/Types has the data types, Msg/Flags the constants, Msg/Cfg
--     `ExchangedCfg::write` and `read`, Msg/Write and Msg/Read `MultiplexMsg::write` and `read`. The
--     version numbers of the crate postbag are a parameter (External).
--   * Frame: `LengthCodec` of remoc/src/connect/io_transport.rs and `Cfg::max_frame_length` of
--     remoc/src/chmux/cfg.rs.
--   * Credit: remoc/src/chmux/credit.rs. Credit/Assigned has `AssignedCredits` and
--     `MixedAssignedCredits`, and the charge for a received message from remoc/src/chmux/mux.rs;
--     Credit/Store `SendableCreditStore` and `CreditProvider`; Credit/User `CreditUser` and
--     `MixedCreditUser`; Credit/Monitor `PortCreditMonitor` and `PortCreditReturner`; Credit/Global
--     `GlobalCreditMonitor`. Credit/Flow joins the two ends of a channel's direction to a system of
--     steps, with the loss of credits that were taken for a message that is not sent, and Credit/Inhibit the operations that decide on the use of global credits.
--   * Sizer: remoc/src/chmux/sizer.rs. `BufferSize`, `FixedBuffer`, `DynamicBuffer` and the report of
--     held credits.
--   * Ports: `PortAllocatorInner`, `ReservedPort` and the drops of allocated ports of
--     remoc/src/chmux/port_allocator.rs. SidePort: the port number with its side.
--   * Sender: remoc/src/chmux/sender.rs, `Sender::do_send` (Sender/Data), `Sender::do_try_send`
--     (Sender/Try) on the stores of credits, `ChunkSender` (Sender/Chunks), and the loop of
--     `Sender::do_connect` that sends ports in messages within the credits at hand; a list holds the
--     answers to requests that wait.
--   * Receiver: remoc/src/chmux/receiver.rs, `Receiver::recv_any` and, in Receiver/Calls, `recv`,
--     `recv_chunk` and `discard_chunks`. The queue that the multiplexer task fills is a list, and the
--     credits that are returned are another. Receiver/Delivery joins it to the sender.
--   * Mux: remoc/src/chmux/mux.rs, the life of a connected port: `PortState`, `maybe_free_port`, and the
--     branches of `handle_event` and `handle_received_msg` for its events and messages. The table is
--     its entry for one port. Mux/Peers joins the two ends of a channel by queues of messages; the
--     outcome of the checks of received data is a flag of the message, since their arithmetic is in
--     Credit. Mux/Late has what a request for a report after the end of its sender leads to.
--   * Open: the opening of ports, of remoc/src/chmux/mux.rs, client.rs and listener.rs. Open/Requester has
--     the end that asks (the events `ConnectReq`, `SendPorts` and `AllClientsDropped`, the messages
--     `PortOpened`, `Rejected` and `ListenerFinish`), Open/Client `Client::connect` and the credits,
--     Open/Responder the other end (`OpenPort`, the requests of `PortData`, `ClientFinish`,
--     `ListenerDropped` and the answers), and Open/Answers the `Request` of the application. The
--     state of `ChMux` is split into what each of the two roles reads and changes. Open/Peers joins
--     the two by queues of messages, as long as no port is freed; Open/Weights counts what is under way.
--   * Robs: remoc/src/robs/vec.rs. Robs/Vector has the operations of `Vec`, Robs/Observable
--     `ObservableVec`, Robs/Subscription `VecSubscription`, and Robs/Mirror `MirroredVecInner` and the
--     task of `mirror`; Robs/Mirror/Calls joins calls to a sequence with the events they send.
--     Robs/Mirror/Follow says what a broadcast channel can bring of the events: all, or some and then
--     the notice that others were lost.
--     remoc/src/robs/hash_set.rs: Robs/HashSet has `ObservableHashSet`, `MirroredHashSetInner` and the
--     events that the task of `mirror` handles; Robs/HashSet/Calls joins its calls to a sequence.
--   * RwLock: remoc/src/robj/rw_lock. The owner's task, the read locks with their caches, and the writer,
--     with RwLock/Steps for what can happen next in any order. What `mpsc`, `oneshot` and `watch` of
--     remoc/src/rch deliver is taken by what they promise.
--   * Base: tests on numbers, lists over the native numbers, lists as sets, and bits of bytes.
--
-- State that is shared behind a lock or in atomics is passed explicitly; an operation under the
-- lock, or a group of atomic operations of one call, is one step. Notifications that only wake up
-- waiting tasks have no counterpart. A panic is a value of its own.
--
-- Bounds: a byte is below 2 ^ 8, an integer of w bits is a natural number with `% 2 ^ w` written out
-- where the code wraps. The loop that reads a list of ports recurs on fuel, one more than the
-- bytes left, which is enough since each round takes a byte. The loops that look for a port number
-- recur on fuel, one more than the numbers they pass over, and Ports/Search shows that this is
-- enough while those are fewer than 2 ^ 32. `do_send` and `do_try_send` have the length of the data
-- as fuel, since a round takes a byte at least; `recv` has one more than the messages in its queue,
-- since each group of requests that it passes over takes one; the fuel of a mirror's task counts the
-- events received.
--
-- Not modelled: the multiplexer task (remoc/src/chmux/mux.rs) but for the opening of ports, connected
-- ports and the charge of credits, the requests for credits that wait, the rest of senders and receivers, the channels above the
-- multiplexer, the collections but for the vector and the hash set, serialisation and the transports themselves.
pub mod Base
pub mod Credit
pub mod Frame
pub mod Io
pub mod Msg
pub mod Mux
pub mod Open
pub mod Ports
pub mod Receiver
pub mod Robs
pub mod RwLock
pub mod Sender
pub mod SidePort
pub mod Sizer
pub mod Varint
