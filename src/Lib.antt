-- ===== src/Lib.antt =====
-- up-rust: the uProtocol language library for Rust.
--
-- The library's data model are four generated messages: UUID, UUri, UAttributes and UMessage, with
-- UStatus for errors. A builder makes messages and has a validator of their type check the
-- attributes; a transport delivers messages to listeners whose filters match the source and the
-- sink; and on top of a transport there are clients for the three kinds of communication: publishing,
-- notifications and remote procedure calls.
--
-- Files and sources:
--   Prelude, Prelude/*     helpers: results, panics, lists, bits, text
--   Proto                  the types that build.rs generates from the up-spec proto files
--   Uuid, Uuid/*           src/uuid.rs
--   Uri, Uri/*             src/uri.rs: fields and checks in Uri, `matches` in Uri/Matching, `from_str`,
--                          `to_uri`, `try_from_parts` and `check_validity` in Uri/Parsing, the
--                          hexadecimal numbers of the standard library in Uri/Hex, and what a hasher
--                          is fed with in Uri/Hashing
--   Attributes, Attributes/*   src/uattributes.rs
--   Validator, Validator/* src/uattributes/uattributesvalidator.rs
--   Enums, Enums/*         src/umessage/umessagetype.rs, src/uattributes/upriority.rs and
--                          src/uattributes/upayloadformat.rs
--   Status, Status/*       src/ustatus.rs
--   Message, Message/*     src/umessage.rs
--   Builder, Builder/*     src/umessage/umessagebuilder.rs
--   Transport, Transport/* src/utransport.rs
--   LocalTransport, LocalTransport/*   src/local_transport.rs
--   Communication          src/communication.rs: call options, payloads, building of messages
--   Communication/Errors   the errors of src/communication.rs, src/communication/rpc.rs,
--                          notification.rs and pubsub.rs
--   Communication/Publishing   SimplePublisher of src/communication/default_pubsub.rs and
--                          src/communication/default_notifier.rs
--   Communication/Listening   default_notifier.rs and in_memory_rpc_server.rs over the local transport
--   Communication/RpcServer, and below   src/communication/in_memory_rpc_server.rs
--   Communication/RpcClient, and below   src/communication/in_memory_rpc_client.rs
--   Communication/InProcess, and below   the listeners of src/communication/in_memory_rpc_server.rs
--                          and in_memory_rpc_client.rs on src/local_transport.rs, and whole calls
--   Communication/Rpc      src/communication/rpc.rs: `RpcClient` and `invoke_proto_method`
--   Communication/Rpc/Services   src/communication/usubscription_client.rs and udiscovery_client.rs
--   Communication/Subscriber, and below   InMemorySubscriber and SubscriptionChangeListener of
--                          src/communication/default_pubsub.rs
--   Core, Core/*           src/core/usubscription.rs, src/core/udiscovery.rs
--   CloudEvents, CloudEvents/*   src/cloudevents.rs
--   Tests, Tests/*         the definitions on concrete values
--
-- A function has its name of the source, in the module of its type. A method on `&mut self` returns the
-- new value. An `assert!`, an `expect` and an overflow of a checked subtraction are the case `panics`
-- of `Run`; a `Result` is `Result`. Calls of a transport pass its state explicitly, and a client is
-- written over any transport. A listener or a handler behind an `Arc` is the number of
-- its address. The clock and random bytes are arguments.
--
-- Parameters stand for code of other packages: uuid_simd (UuidText), uriparse with its comparison of
-- schemes, which ignores case (UriParser), mediatype with its comparison of names, which ignores case
-- (MediaType and two functions), rust-protobuf (Codec, EnumNumbers), the contents of the proto files
-- (Descriptors), and the request handlers of a server, under their timeout. An interface of the
-- program is a record of its operations: UTransport, LocalUriProvider, RpcClient, USubscription,
-- Notifier.
--
-- Bounds: numbers of 8, 16, 32 and 64 bits are natural numbers, and wrap-around is written out. The
-- printer of hexadecimal numbers has fuel for eight digits, which a number of 32 bits does not
-- exceed. The deliveries on the local transport have fuel: one more than the number of registrations
-- for each delivery that is to be made, since an answer is never answered again; that is enough where
-- applications send nothing while they receive a message. All other functions recur on their input.
--
-- A call of the RPC client is two steps, before and after it waits for its response. The transport that
-- the first step sends its request over has the client's listener in its state, so a response may
-- be received before `send` returns; `beside` makes such a transport from one that does not call
-- the client's listener. What the wait ends with is an argument: nothing in time, a response, a
-- closed channel. On the local transport it is what the deliveries lead to. There `send` awaits the
-- dispatch of its message; since nothing but the wait comes after `send`, the first step is over
-- `beside` the local transport, which collects the deliveries, and the wait begins with making
-- them. The steps of calls that run at the same time may interleave in any order.
--
-- A listener on the local transport is a server's, the client's, or an application's, with the messages
-- that it sends while it receives one. What an application does else while it receives, such as to
-- register listeners or to wait for a call, is not modelled.
--
-- Not modelled: logging, waiting for a lock (a poisoned one is, of the subscription change listener and
-- of the pending requests), the Debug implementations, the mock transport, which mockall
-- generates, and the fields of the services' messages that the program only hands on.
mod Prelude
pub mod Proto
pub mod Uuid
pub mod Uri
pub mod Attributes
pub mod Validator
pub mod Status
pub mod Enums
pub mod Message
pub mod Builder
pub mod Transport
pub mod LocalTransport
pub mod CloudEvents
pub mod Core
pub mod Communication
mod Tests
