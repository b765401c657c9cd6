-- ===== src/Lib.antt =====
-- Verification of the tonlibjson repository: a TON client library in Rust. Its parts,
-- each with the files that model it:
--
-- Tl (adnl-tcp/src/serializer.rs, deserializer.rs, types.rs): the TL wire format. `Serializer` holds
--   the output; a `Parser` takes the input that is left and answers with a value, an error or a panic.
--   What the crate `bytes` does is the parameters `BufMut` and `Buf` of Tl/Buf.antt.
-- Adnl (adnl-tcp/src/packet.rs, ping.rs, codec.rs, aes_ctr.rs, key.rs, client.rs, server.rs): packets,
--   the codec `PacketCodec` over an encrypted stream, and the handshake that makes the codecs of both
--   ends. AES-CTR, SHA-256, `BytesMut` and the curve are parameters, with documented laws.
-- Router (ton-client-util/src/router/mod.rs, route.rs, shard_prefix.rs): which services answer a
--   request. A service is what `Routed` says of it; the router keeps its services in a map and chooses
--   among them by `Route`. The sort and the grouping of itertools are the parameter `Itertools`.
--   Discover (ton-client-util/src/discover/) makes the changes of services that the router applies.
--   Shared (ton-client-util/src/service/shared.rs) is the future of a request to a shared service.
-- Blocks (ton-liteserver-client/src/tracker/find_first_block.rs, tonlibjson-client/src/cursor_client.rs):
--   which blocks a server has. Search is the loop that both files write out, FirstBlock its
--   correctness, Liteserver its use on a liteserver. Bounds and Registry keep the blocks of each shard,
--   Cursor and LastBlock are the tasks that update them, and CursorClient is what the router asks. A
--   client is a state and the answers it gives. The searches and the walk run on fuel: above the
--   seqnos in question for a search, above the number of blocks to read for the walk. In the
--   searches a sum or a difference wraps as that of two `i32`; elsewhere a seqno or a logical time is an
--   integer without a bound. Channels has the tasks that ask for the headers of the shards, as steps in
--   any order, and Handed what becomes of the blocks. The timers are not modelled.
-- Client (ton-liteserver-client/src/client.rs): the task that owns a connection. `ClientActor` holds the
--   oneshots by query id; `step` takes one event of the `select!`, and `run` the events in their order.
-- Tracker (ton-liteserver-client/src/tracker/, tracked_client.rs): what the trackers of a liteserver
--   keep, when a search for the first block of a shard starts (FirstBlocks), and `TrackedClient`, which
--   answers the router from it. The crate toner parses the cells.
-- Ton (tonlibjson-client/src/ton.rs, block.rs): the requests of TonClient (Requests, Messages, Client)
--   over a service that is a parameter, and the streams made of them: the pages of a block (Pages,
--   Paged), a block from both ends (Meet, Met), the history of an account and ranges of it (History,
--   Ranges), ranges read side by side (Windows, Plan, Pieces), and the first transaction (FirstTx).
--   ShardAddress is about the route of a lookup by logical time. Retry is the policy of
--   tonlibjson-client/src/retry.rs, over the budget of the crate tower. A stream is what it gives and
--   how it ends. Fuel above the number of transactions, or the last seqno, is enough. The two streams
--   of a block come in any order of turns; the two sides of a `try_join!` one after the other. The
--   builder of the client is not modelled.
-- Address (tonlibjson-client/src/address.rs): the addresses of accounts, parsed and printed, with hex,
--   base64, the checksum and the decimal numbers as the parameter `Coding`.
-- Json (tonlibjson-client/src/client.rs): the client of the library in C++. `State` has the map of the
--   senders, the oneshots by the number of their call, and the futures that are alive; `step` takes a
--   call, a response or the drop of a future.
-- TlParser (tl_parser/src/lib.rs): the declarations of a schema. Text has the methods of `str` that are
--   used, Combinator the declarations and what is read of them. The combinators of the crate nom are the
--   parameter `Nom`; Grammar, Declaration and Schema have the parsers made of them, Loop the loop of
--   `parse`. Ends, EndedTerms and Ended are about what the parsers leave. Fuel above the length of the
--   input is enough for the loop; in the grammar each term or argument within another costs a unit.
--   Chars, Reads, Conditions, Terms, Arguments, Fields, Decls and Lines are about what the parsers
--   read; RoundTrip and Whole put it together.
-- Cells (ton-liteserver-client/src/tlb/): the cells of a block header and of the shards, in Blocks and
--   Shards, over the crate toner, which is the parameter `Toner`. Layout and Described write the cells
--   as TL-B does, Flags is about the word of flags, Header and Described about what is parsed.
-- Liteserver (ton-liteserver-client/src/tl.rs): the requests to a liteserver, with the fields that the
--   schema in the file gives them, and their routes.
-- Grpc (ton-grpc/src/helpers.rs, account.rs): Helpers makes the bounds of a request bounds of
--   transactions, Between says which transactions are between them, and State has the state and the
--   cell that a request asks for. The other handlers are not modelled.
--
-- A byte is a number, a machine word its bit pattern, `as u8` and `as u32` a remainder. A record of the
-- source is a record; a method returns the new record. Sockets, timers, threads and random generators
-- are arguments, or the order of steps. Log lines, metrics and `reserve` are left out: they change no
-- result.
--
-- Not modelled: the connection (adnl-tcp/src/connection.rs) and the actors, which only run tasks on
-- tokio; the messages that the build generates from schemas outside the repository, with the code
-- that generates them; the contracts (ton-contract/), which are read by the crate toner; the other
-- handlers of ton-grpc, and tvm-grpc, which pass requests on; and the bindings to the library in
-- C++ (tonlibjson-sys/).
pub mod Prelude
pub mod Tl
pub mod Adnl
pub mod Router
pub mod Blocks
pub mod Client
pub mod Tracker
pub mod Ton
pub mod Address
pub mod Json
pub mod TlParser
pub mod Cells
pub mod Liteserver
pub mod Grpc
mod Tests
