-- ===== src/Lib.antt =====
-- A model of the chat node in Go, with the theorems that make its parts correct.
--
-- The program. A node keeps a LevelDB store. The mailbox keeps messages for peers that are away:
-- a sender whose direct request fails hands the message to the mailbox of the receiver, who
-- queries it later, sorted by time, and cleans what it has read. The same store holds groups,
-- each with its members as a doubly linked list of records and with a log of their changes. All
-- of these live in tables, which only put a prefix before the keys of the one store.
--
-- The files.
--   Prelude       shared types and lemmas: bytes, `Outcome` (a value, a returned error or a
--                 panic) and the state-passing `Exec`; a method of the program is an `Exec` on
--                 the store.
--   Ldb           ldb/interface.go and ldb/database.go: `Database`, `ldb_database`, `new_table`,
--                 batches and `kfilter`. Ldb/Laws states what goleveldb documents, Ldb/Table and
--                 Ldb/Batches carry it over to tables. Ldb/Opening is `NewLDBDatabase`.
--   Types         types.go: `Message`, `Jid` with `peerid` and `mailid`, the constructors and
--                 `less`. Types/Codecs is go-amino at one type, Types/Sorting is `sort.Sort`.
--   Group         mailbox_group.go. Group/Members is `handleMember`, `getMember` and
--                 `queryMember` (`handle_member`, ...), Group/Groups is `saveGroup` and
--                 `getGroup`, Group/Service the two handlers of `groupService` and `genGroup`.
--                 Group/Keys, Decoding, Views, Chain, Edits, Cuts and Roster say what the
--                 store shows of a list of members; Group/Handling, Framing, Adding, Leaving,
--                 Removing, Walking, Faults, Stale, Requests, History, Recording, Ownership and
--                 Founding prove what the operations do to it.
--   Mailbox       mailbox.go: `putMsg`, `doCleanMsg`, `doQueryMsg`, the three handlers and their
--                 clients; Mailbox/Contents, Cleaning, Delivery and Intrusion are about them.
--                 Mailbox/Boxes is the map from ids to messages that a mailbox promises to a
--                 peer, and Mailbox/Histories is about the handlers and that map.
--   Service       service.go: `SendMsg`, `QueryMsg`, `CleanMsg`; Service/Registry is `Start` of
--                 service.go and mailbox.go, the handlers that a node sets, Service/Serving what
--                 they promise; Service/Forwarding joins a sender, a mailbox and a receiver,
--                 Service/Reading is reading and cleaning. Service/Pump is the channel of
--                 received messages, its loop and the callbacks, as a step relation;
--                 Service/Starting is about the callbacks that it starts, Service/Receiving is
--                 the handler of PID_NORMAL, Service/Draining is about a message that waits in
--                 the channel, Service/Arrival about one that is sent.
--   Rpc           rpc/server.go and rpc/types.go: `NewRsp`, the token check and dispatch of /rpc,
--                 "auth", "sendmsg", "myid" and `getRpcFn`; Rpc/Users is rpc/user.go, Rpc/Groups
--                 rpc/group.go and `startService`, Rpc/Conns "conns", Rpc/Sessions the websocket
--                 /chat, Rpc/Wire `NewReq` and /rpc from body to body. Rpc/Access is about
--                 tokens, Rpc/Routing about names of methods, Rpc/Storing about the address book,
--                 Rpc/Creating and Rpc/Filing about groups that are created, Rpc/Opening about
--                 sessions, Rpc/Listing about "conns", Rpc/Sending about "sendmsg". Rpc/Members
--                 is `Members` and its hash.
--   App           app/achat/cmd/achat/console.go: `callrpc` and `auth` (`login`); App/Console is
--                 the prompt of `AttachCmd`, App/Attach what comes before it, App/Shell the
--                 goroutines of both with Counting, Settling and Racing about their
--                 interleavings, App/Terminal the completion, App/Reading the read loop.
--                 App/Config, App/Fingerprint and App/Logging are main.go. App/Login and
--                 App/Attaching join the console to the node, App/Chatting a typed line to the
--                 message it becomes, App/Arriving that message to the session of its receiver;
--                 App/Prompt is about whole inputs, App/Bootnodes about the configuration.
--   Tests         a concrete store, concrete formats and concrete requests for the theorems.
--
-- Parameters. goleveldb is the record `LevelDb`, go-amino a `Codec` for each type, the p2p
-- service the function `request`; `DatabaseLaws`, `IteratorLaws` and `CodecLaws` name what is
-- relied on: a store that neither fails nor panics, an iterator that visits each pair, and a round
-- trip that keeps the exported fields. `UserCodecs`, `GroupJson` and `RpcJson` stand for JSON,
-- `find_peer` and `peers` for the p2p service's view of its connections, `write` for a websocket,
-- `post` and `dial` for the console's HTTP client and its websocket, `MessageJson` for the JSON
-- of messages; `IsPeer` and `IsNode` say what is relied on of the p2p service: a request reaches
-- the handler of its protocol. A uuid, the time, a generated key and the case that a `select`
-- takes are arguments.
--
-- Fuel. `query_loop` has fuel, for the endless loop of `queryMember`: one more than the number of
-- members is enough, and there are stores for which none is, as the results say. `big_bytes` has
-- the number whose bytes it gives, more than there are bytes.
--
-- Not modelled: the hash of a message, closing the store, listening and HTTP headers, the
-- getters, log lines other than lists of addresses, `Stop` of the mailbox, whose channel nothing
-- reads, and of the console the history, the help and the text that it prints.
mod Prelude
pub mod Ldb
pub mod Types
pub mod Group
pub mod Mailbox
pub mod Service
pub mod Rpc
pub mod App
mod Tests
