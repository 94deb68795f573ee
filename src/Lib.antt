-- ===== src/Lib.antt =====
-- A Redis server in Go (app/). Clients send commands in the RESP protocol over connections; a reader
-- cuts the bytes into commands, a dispatcher calls a method of the store, the keyspace, and writes the
-- reply. A command that writes is also propagated to the replicas and appended to a file that is
-- replayed at start-up. Channels carry published messages from client to client.
--
-- The parts and their modules:
--   Base, Decimal    bytes, lists, maps (association lists), `int64` numbers, strconv's decimal texts
--   Resp.Reader      app/resp/reader.go: `ReadCommand` and all that it calls, as functions from the
--                    bytes still to be read to a result and the rest. `protocol p` is a `ProtocolError`;
--                    `eof` and `unexpected_eof` are those of package io
--   Resp.Write       app/resp_write.go: `EncodeRaw`, `encodeCommand`, `writeArray`, `bulkString`; and, in
--                    Streams, `writeStream` and `writeXRead`
--   Store            app/store.go: the data. Its children are the methods of `*store` by family:
--     Strings        `Set`, `Get`, `EntryType`, `Strlen`, `Increment`, `Keys`
--     Lists          `RPush`, `LPush`, `LPop`, `LRange`, `LLen`, `BLpop`, `cancelWait`, `removeWaiter`
--     Streams        `XAdd`, `XRange`, `XRead`, `Filter`, `readAfterLocked`, the identifiers; in Block,
--                    `XReadBlock` as the rounds between its selects
--     Watching       `Watch`, `Unwatch`, `CheckDirty`
--     Bits           `SetBit`, `GetBit`, `CountBit`, `BitOpAnd`, `BitOpOr`
--     Zsets          `ZAdd`, `ZRank`, `ZRange`, `ZCard`, `ZScore`, `ZRem`
--     Geo            `GeoAdd`, `GeoExists`, `GeoDist`, `GeoSearch` and the codes of places; in
--                    Digits and Codes, the codes as lists of binary digits
--     Expiry         `evictExpired`, and `startSweeper` as the list of what its select meets
--     Kinds          no code: which pointers the kind of an entry promises
--   Commands         app/handleCommands.go: `handleCommands` as `handle_commands`. A table gives the case of a
--                    name, `run` calls it; the cases are in Strings, Lists, Streams, Zsets, Bits, Geo
--                    and Admin (INFO, CONFIG, ACL). Progress says how a call goes on: it has replied,
--                    or it waits in BLPOP or XREAD BLOCK. Reads and Durable tell the commands that
--                    change nothing, and those that do the same at any time, from the others
--   Client           app/client.go: `handleClient` as `handle`, the step from one command to the next, with
--                    its guards (AUTH, the queue of MULTI, the subscriber mode), its switch, and the
--                    propagation behind it (`record_write`). The cases are in Transactions, Channels and
--                    Replicas, the variables in State. `resume_...` and `cancel_...` are the two branches of
--                    a select that a command waits in, `wait_woken` and `wait_timeout` those of WAIT.
--                    Loop has the step from the bytes on, with the reply to what is no command
--   Aof              app/aof.go: `Append` and `Replay`
--   Replication      app/replication.go: the replica set, and the loop by which a replica follows; in
--                    Handshake, `startReplication` from the connection on, as a function from the bytes
--                    that the leader sends to those that the replica writes and to what becomes of it
--   Server           app/server.go: users and passwords
--   Pubsub           app/pubsub.go: channels and subscribers
--   Rdb              app/rdb/rdb.go: `readSize`, `readString`, `readPlainSize`, and `Load` in Rdb.Load
--   Config           app/config.go: `parseFlags` behind package flag
--   Main             app/main.go: the manifest of the append-only file; in Start, `main` up to the state in
--                    which the program listens, as a function from the disk, with `newServer` of
--                    app/server.go and `LoadRDBFile` of app/rdb/rdb.go. The other children compose the
--                    parts: Restart and Lasting a start, a run and the next start, Safe a start
--                    and a run on any disk, Replica a leader with the program that follows it
--   Tests            runs on concrete inputs, and theorems at concrete inputs
--
-- How state is modelled. The store is a record; a method is a function from the store to its results
-- and the new store, and reads the clock once, as an argument in nanoseconds. A method is one step,
-- since it holds the mutex from its first access to its last (`GetBit`, `LLen`, `EntryType`, `Keys`,
-- `ZCard`, `ZScore`, `ZRem`, `setUser` and `getUser` do not, and are taken here as if they did);
-- `BLpop` is two, before and after its select, and the waiting between them is the steps of other
-- clients. Pointers to transactions and channels are numbers into a heap that the store carries, so
-- that sharing is seen. A call that panics or is blocked with the mutex held is an outcome of its own.
-- `XReadBlock` lets go of the mutex between its IDs and its first round: `block_ids` and `block_round`
-- are the two steps, which `xread_block` takes as one, as `handle_commands` does. Between its two steps
-- a client of `BLpop` comes to its select, by `enter_select`: a value that is sent then is handed over
-- and leaves the buffer of the channel empty. A slice or an index out of range is a panic; that a slice
-- may reach beyond the length, up to the capacity, is left out. A Go map is an association list; where
-- the code ranges over one, its order is taken, which Go leaves open.
--
-- How the parts meet. A `World` is what a handler may change, the store and the users; an `Env` is what
-- it only reads. A `Node` is what all connections share: the world, the channels, the replicas and the
-- append-only file; a `Client` is what one connection has for itself. `handle` calls `handle_commands`, and this
-- the methods of the store; a reply is the bytes that are written. `Aof` and `Replication` write with
-- the encoders of `Resp.Write` and read with `Resp.Reader`; what a command does at a replay or at a
-- replica is a parameter `apply`, which `replay_command` of Main.Start fills with `handle_commands`. A
-- disk is a function from paths to what their files hold. The commands of a connection are taken as one
-- step with their propagation and their place in the file, though the code has no lock around the three.
--
-- Parameters stand for what the code takes from elsewhere: `Floats` for the float64 operations (those of
-- the processor, of package math, and the texts of strconv), `digest` for the hexadecimal SHA-256 of a
-- password, `join` for `filepath.Join`, and the clock, which is read where the code reads it. `clock k` is
-- the time of the command of an EXEC that has `k` commands behind it. How long a select waits is open: a
-- timeout may come at any moment.
--
-- Numbers. `int` and `int64` are integers with the wrap-around of 64 bits written out where the code
-- can reach it (`Increment`, the replication offset); lengths are natural numbers. A score is the bit
-- pattern of its float, compared as IEEE 754 says. Bytes are natural numbers; a theorem that needs them
-- below 256 says so.
--
-- Fuel. `read_command` loops over empty commands, `replay` and `follow` over commands: each round reads
-- a byte at least, so that the length of the input and one more is enough; so does a round of `load`.
-- `sort_search` halves its interval and has its length and one more.
--
-- Capitals. `to_upper` is exact on ASCII and on the two other letters whose capitals are ASCII; letters whose
-- capitals are not ASCII are left as they are, and no name of a command is told from another by them.
--
-- Not modelled: package flag; listening, signals and the starting of goroutines in app/main.go, whose
-- goroutines each have a part above; errors of the operating system other than that a file is not there,
-- and those of a write to a connection. A replay that comes to a command at which it waits is left there.
pub mod Aof
pub mod Base
pub mod Client
pub mod Commands
pub mod Config
pub mod Decimal
pub mod Main
pub mod Pubsub
pub mod Rdb
pub mod Replication
pub mod Resp
pub mod Server
pub mod Store
pub mod Tests
