-- ===== src/Tests.antt =====
-- Runs of the program on concrete inputs, and the theorems at inputs that meet their hypotheses.
mod Resp
mod Strings
mod Lists
mod Streams
mod Watching
mod Bits
mod Streaming
mod Zsets
mod Rdb
mod Client
mod Serving
mod Waking
mod Restarting
mod Kinds
mod Places
