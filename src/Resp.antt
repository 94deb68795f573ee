-- ===== src/Resp.antt =====
-- The RESP wire protocol: app/resp_write.go (replies and commands as bytes) and app/resp/reader.go
-- (commands from bytes).
pub mod Write
pub mod Reader
