-- ===== src/Resp.antt =====
-- services/cache-ambassador/resp.go. The bufio.Reader is the list of the bytes that the connection
-- will still deliver; a read past its end is io.EOF. `Command` reads and writes client commands,
-- `Reply` reads a backend's reply.
pub mod Wire
pub mod Command
pub mod Reply
mod Tests
