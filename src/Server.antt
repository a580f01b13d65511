-- ===== src/Server.antt =====
-- server.go, handleMessage.go, handleSignal.go, handleRequest.go, handleSessionClosure.go,
-- handleSessionRestore.go and connection.go: the operations that a server counts, its shutdown,
-- and what becomes of a message that a connection has received.
pub mod Operations
pub mod Goroutines
pub mod Counting
pub mod Uncounted
pub mod Draining
pub mod Slots
pub mod Signals
pub mod Construction
pub mod Replies
pub mod Answers
pub mod Handlers
pub mod Dispatch
pub mod Service
pub mod Restoration
pub mod Sessions
pub mod Closure
pub mod Creation
pub mod Created
pub mod Restored
pub mod Synchrony
pub mod Survival
mod Tests
pub mod Examples
mod SessionTests
