-- ===== src/Redis.antt =====
-- logic/Core/RedisMgr: the Redis client module. `Memory`, `Resp` and `StringMap` are shared by the
-- parts.
pub mod Memory
pub mod Resp
pub mod StringMap
pub mod Builder
pub mod Reply
pub mod Transport
pub mod Mgr
pub mod Async
pub mod Profile
pub mod Sample
pub mod Session
pub mod Sync
mod Tests
