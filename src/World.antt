-- ===== src/World.antt =====
-- src/server: the sessions, the channels and the handlers of a session that work on them.
pub mod Heap
pub mod Channel
pub mod Handlers
pub mod Members
pub mod Keeps
pub mod Consistent
pub mod Attach
pub mod Membership
pub mod Entering
pub mod Joining
pub mod Creating
pub mod Delivery
pub mod Broadcast
pub mod Notices
pub mod Ending
