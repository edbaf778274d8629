-- ===== src/Raft.antt =====
-- The consensus protocol of a server.
pub mod Types
pub mod LogStore
pub mod Server
pub mod Quorum
pub mod Follower
pub mod Notification
pub mod Notice
pub mod ClientRequest
pub mod Membership
pub mod Leadership
pub mod Timeout
pub mod Leader
pub mod Vote
pub mod Election
pub mod Answer
pub mod Reconfigure
pub mod Committer
pub mod Process
pub mod SavedState
pub mod EntryFormat
pub mod Example
pub mod Tests
