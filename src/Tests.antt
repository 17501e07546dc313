-- ===== src/Tests.antt =====
-- Concrete runs: a school with a teacher of two classes, its lessons and its rows.
mod Fixtures
mod Lessons
mod Rows
mod Accounts
mod Services
mod Users
mod Swap
mod Chats
mod Sessions
mod Assignments
mod Assistant
mod Files
mod Served
mod Fair
mod Archive
mod Reports
mod Restored
