-- ===== src/Schema.antt =====
-- packages/ydoc-schema/src: what is stored in a board's document, and the messages between the
-- client and the server.
pub mod Protocol
pub mod Migrations
pub mod TextDiff
