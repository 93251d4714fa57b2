-- ===== src/Utilities.antt =====
-- src/utilities.c: the text files that hold the accounts and the list of documents.
pub mod Text
pub mod Numbers
pub mod Users
pub mod Files
pub mod Accounts
pub mod Registry
mod Examples
