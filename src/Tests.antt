-- ===== src/Tests.antt =====
-- Concrete runs of the modelled code, and uses of the theorems on them.
mod Fixtures
mod Codec
mod Claims
mod Custody
mod Stores
mod Launch
mod Directory
mod Mailbox
mod Sessions
mod Wake
mod Wrapper
