-- ===== src/Tests.antt =====
-- Concrete databases on which the modules are run: one table of jobs, one of transactions, and a
-- database engine and character tables that meet what the development asks of them.
mod Setup
mod Jobs
mod Charges
mod Mail
mod Channel
mod Guards
mod Clock
mod Accounts
mod Parse
mod Upload
mod Site
mod Poll
mod Login
mod Archive
