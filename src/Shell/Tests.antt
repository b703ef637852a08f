-- ===== src/Shell/Tests.antt =====
-- Concrete command lines, histories and job tables of the shell.
mod Lines
mod Histories
mod Tables
mod Places
mod Pipelines
mod Sessions
mod Entries
