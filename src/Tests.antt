-- ===== src/Tests.antt =====
-- Runs of the modelled code on concrete inputs, and each theorem with hypotheses applied where they
-- hold. The database is the one in memory.
mod Sample
mod Granting
mod Access
mod Replicas
mod Network
mod Joins
mod Updates
mod Clients
mod Issuing
mod Queries
mod Routes
mod Uploads
mod Pulled
mod Secrets
mod Users
mod Tags
mod History
mod Routing
mod Containers
mod Migrating
