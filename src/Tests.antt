-- ===== src/Tests.antt =====
-- Concrete runs of the parts, and the theorems applied to them.
mod Fixtures
mod Tables
mod Gateways
mod Clients
mod Stores
mod Providers
mod Apis
mod Ingresses
mod Databases
mod Sockets
mod Files
mod Streams
mod Generators
mod Programs
mod Provided
