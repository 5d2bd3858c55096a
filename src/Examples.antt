-- ===== src/Examples.antt =====
-- Concrete packets, tables and buffers, and the theorems at them.
mod Data
mod Connections
mod Stack
mod Tables
mod Protocol
mod Engine
mod Routers
mod Routing
mod Routes
mod Switching
mod Buffers
