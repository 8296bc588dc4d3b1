-- ===== src/Tests.antt =====
-- Concrete runs of the model, and instances of its theorems.
mod Data
mod Registries
mod States
mod Messages
mod Calling
mod Commands
mod Transports
mod Listeners
mod Glued
mod Threads
mod Callers
mod Configs
mod Delivered
