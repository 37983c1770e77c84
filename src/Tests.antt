-- ===== src/Tests.antt =====
-- Runs on concrete data, and the theorems at inputs that meet their hypotheses.
mod Netip
mod Data
mod Routes
mod Cloud
mod Ec2
mod Aws
mod Yandex
mod LocalRoutes
mod Config
mod Decoding
mod Client
mod Vpc
mod Tokens
mod Store
mod Commands
mod Source
mod App
mod Delivery
