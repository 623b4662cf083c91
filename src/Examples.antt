-- ===== src/Examples.antt =====
-- The theorems at concrete inputs, and runs of the code that can be followed in the source.
mod Gate
mod Settings
mod Connection
mod Urls
mod Session
mod Tools
mod Panel
mod Claims
mod Clients
mod Devices
mod Page
