-- ===== src/Examples.antt =====
-- The theorems at concrete inputs.
mod Fixtures
mod Handshakes
mod Devices
mod Files
mod Layouts
mod Desktops
mod Keyboards
mod Quartz
mod Registration
mod Machines
mod Wire
mod Sockets
mod Runs
mod Races
mod Conversations
