-- ===== src/Examples.antt =====
-- The theorems about the parts of the program at concrete inputs.
mod Worlds
mod Cells
mod Managers
mod Waits
mod Serving
mod Compiles
mod Requests
mod Tables
mod Polls
mod Fetches
mod Startup
