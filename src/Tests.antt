-- ===== src/Tests.antt =====
-- Concrete inputs for the theorems, and small runs of the program.
mod Setting
mod Domain
mod Files
mod Service
mod Logs
mod Ratelimit
mod Web
mod Caddy
mod Headers
mod Overlays
mod Ui
mod Program
mod Register
