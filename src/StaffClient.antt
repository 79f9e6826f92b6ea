-- ===== src/StaffClient.antt =====
-- apps/staff-client: the kitchen's board, for staff who sign in and for displays.
pub mod Config
pub mod Production
pub mod Api
pub mod Session
pub mod Board
pub mod App
pub mod System
mod Tests
