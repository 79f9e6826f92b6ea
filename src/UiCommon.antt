-- ===== src/UiCommon.antt =====
-- apps/ui-common-libs: what the two clients share on the screen.
pub mod AppShell
pub mod QrCode
pub mod TextSize
pub mod Widgets
pub mod Appearance
mod Tests
