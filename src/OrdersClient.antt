-- ===== src/OrdersClient.antt =====
-- apps/orders-client: the customer's single-page application.
pub mod Config
pub mod Basket
pub mod Api
pub mod Session
pub mod App
pub mod System
mod Tests
