-- ===== src/OrdersClient/Config.antt =====
-- shared/api/config.ts: the base URLs and the application's credentials, from the variables that
-- the build reads from its environment.
use agentic_restaurant.Base.{String, Option, or_else}

-- `import.meta.env`
pub record Env : Type 0 where
  pub users_service_base_url : Option String
  pub menu_service_base_url : Option String
  pub orders_service_base_url : Option String
  pub app_name : Option String
  pub app_secret : Option String

pub record ServiceBaseUrls : Type 0 where
  pub users_service : String
  pub menu_service : String
  pub orders_service : String

abbrev pub service_base_urls : Env → ServiceBaseUrls
service_base_urls env = record {
  users_service = or_else env.users_service_base_url "http://localhost:8081";
  menu_service = or_else env.menu_service_base_url "http://localhost:8082";
  orders_service = or_else env.orders_service_base_url "http://localhost:8083";
}

pub record AppAuthConfig : Type 0 where
  pub app_name : String
  pub app_secret : String

abbrev pub app_auth_config : Env → AppAuthConfig
app_auth_config env = record {
  app_name = or_else env.app_name "orders-client";
  app_secret = or_else env.app_secret "orders-client-secret";
}
