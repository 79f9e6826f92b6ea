-- ===== src/StaffClient/Config.antt =====
-- shared/api/config.ts: the base URLs and the display's credentials.
use agentic_restaurant.Base.{String, Option, or_else}

-- `import.meta.env`
pub record Env : Type 0 where
  pub users_service_base_url : Option String
  pub production_service_base_url : Option String
  pub display_app_name : Option String
  pub display_app_secret : Option String

pub record ServiceBaseUrls : Type 0 where
  pub users_service : String
  pub production_service : String

abbrev pub service_base_urls : Env → ServiceBaseUrls
service_base_urls env = record {
  users_service = or_else env.users_service_base_url "http://localhost:8081";
  production_service = or_else env.production_service_base_url "http://localhost:8084";
}

pub record DisplayAppAuthConfig : Type 0 where
  pub app_name : String
  pub app_secret : String

abbrev pub display_app_auth_config : Env → DisplayAppAuthConfig
display_app_auth_config env = record {
  app_name = or_else env.display_app_name "staff-client-display";
  app_secret = or_else env.display_app_secret "staff-client-display-secret";
}
