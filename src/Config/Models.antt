-- ===== src/Config/Models.antt =====
-- config/config.go.
use shimmy_wasm_go.Base.{String}
use shimmy_wasm_go.Execution.Config.{ExecutionConfig}

-- `AuthConfig`
pub record AuthConfig : Type 0 where
  pub key : String

-- `Config`
pub record Config : Type 0 where
  pub log_level : String
  pub log_format : String
  pub runtime : ExecutionConfig
  pub auth : AuthConfig
