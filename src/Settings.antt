-- ===== src/Settings.antt =====
-- shared/lib/config.py: the settings that the modelled code reads.
use agentic_ops_platform.Prelude.{ℕ, String}

pub record Settings : Type 0 where
  pub provider : String
  pub api_url : String
  pub bot_token : String
  pub team_name : String
  pub action_callback_secret : String
  pub gateway_public_base_url : String
  pub gateway_port : ℕ
  pub control_plane_ui_url : String
