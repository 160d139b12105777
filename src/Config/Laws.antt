-- ===== src/Config/Laws.antt =====
-- internal/config/config.go: what a loaded configuration is sure to have.
use secure_svc_gw.Prelude.{◌≡◌, ◌≢◌, false, pos, is_empty}
use secure_svc_gw.Config.{Config, is_nil}

-- The configuration is fit to run: nothing that Load gives a default for is missing.
pub record IsComplete (c : Config) : Type 0 where
  pub listens : is_empty c.listen_addr ≡ false
  pub measures : is_empty c.metrics_addr ≡ false
  pub audience : is_empty c.audience ≡ false
  pub remembers : c.nonce_ttl ≢ pos 0
  pub has_routes : is_nil c.routes ≡ false
  pub has_services : is_nil c.services ≡ false
