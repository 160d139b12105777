-- ===== src/Startup/Delivered.antt =====
-- The way from the custom resource to the gateway: cmd/controller/main.go writes the configuration,
-- cmd/gateway/main.go starts from the mounted text, and internal/proxy/handler.go serves.
use mathlib.Core.Option
use secure_svc_gw.Prelude.{Option}
use secure_svc_gw.Config.{Config}
use secure_svc_gw.Controller.Cluster.{Cluster}
use secure_svc_gw.Startup.Boot.{Gateway}
