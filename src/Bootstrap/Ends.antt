-- ===== src/Bootstrap/Ends.antt =====
-- src/bootstrap.rs: how a run ends.
use luxor.Config.Loaded.{Config}
