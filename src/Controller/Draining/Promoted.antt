-- ===== src/Controller/Draining/Promoted.antt =====
-- What a promoted rollout is reported as once it has drained, of controller/phases/draining.rs.
use fluidbgoperator.Base.Text.{Text}
use fluidbgoperator.Store
use fluidbgoperator.Strategy.HardSwitch
