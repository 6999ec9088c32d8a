-- ===== src/Sdk/Routing.antt =====
-- The choice of a side for a message: sdk/rust/src/routing.rs. `hash` is the result of the
-- standard library's DefaultHasher, a 64-bit number.
pub mod Shares
mod Examples
use fluidbgoperator.Base.{ℕ, ◌%◌, Bool, true, false, ◌==◌, leb, ltb, if◌then◌else◌}
use fluidbgoperator.Base.Text.{Text}

pub routes_to_blue : (Text → ℕ) → Text → ℕ → Bool
routes_to_blue hash payload traffic_percent =
    if traffic_percent == 0
    then false
    else (if leb 100 traffic_percent then true else ltb (hash payload % 100) traffic_percent)
