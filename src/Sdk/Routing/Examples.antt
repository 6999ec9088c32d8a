-- ===== src/Sdk/Routing/Examples.antt =====
-- A splitter at 30 percent.
use fluidbgoperator.Base.{ℕ, ◌%◌, ◌≤◌, ◌<◌, ◌≡◌, ◌↔◌, true}
use fluidbgoperator.Base.Text.{codes}
use fluidbgoperator.Fixtures.{byte_sum}
use fluidbgoperator.Sdk.Routing.{routes_to_blue}
use fluidbgoperator.Sdk.Routing.Shares.{routed, min, routes_to_blue_share}

routes_to_blue_share_example :
    ((routes_to_blue byte_sum (codes "order") 30 ≡ true) ↔ (byte_sum (codes "order") % 100 < 30))
    × ((routed 30 100 ≡ min 30 100)
        × ((q : ℕ)
            → 30 ≤ q
            → routes_to_blue byte_sum (codes "order") 30 ≡ true
            → routes_to_blue byte_sum (codes "order") q ≡ true))
routes_to_blue_share_example = routes_to_blue_share byte_sum (codes "order") 30
