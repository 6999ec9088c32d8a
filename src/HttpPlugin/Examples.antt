-- ===== src/HttpPlugin/Examples.antt =====
-- The properties of admission at two requests.
use fluidbgoperator.Base.{◌≡◌, ◌<◌, ◌^◌, refl, true, false, [], ◌∷◌, List, arith}
use fluidbgoperator.Base.Lists.{any, length}
use fluidbgoperator.HttpPlugin.{
  active, draining, idle, runtime_mode, served, World, Event, arrives, advances, sets, run, happens,
  advance_nth, advance, start, drained, from_u8, as_u8, fetch_add, fetch_sub, set_runtime_mode,
}
use fluidbgoperator.HttpPlugin.Admission.{
  IsCounted, inside, start-IsCounted, run-IsCounted, is_admitted, drained_serves_nobody,
  status_call_races_drain,
}

abbrev traffic : List Event
traffic =
    sets active
    ∷ arrives
    ∷ advances 0
    ∷ advances 0
    ∷ arrives
    ∷ advances 1
    ∷ advances 0
    ∷ sets draining
    ∷ advances 0
    ∷ advances 1
    ∷ []

two_requests : length (run traffic (start idle 100)).requests < 2 ^ 64
unfolding run happens advance_nth advance start as_u8 from_u8 runtime_mode fetch_add fetch_sub
    set_runtime_mode
two_requests = omega arith

run-IsCounted_example : IsCounted (run traffic (start idle 100))
run-IsCounted_example =
    run-IsCounted traffic (start idle 100) (start-IsCounted idle 100) two_requests

abbrev empty_and_draining : World
empty_and_draining = record {
  shared = record { mode = 1; active_requests = 0; traffic_percent = 100 };
  requests = served ∷ [];
}

right : IsCounted empty_and_draining
unfolding inside
right = refl

reported :
    drained 0 (runtime_mode (run (arrives ∷ advances 0 ∷ []) empty_and_draining).shared) ≡ true
unfolding run happens advance_nth advance drained from_u8 runtime_mode
reported = refl

drained_serves_nobody_example :
    (any is_admitted (run (arrives ∷ advances 0 ∷ []) empty_and_draining).requests ≡ false)
    × (any is_admitted
          (run (advances 0 ∷ []) (run (arrives ∷ advances 0 ∷ []) empty_and_draining)).requests
        ≡ false)
unfolding runtime_mode from_u8
drained_serves_nobody_example =
    drained_serves_nobody empty_and_draining (arrives ∷ advances 0 ∷ []) (advances 0 ∷ []) right
      refl refl refl reported

abbrev empty_and_active : World
empty_and_active = record {
  shared = record { mode = 0; active_requests = 0; traffic_percent = 100 };
  requests = [];
}

status_call_races_drain_example :
    let between = arrives ∷ advances 0 ∷ advances 0 ∷ advances 0 ∷ sets draining ∷ [] in
    (drained 0 (runtime_mode (run between empty_and_active).shared) ≡ true)
    × (any is_admitted (run between empty_and_active).requests ≡ true)
unfolding runtime_mode from_u8
status_call_races_drain_example = status_call_races_drain empty_and_active refl refl
