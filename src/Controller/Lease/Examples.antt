-- ===== src/Controller/Lease/Examples.antt =====
-- A lease taken over after it expired.
use fluidbgoperator.Fixtures.{digest, digest-IsDigest}
use fluidbgoperator.Controller.Lease.Names.{lease_name}
use fluidbgoperator.Controller.Lease.Names.Labels.{IsDnsLabel, lease_name-IsDnsLabel}
use fluidbgoperator.Base.{arith, ◌≡◌, refl, some, [], ◌∷◌, ◌++◌, List}
use fluidbgoperator.Base.Text.{codes, text_eq}
use fluidbgoperator.Base.Int.{ℤ, pos}
use fluidbgoperator.Controller.Lease.{
  LeaseConfig, LeaseSpec, lease_expired, held_by, lease_can_be_acquired, transition_increment,
  transitions_of, lease_spec, duration_seconds, Stored, acquires, Event, reads, writes, goes_on,
  written, nth, write_attempt, happens, run, empty,
}
use fluidbgoperator.Controller.Lease.Exclusion.{Succeeds, lease_exclusion}

abbrev first : LeaseConfig
first = record { holder_identity = codes "a"; duration = 30 }

abbrev second : LeaseConfig
second = record { holder_identity = codes "b"; duration = 30 }

-- `a` acquires at 0; `b` reads 31 seconds later and waits to write.
abbrev events : List Event
events =
    reads acquires first (pos 0) ∷ writes 0 (pos 0) ∷ reads acquires second (pos 31000000000) ∷ []

abbrev spec_of : LeaseConfig → ℤ → ℤ → LeaseSpec
spec_of config at transitions = record {
  acquire_time = some at;
  holder_identity = some config.holder_identity;
  lease_duration_seconds = some (pos 30);
  lease_transitions = some transitions;
  renew_time = some at;
}

abbrev held : Stored
held = record { version = 0; spec = some (spec_of first (pos 0) (pos 0)) }

abbrev taken : Stored
taken = record { version = 1; spec = some (spec_of second (pos 32000000000) (pos 1)) }

first_holds : (run events empty).stored ≡ some held
unfolding run happens goes_on lease_can_be_acquired held_by lease_expired nth write_attempt written
    lease_spec duration_seconds transitions_of transition_increment empty text_eq
first_holds = refl

second_takes : (run (events ++ (writes 0 (pos 32000000000) ∷ [])) empty).stored ≡ some taken
unfolding run happens goes_on lease_can_be_acquired held_by lease_expired nth write_attempt written
    lease_spec duration_seconds transitions_of transition_increment empty text_eq
second_takes = refl

lease_exclusion_example :
    Succeeds events (writes 0 (pos 32000000000)) held (spec_of first (pos 0) (pos 0)) taken
lease_exclusion_example =
    lease_exclusion events (writes 0 (pos 32000000000)) held taken (spec_of first (pos 0) (pos 0))
      first_holds refl second_takes

lease_name-IsDnsLabel_example : IsDnsLabel (
    lease_name digest
      (codes "bgd")
      (codes "My.BGD_with_long_suffix_that_should_be_cut, and more")
      (codes "uid-123"))
lease_name-IsDnsLabel_example =
    lease_name-IsDnsLabel digest digest-IsDigest b'b' (codes "gd")
      (codes "My.BGD_with_long_suffix_that_should_be_cut, and more") (codes "uid-123") refl
      (refl, (refl, (refl, tt))) (omega arith)
