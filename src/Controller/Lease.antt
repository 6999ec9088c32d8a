-- ===== src/Controller/Lease.antt =====
-- The leases that keep two operators from reconciling one deployment: operator/src/controller/lease.rs.
-- Times are in nanoseconds. The API server keeps one object with a version; a replacement carries the
-- version that was read and is refused, as a creation of what exists is, with a conflict.
pub mod History
pub mod Exclusion
pub mod Names
mod Examples
use fluidbgoperator.Base.{
  ℕ, zero, suc, ◌+◌, ◌-◌, ◌^◌, Bool, true, false, not, ◌&&◌, ◌||◌, Option, none, some, List, [],
  ◌∷◌, if◌then◌else◌, ltb, leb, ◌==◌, unwrap_or,
}
use fluidbgoperator.Base.Text.{Text, option_text_eq}
use fluidbgoperator.Base.Int.{ℤ, pos, ◌+ℤ◌, ltb_ℤ}
use fluidbgoperator.Store.{seconds}

-- `duration` in whole seconds.
pub record LeaseConfig : Type 0 where
  pub holder_identity : Text
  pub duration : ℕ

pub record LeaseSpec : Type 0 where
  pub acquire_time : Option ℤ
  pub holder_identity : Option Text
  pub lease_duration_seconds : Option ℤ
  pub lease_transitions : Option ℤ
  pub renew_time : Option ℤ

-- `i32::try_from(...).unwrap_or(i32::MAX).max(1)`.
pub duration_seconds : ℕ → ℤ
duration_seconds n = if n == 0 then pos 1 else (if ltb n (2 ^ 31) then pos n else pos (2 ^ 31 - 1))

abbrev pub or_else : {A : Type 0} → Option A → Option A → Option A
or_else none b = b
or_else (some a) b = some a

-- The comparison in `f64` is that of the integers for the durations in use (up to 2 ^ 22 seconds,
-- a nanosecond less than the duration does not round up to it).
pub lease_expired : ℤ → LeaseSpec → Bool
lease_expired now spec = elim (or_else spec.renew_time spec.acquire_time) [
  | none ↦ true
  | some renew_time ↦
      let duration = unwrap_or spec.lease_duration_seconds (pos 0) in
      if not (ltb_ℤ (pos 0) duration)
      then true
      else not (ltb_ℤ now (renew_time +ℤ seconds duration))
]

pub held_by : LeaseConfig → LeaseSpec → Bool
held_by config spec = option_text_eq spec.holder_identity (some config.holder_identity)

-- The object is the optional spec of the lease.
pub lease_can_be_acquired : ℤ → Option LeaseSpec → LeaseConfig → Bool
unfolding held_by lease_expired
lease_can_be_acquired now none config = true
lease_can_be_acquired now (some spec) config =
    if held_by config spec then true else lease_expired now spec

pub transition_increment : Option LeaseSpec → LeaseConfig → ℤ
unfolding held_by
transition_increment none config = pos 1
transition_increment (some spec) config = if held_by config spec then pos 0 else pos 1

pub lease_spec : ℤ → LeaseConfig → ℤ → Bool → LeaseSpec
unfolding duration_seconds
lease_spec now config transitions acquired = record {
  acquire_time = if acquired then some now else none;
  holder_identity = some config.holder_identity;
  lease_duration_seconds = some (duration_seconds config.duration);
  lease_transitions = some transitions;
  renew_time = some now;
}

pub transitions_of : Option LeaseSpec → ℤ
transitions_of none = pos 0
transitions_of (some spec) = unwrap_or spec.lease_transitions (pos 0)

-- A stored lease: its version and its spec.
pub record Stored : Type 0 where
  pub version : ℕ
  pub spec : Option LeaseSpec

-- Between the read and the write of `try_acquire_lease` and of `renew_lease`.
pub data Kind : Type 0 where
  acquires renews : Kind

pub record Attempt : Type 0 where
  pub kind : Kind
  pub config : LeaseConfig
  pub read_at : ℤ
  pub object : Option Stored

pub record World : Type 0 where
  pub stored : Option Stored
  pub next_version : ℕ
  pub attempts : List Attempt

-- An operator reads and decides, an attempt reaches the server with the clock of its spec, or the
-- lease is deleted with its owner.
pub data Event : Type 0 where
  reads : Kind → LeaseConfig → ℤ → Event
  writes : ℕ → ℤ → Event
  deletes : Event

-- Whether the code goes on to write, after what it read.
pub goes_on : Kind → LeaseConfig → ℤ → Option Stored → Bool
unfolding lease_can_be_acquired held_by
goes_on acquires config now none = true
goes_on acquires config now (some object) = lease_can_be_acquired now object.spec config
goes_on renews config now none = false
goes_on renews config now (some object) = elim object.spec [
  | none ↦ false
  | some spec ↦ held_by config spec
]

-- The spec that the attempt writes.
pub written : Attempt → ℤ → LeaseSpec
unfolding lease_spec transitions_of transition_increment
written a now =
    let before : Option LeaseSpec = elim a.object [ none ↦ none | some object ↦ object.spec ] in
    elim a.kind [
      | acquires ↦ elim a.object [
        | none ↦ lease_spec now a.config (pos 0) true
        | some object ↦
            lease_spec now a.config (transitions_of before +ℤ transition_increment before a.config)
              true
      ]
      | renews ↦ lease_spec now a.config (transitions_of before) false
    ]

-- The server's test: a creation of what does not exist, or the version that is stored.
abbrev pub accepts : Option Stored → Option Stored → Bool
accepts none none = true
accepts none (some _) = false
accepts (some _) none = false
accepts (some now) (some read) = now.version == read.version

pub nth : ℕ → List Attempt → Option Attempt
nth i [] = none
nth zero (a ∷ rest) = some a
nth (suc i) (a ∷ rest) = nth i rest

pub write_attempt : Attempt → ℤ → World → World
unfolding written
write_attempt a now w =
    if accepts w.stored a.object
    then record w {
      stored = some (record { version = w.next_version; spec = some (written a now) });
      next_version = w.next_version + 1;
    }
    else w

pub happens : Event → World → World
unfolding goes_on nth write_attempt
happens (reads kind config now) w =
    if goes_on kind config now w.stored
    then record w {
      attempts =
          record { kind = kind; config = config; read_at = now; object = w.stored } ∷ w.attempts;
    }
    else w
happens (writes i now) w = elim (nth i w.attempts) [ none ↦ w | some a ↦ write_attempt a now w ]
happens deletes w = record w { stored = none }

pub run : List Event → World → World
unfolding happens
run [] w = w
run (e ∷ es) w = run es (happens e w)

pub empty : World
empty = record { stored = none; next_version = 0; attempts = [] }
