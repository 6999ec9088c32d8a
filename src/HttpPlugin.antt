-- ===== src/HttpPlugin.antt =====
-- The admission of requests and the drain of the HTTP plugin: plugins/http/src/state.rs, and the
-- handlers of the operator's calls in plugins/http/src/handlers.rs. Each atomic operation is a step, and
-- an interleaving is a list of events.
pub mod Admission
mod Examples
use fluidbgoperator.Base.{
  ℕ, zero, suc, ◌+◌, ◌-◌, ◌%◌, ◌^◌, Bool, true, false, not, ◌&&◌, Option, none, some, List, [], ◌∷◌,
  ◌++◌, if◌then◌else◌, ltb, ◌==◌,
}
use fluidbgoperator.Base.Text.{Text}
use fluidbgoperator.Sdk.Auth.{bearer_matches}

pub data RuntimeMode : Type 0 where
  active draining idle : RuntimeMode

pub from_u8 : ℕ → RuntimeMode
from_u8 value = if value == 1 then draining else (if value == 2 then idle else active)

-- `mode as u8`.
pub as_u8 : RuntimeMode → ℕ
as_u8 active = 0
as_u8 draining = 1
as_u8 idle = 2

abbrev pub is_active : RuntimeMode → Bool
is_active active = true
is_active _ = false

abbrev pub is_draining : RuntimeMode → Bool
is_draining draining = true
is_draining _ = false

-- The atomics of `AppState`.
pub record Shared : Type 0 where
  pub mode : ℕ
  pub active_requests : ℕ
  pub traffic_percent : ℕ

pub runtime_mode : Shared → RuntimeMode
unfolding from_u8
runtime_mode s = from_u8 s.mode

pub set_runtime_mode : RuntimeMode → Shared → Shared
unfolding as_u8
set_runtime_mode mode s = record s { mode = as_u8 mode }

-- `fetch_add(1)` and `fetch_sub(1)` of a 64-bit `AtomicUsize`.
pub fetch_add : Shared → Shared
fetch_add s = record s { active_requests = (s.active_requests + 1) % 2 ^ 64 }

pub fetch_sub : Shared → Shared
fetch_sub s = record s { active_requests = (s.active_requests + (2 ^ 64 - 1)) % 2 ^ 64 }

-- Where a request stands in `ActiveRequestGuard::try_new` and after it: `admitted` holds the guard,
-- `served` has dropped it.
pub data Request : Type 0 where
  arrived checked counted backing_out admitted refused served : Request

-- The next atomic operation of a request.
pub advance : Request → Shared → Request × Shared
unfolding runtime_mode fetch_add fetch_sub
advance arrived s = if is_active (runtime_mode s) then (checked, s) else (refused, s)
advance checked s = (counted, fetch_add s)
advance counted s = if is_active (runtime_mode s) then (admitted, s) else (backing_out, s)
advance backing_out s = (refused, fetch_sub s)
advance admitted s = (served, fetch_sub s)
advance refused s = (refused, s)
advance served s = (served, s)

pub record World : Type 0 where
  pub shared : Shared
  pub requests : List Request

-- A new request, a step of the request at a place, or a store to the mode by a handler.
pub data Event : Type 0 where
  arrives : Event
  advances : ℕ → Event
  sets : RuntimeMode → Event

pub advance_nth : ℕ → List Request → Shared → List Request × Shared
unfolding advance
advance_nth i [] s = ([], s)
advance_nth zero (r ∷ rs) s = let out = advance r s in (out.0 ∷ rs, out.1)
advance_nth (suc i) (r ∷ rs) s = let out = advance_nth i rs s in (r ∷ out.0, out.1)

pub happens : Event → World → World
unfolding advance_nth set_runtime_mode
happens arrives w = record w { requests = arrived ∷ w.requests }
happens (advances i) w =
    let out = advance_nth i w.requests w.shared in record { shared = out.1; requests = out.0 }
happens (sets mode) w = record w { shared = set_runtime_mode mode w.shared }

pub run : List Event → World → World
unfolding happens
run [] w = w
run (e ∷ es) w = run es (happens e w)

-- As `main` starts the plugin in a mode.
pub start : RuntimeMode → ℕ → World
unfolding as_u8
start mode traffic = record {
  shared = record { mode = as_u8 mode; active_requests = 0; traffic_percent = traffic };
  requests = [];
}

pub data StatusCode : Type 0 where
  ok_status unauthorized bad_request : StatusCode

-- The handlers of the operator's calls, behind `authorize_operator`; the token is the plugin's.
pub authorized : Option Text → Option Text → (Shared → Shared) → Shared → StatusCode × Shared
authorized token header action s =
    if bearer_matches header token then (ok_status, action s) else (unauthorized, s)

pub prepare_handler : Option Text → Option Text → Shared → StatusCode × Shared
unfolding authorized
prepare_handler token header = authorized token header (set_runtime_mode idle)

pub activate_handler : Option Text → Option Text → Shared → StatusCode × Shared
unfolding authorized
activate_handler token header = authorized token header (set_runtime_mode active)

pub drain_handler : Option Text → Option Text → Shared → StatusCode × Shared
unfolding authorized
drain_handler token header = authorized token header (set_runtime_mode draining)

pub cleanup_handler : Option Text → Option Text → Shared → StatusCode × Shared
unfolding authorized
cleanup_handler token header = authorized token header (set_runtime_mode draining)

-- `drained` of `drain_status`, which loads the counter first and the mode after it.
pub drained : ℕ → RuntimeMode → Bool
drained active_loaded mode_loaded = is_draining mode_loaded && active_loaded == 0

pub traffic_shift_handler :
    Option Text → Option Text → Bool → ℕ → Shared → (StatusCode × Option ℕ) × Shared
traffic_shift_handler token header is_splitter percent s =
    if not (bearer_matches header token)
    then ((unauthorized, none), s)
    else (if not is_splitter
        then ((bad_request, none), s)
        else let stored = if ltb percent 100 then percent else 100 in
          ((ok_status, some (stored % 2 ^ 8)), record s { traffic_percent = stored }))
