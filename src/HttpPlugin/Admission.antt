-- ===== src/HttpPlugin/Admission.antt =====
-- The counter counts the requests inside, and a drained plugin serves none.
use fluidbgoperator.Base.{
  ℕ, zero, suc, ◌+◌, ◌^◌, ◌≤◌, ◌<◌, ◌≡◌, refl, Bool, true, false, List, [], ◌∷◌, arith, one_if,
}
use fluidbgoperator.Base.Lists.{length, any}
use fluidbgoperator.HttpPlugin.{
  RuntimeMode, active, draining, is_active, Shared, runtime_mode, set_runtime_mode, fetch_add,
  fetch_sub, Request, arrived, checked, counted, backing_out, admitted, refused, served, advance,
  World, Event, arrives, advances, sets, advance_nth, happens, run, start, drained, from_u8, as_u8,
}

-- A request between its `fetch_add` and its `fetch_sub`.
abbrev pub is_inside : Request → Bool
is_inside counted = true
is_inside backing_out = true
is_inside admitted = true
is_inside _ = false

abbrev pub is_admitted : Request → Bool
is_admitted admitted = true
is_admitted _ = false

unfoldable pub inside : List Request → ℕ
inside [] = 0
inside (r ∷ rs) = one_if (is_inside r) + inside rs

inside-le : (rs : List Request) → inside rs ≤ length rs
unfolding inside
inside-le [] = omega arith
inside-le (r ∷ rs) = ground (arith, inside-le rs)

advance-length :
    (i : ℕ) (rs : List Request) (s : Shared) → length (advance_nth i rs s).0 ≡ length rs
unfolding advance_nth
advance-length i [] s = refl
advance-length zero (r ∷ rs) s = refl
advance-length (suc i) (r ∷ rs) s = omega (arith, advance-length i rs s)

-- One step moves the counter as it moves the request.
advance-counts :
    (r : Request) (s : Shared) (others : ℕ)
    → s.active_requests ≡ one_if (is_inside r) + others
    → others + 1 < 2 ^ 64
    → let out = advance r s in out.1.active_requests ≡ one_if (is_inside out.0) + others
unfolding advance fetch_add fetch_sub
advance-counts arrived s others e small = ground arith
advance-counts checked s others e small = ground arith
advance-counts counted s others e small = ground arith
advance-counts backing_out s others e small = ground arith
advance-counts admitted s others e small = ground arith
advance-counts refused s others e small = e
advance-counts served s others e small = e

advance_nth-counts :
    (i : ℕ) (rs : List Request) (s : Shared) (others : ℕ)
    → s.active_requests ≡ others + inside rs
    → others + length rs < 2 ^ 64
    → let out = advance_nth i rs s in out.1.active_requests ≡ others + inside out.0
unfolding advance_nth inside
advance_nth-counts i [] s others e small = e
advance_nth-counts zero (r ∷ rs) s others e small =
    omega
      (arith, advance-counts r s (others + inside rs) (omega arith) (omega (arith, inside-le rs)))
advance_nth-counts (suc i) (r ∷ rs) s others e small =
    omega (
      arith,
      advance_nth-counts i rs s (others + one_if (is_inside r)) (omega arith) (ground arith),
    )

abbrev pub IsCounted : World → Type 0
IsCounted w = w.shared.active_requests ≡ inside w.requests

happens-length : (e : Event) (w : World) → length w.requests ≤ length (happens e w).requests
unfolding happens
happens-length arrives w = omega arith
happens-length (advances i) w = omega (arith, advance-length i w.requests w.shared)
happens-length (sets mode) w = omega arith

run-length : (es : List Event) (w : World) → length w.requests ≤ length (run es w).requests
unfolding run
run-length [] w = omega arith
run-length (e ∷ es) w = omega (arith, happens-length e w, run-length es (happens e w))

happens-IsCounted :
    (e : Event) (w : World)
    → IsCounted w
    → length (happens e w).requests < 2 ^ 64
    → IsCounted (happens e w)
unfolding happens inside set_runtime_mode
happens-IsCounted arrives w c small = omega arith
happens-IsCounted (advances i) w c small = omega (
  arith,
  advance_nth-counts i w.requests w.shared 0 (omega arith)
      (omega (arith, advance-length i w.requests w.shared)),
)
happens-IsCounted (sets mode) w c small = c

-- However the requests and the operator's calls interleave, the counter is the number of the
-- requests between their increment and their decrement, admitted ones included, from any state in
-- which it is. (Fewer than 2 ^ 64 requests arrive.)
pub run-IsCounted :
    (es : List Event) (w : World)
    → IsCounted w
    → length (run es w).requests < 2 ^ 64
    → IsCounted (run es w)
unfolding run
run-IsCounted [] w c small = c
run-IsCounted (e ∷ es) w c small =
    run-IsCounted es (happens e w)
      (happens-IsCounted e w c (omega (arith, small, run-length es (happens e w)))) small

pub start-IsCounted : (mode : RuntimeMode) (traffic : ℕ) → IsCounted (start mode traffic)
unfolding start inside
start-IsCounted mode traffic = refl

-- No event activates the plugin.
abbrev pub activates : Event → Bool
activates (sets active) = true
activates _ = false

-- The mode is not `Active` and no request holds the guard.
abbrev pub IsQuiet : World → Type 0
IsQuiet w = (is_active (runtime_mode w.shared) ≡ false) × (any is_admitted w.requests ≡ false)

advance-quiet :
    (r : Request) (s : Shared)
    → is_active (runtime_mode s) ≡ false
    → is_admitted r ≡ false
    → let out = advance r s in
      (is_active (runtime_mode out.1) ≡ false) × (is_admitted out.0 ≡ false)
unfolding advance runtime_mode fetch_add fetch_sub
advance-quiet r s m a = ground arith

advance_nth-quiet :
    (i : ℕ) (rs : List Request) (s : Shared)
    → is_active (runtime_mode s) ≡ false
    → any is_admitted rs ≡ false
    → let out = advance_nth i rs s in
      (is_active (runtime_mode out.1) ≡ false) × (any is_admitted out.0 ≡ false)
unfolding advance_nth
advance_nth-quiet i [] s m a = (m, a)
advance_nth-quiet zero (r ∷ rs) s m a = ground (arith, advance-quiet r s m)
advance_nth-quiet (suc i) (r ∷ rs) s m a = ground (arith, advance_nth-quiet i rs s m)

happens-IsQuiet : (e : Event) (w : World) → activates e ≡ false → IsQuiet w → IsQuiet (happens e w)
unfolding happens set_runtime_mode runtime_mode as_u8 from_u8
happens-IsQuiet arrives w n q = q
happens-IsQuiet (advances i) w n q = advance_nth-quiet i w.requests w.shared q.0 q.1
happens-IsQuiet (sets mode) w n q = (ground arith, q.1)

run-IsQuiet :
    (es : List Event) (w : World) → any activates es ≡ false → IsQuiet w → IsQuiet (run es w)
unfolding run
run-IsQuiet [] w n q = q
run-IsQuiet (e ∷ es) w n q =
    run-IsQuiet es (happens e w) (ground arith) (happens-IsQuiet e w (ground arith) q)

none_inside : (rs : List Request) → inside rs ≡ 0 → any is_admitted rs ≡ false
unfolding inside
none_inside [] e = refl
none_inside (r ∷ rs) e = ground (arith, none_inside rs)

-- A drained plugin serves nobody. Suppose that a status call loads the counter after the plugin has
-- stopped being active, loads the mode later, reports `drained`, and that nothing activates the
-- plugin from the first load on. Then, at the second load and at every time after it, no request
-- holds the guard. (`w` is the state at the first load, with the counter right; `between` happens
-- before the second load, `after` later.)
pub drained_serves_nobody :
    (w : World) (between after : List Event)
    → IsCounted w
    → is_active (runtime_mode w.shared) ≡ false
    → any activates between ≡ false
    → any activates after ≡ false
    → drained w.shared.active_requests (runtime_mode (run between w).shared) ≡ true
    → (any is_admitted (run between w).requests ≡ false)
      × (any is_admitted (run after (run between w)).requests ≡ false)
unfolding drained
drained_serves_nobody w between after right stopped nb na d =
    let quiet : IsQuiet w = (stopped, none_inside w.requests (ground (arith, right))) in
    let then_quiet = run-IsQuiet between w nb quiet in
    (then_quiet.1, (run-IsQuiet after (run between w) na then_quiet).1)

-- Why the plugin must have stopped before the first load: from every active state with the counter
-- at 0, a request may be admitted and the drain may begin between the two loads of one status call,
-- which then reports `drained` although a request holds the guard.
pub status_call_races_drain :
    (w : World)
    → is_active (runtime_mode w.shared) ≡ true
    → w.shared.active_requests ≡ 0
    → let between = arrives ∷ advances 0 ∷ advances 0 ∷ advances 0 ∷ sets draining ∷ [] in
      (drained w.shared.active_requests (runtime_mode (run between w).shared) ≡ true)
      × (any is_admitted (run between w).requests ≡ true)
unfolding drained run happens advance_nth advance set_runtime_mode runtime_mode fetch_add as_u8
    from_u8
status_call_races_drain w m z = (ground arith, ground arith)
