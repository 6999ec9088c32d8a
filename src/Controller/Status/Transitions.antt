-- ===== src/Controller/Status/Transitions.antt =====
-- How the stored phase and generation may follow one another, by the test of controller/status.rs.
use fluidbgoperator.Base.{
  ℕ, ◌≤◌, ◌≡◌, refl, subst, ◌∙◌, ◌⊎◌, inl, inr, Bool, true, false, ◌&&◌, Option, none, some, arith,
  if◌then◌else◌, leb, Bool-cases,
}
use fluidbgoperator.Base.Int.{ℤ, ◌<ℤ◌, ltb_ℤ, eq_of_parts}
use fluidbgoperator.Strategy.Float64.{Floats}
use fluidbgoperator.Crd.{BgdPhase, BlueGreenDeployment}
use fluidbgoperator.Controller.Status.{
  Reply, phase_rank, phase_is_terminal, phase_eq, phase_transition_is_current, latest_phase,
  observed_generation, current_rollout_generation, phase_update_is_current, update_status_phase,
  if_named-cases,
}

abbrev rank_of : Option BgdPhase → ℕ
rank_of none = 0
rank_of (some p) = phase_rank p

abbrev is_final : Option BgdPhase → Bool
is_final none = false
is_final (some p) = phase_is_terminal p

phase_eq→eq : (p q : BgdPhase) → phase_eq p q ≡ true → p ≡ q
phase_eq→eq p q h = ground arith

-- How a phase and a generation may follow another: a later generation, or the same one with the
-- phase no earlier, and unchanged if it was a terminal one.
abbrev pub Follows : Option BgdPhase → ℤ → Option BgdPhase → ℤ → Type 0
Follows lp lg rp rg =
    (lg <ℤ rg) ⊎ ((lg ≡ rg) × (rank_of lp ≤ rank_of rp) × ((is_final lp ≡ false) ⊎ (rp ≡ lp)))

accepted_phase :
    (lp : Option BgdPhase) (rp : BgdPhase) (g : ℤ)
    → (elim lp [
      | none ↦ true
      | some latest ↦
          if phase_eq latest rp
          then true
          else (if phase_is_terminal latest then false else leb (phase_rank latest) (phase_rank rp))
    ])
      ≡ true
    → (rank_of lp ≤ phase_rank rp) × ((is_final lp ≡ false) ⊎ (some rp ≡ lp))
unfolding phase_rank
accepted_phase none rp g h = (omega arith, inl refl)
accepted_phase (some l) rp g h = elim (Bool-cases (phase_eq l rp)) [
  | inl same ↦ let e = phase_eq→eq l rp same in (rw e (omega arith), inr (rw e refl))
  | inr differ ↦ (ground arith, inl (ground arith))
]

pub current-Follows :
    (lp : Option BgdPhase) (lg : ℤ) (rp : BgdPhase) (rg : ℤ)
    → phase_transition_is_current lp lg rp rg ≡ true
    → Follows lp lg (some rp) rg
unfolding phase_transition_is_current
current-Follows lp lg rp rg h = elim (Bool-cases (ltb_ℤ lg rg)) [
  | inl later ↦ inl (ground arith)
  | inr same ↦
      let (no_earlier, final) = accepted_phase lp rp rg (ground arith) in
      inr (eq_of_parts lg rg (ground arith), no_earlier, final)
]

pub Follows-refl : (lp : Option BgdPhase) (g : ℤ) → Follows lp g lp g
Follows-refl lp g = inr (refl, omega arith, inr refl)

pub Follows-trans :
    (a b c : Option BgdPhase) (x y z : ℤ) → Follows a x b y → Follows b y c z → Follows a x c z
Follows-trans a b c x y z (inl h) (inl k) = inl (omega arith)
Follows-trans a b c x y z (inl h) (inr (e, r, f)) = inl (rw (← e) h)
Follows-trans a b c x y z (inr (e, r, f)) (inl k) = inl (rw e k)
Follows-trans a b c x y z (inr (e, r, f)) (inr (e', r', f')) = inr (
  e ∙ e',
  omega arith,
  elim f [
    | inl open_phase ↦ inl open_phase
    | inr same ↦ subst (λ q. (is_final q ≡ false) ⊎ (c ≡ q)) same f'
  ],
)

module _ (F : Floats) where
  abbrev pub Precedes : BlueGreenDeployment F → BlueGreenDeployment F → Type 0
  Precedes s t =
      Follows (latest_phase F s) (observed_generation F s) (latest_phase F t)
        (observed_generation F t)

  pub write-Precedes :
      (now : ℤ) (reply : Reply) (seen stored : BlueGreenDeployment F) (phase : BgdPhase)
      → Precedes stored (update_status_phase F now reply seen phase stored)
  unfolding update_status_phase latest_phase observed_generation
  write-Precedes now reply seen stored phase =
      if_named-cases F (λ t. Precedes stored t) seen _ _ stored (Follows-refl _ _)
        (λ accepted.
          current-Follows (latest_phase F stored) (observed_generation F stored) phase
            (current_rollout_generation F seen) (current_of accepted))
    where
      current_of :
          reply.read_ok
              && (phase_update_is_current F stored phase (current_rollout_generation F seen)
                  && reply.write_ok)
            ≡ true
          → phase_transition_is_current
              (latest_phase F stored)
              (observed_generation F stored)
              phase
              (current_rollout_generation F seen)
            ≡ true
      current_of accepted = ground arith
