-- ===== src/Controller/Inception/Order.antt =====
-- Inceptors are activated last, and only after everything that they need.
use fluidbgoperator.Base.{
  ℕ, ◌≡◌, ap, subst, inl, inr, ◌≤◌, ◌<◌, List, [], ◌∷◌, ◌++◌, arith, Bool, map,
}
use fluidbgoperator.Base.Lists.{All}
use fluidbgoperator.Base.Text.{Text}
use fluidbgoperator.Strategy.Float64.{Floats}
use fluidbgoperator.Crd.{InceptionPoint, BlueGreenDeployment}
use fluidbgoperator.Controller.{Result, ok, err}
use fluidbgoperator.Controller.Steps.{◌>>=◌, After, bind-After, weaken-After}
use fluidbgoperator.Controller.Deployments.{PropertyAssignment}
use fluidbgoperator.Controller.Inception.{
  Event, manager_prepares, inceptor_prepares, activates, waits_for_services, Log, Answers, Prepared,
  prepare_all, prepare_inceptors, activate_all, deploy, all_others, has_test, url_of_test,
  ensure_inception_resources,
}
use fluidbgoperator.Controller.Inception.Log.{
  stage, Occurs, InOrder, Upto, Stays, Stays-Occurs, Stays-pair, later-Upto,
}
use fluidbgoperator.Controller.Inception.Stages.{
  ManagersAsked, Each, AllAsked, Stays-All, prepare_all-Ensures, prepare_inceptors-Ensures,
  activate_all-Ensures, deploy-Ensures,
}

no_activation :
    (k : ℕ) (n : Text) (l : Log) → k < 8 → All (λ x. stage x ≤ k) l → Occurs (activates n) l → ⊥
no_activation k n [] h a o = o
no_activation k n (x ∷ xs) h a (inl same) =
    let eight : stage x ≡ 8 = ap stage same in omega (arith, h, a.0, eight)
no_activation k n (x ∷ xs) h a (inr more) = no_activation k n xs h a.1 more

-- Every inception point was prepared by its manager and its inceptor, and the tests' services answer.
pub record Ready (ips : List InceptionPoint) (l : Log) : Type 0 where
  pub managers : All (λ ip. Occurs (manager_prepares ip.name) l) ips
  pub inceptors : All (λ ip. Occurs (inceptor_prepares ip.name) l) ips
  pub services : Occurs waits_for_services l

each_of_names :
    (f : Text → Event) (ips : List InceptionPoint) (ps : List Prepared) (l : Log)
    → map (λ p. p.name) ps ≡ map (λ ip. ip.name) ips
    → All (λ p. Occurs (f p.name) l) ps
    → All (λ ip. Occurs (f ip.name) l) ips
each_of_names f [] ps l e h = tt
each_of_names f (ip ∷ ips) [] l e h = absurd (cc)
each_of_names f (ip ∷ ips) (p ∷ ps) l e h =
    let same : p.name ≡ ip.name = cc in
    (subst (λ n. Occurs (f n) l) same h.0, each_of_names f ips ps l (cc) h.1)

-- What the log of a preparation shows however it ends.
pub record IsSafe (ips : List InceptionPoint) (l : Log) : Type 0 where
  pub ordered : InOrder l
  pub activated : (n : Text) → Occurs (activates n) l → Ready ips l

abbrev pub Completed : List InceptionPoint → Log → Type 0
Completed ips l = IsSafe ips l × Ready ips l × All (λ ip. Occurs (activates ip.name) l) ips

IsSafe-early : (k : ℕ) (ips : List InceptionPoint) (l : Log) → k < 8 → Upto k l → IsSafe ips l
IsSafe-early k ips l h u = record {
  ordered = u.ordered;
  activated = λ n o. absurd (no_activation k n l h u.bounded o);
}

Stays-Ready : (ips : List InceptionPoint) → Stays (Ready ips)
Stays-Ready ips e l r = record {
  managers = Stays-All (λ ip. manager_prepares ip.name) ips e l r.managers;
  inceptors = Stays-All (λ ip. inceptor_prepares ip.name) ips e l r.inceptors;
  services = Stays-Occurs waits_for_services e l r.services;
}

no_calls : Upto 0 []
no_calls = record { ordered = tt; bounded = tt }

started :
    (ips : List InceptionPoint) (r : Result Text) → After (IsSafe ips) (λ _ w. Upto 0 w) (r, [])
started ips (ok url) = no_calls
started ips (err e) = IsSafe-early 0 ips [] (omega arith) no_calls

module _ (answers : Answers) where
  activation_last :
      (ips : List InceptionPoint) (ps : List Prepared) (l : Log)
      → map (λ p. p.name) ps ≡ map (λ ip. ip.name) ips
      → Upto 7 l
      → Ready ips l
      → After (IsSafe ips) (λ _. Completed ips) (activate_all answers ps l)
  activation_last ips ps l e u r =
      weaken-After (activate_all answers ps l)
        (λ w (x, y). record { ordered = x.ordered; activated = λ _ _. y })
        (λ _ w (x, y, z). (
          record { ordered = x.ordered; activated = λ _ _. y },
          y,
          each_of_names activates ips ps w e z,
        ))
        ((activate_all-Ensures answers ps).runs (Ready ips) (Stays-Ready ips) l
          (later-Upto 7 8 l (omega arith) u) r)

  after_deploy :
      (tested : Bool) (ips : List InceptionPoint) (ps : List Prepared)
      (more : List PropertyAssignment) (l : Log)
      → map (λ p. p.name) ps ≡ map (λ ip. ip.name) ips
      → Upto 1 l
      → ManagersAsked ips l
      → Each answers inceptor_prepares ps l
      → After
          (IsSafe ips)
          (λ _. Completed ips)
          ((deploy answers tested ps more >>= λ _. activate_all answers ps) l)
  after_deploy tested ips ps more l names_same u asked each =
      bind-After (IsSafe ips) (λ _ w. Upto 7 w × Ready ips w) (λ _. Completed ips)
        (deploy answers tested ps more l) (λ _. activate_all answers ps)
        (weaken-After (deploy answers tested ps more l)
          (λ w (x, y). IsSafe-early 7 ips w (omega arith) x)
          (λ _ w (x, y, z). (
            x,
            record {
              managers = y.0;
              inceptors = each_of_names inceptor_prepares ips ps w names_same y.1;
              services = z;
            },
          ))
          ((deploy-Ensures answers tested ps more).runs
            (λ w. ManagersAsked ips w × Each answers inceptor_prepares ps w)
            (Stays-pair (ManagersAsked ips) (Each answers inceptor_prepares ps)
              (Stays-All (λ ip. manager_prepares ip.name) ips)
              (Stays-All (λ p. inceptor_prepares p.name) ps))
            l u (asked, each)))
        (λ _ w (u', ready). activation_last ips ps w names_same u' ready)

  after_prepare :
      (tested : Bool) (ips : List InceptionPoint) (ps : List Prepared) (l : Log)
      → AllAsked answers ips ps l
      → Upto 0 l
      → After
          (IsSafe ips)
          (λ _. Completed ips)
          ((prepare_inceptors answers ps >>= λ more.
              deploy answers tested ps (all_others ps ++ more) >>= λ _. activate_all answers ps)
            l)
  after_prepare tested ips ps l (names_same, managers) u =
      bind-After (IsSafe ips)
        (λ _ w. Upto 1 w × ManagersAsked ips w × Each answers inceptor_prepares ps w)
        (λ _. Completed ips) (prepare_inceptors answers ps l)
        (λ more. deploy answers tested ps (all_others ps ++ more) >>= λ _. activate_all answers ps)
        (weaken-After (prepare_inceptors answers ps l)
          (λ w (x, y). IsSafe-early 1 ips w (omega arith) x) (λ _ w z. z)
          ((prepare_inceptors-Ensures answers ps).runs (ManagersAsked ips)
            (Stays-All (λ ip. manager_prepares ip.name) ips) l (later-Upto 0 1 l (omega arith) u)
            managers))
        (λ more w (u', asked, each).
          after_deploy tested ips ps (all_others ps ++ more) w names_same u' asked each)

  -- However the calls to the cluster and the plugins are answered, the log of a preparation is in the order of
  -- the stages: what managers prepare and what is applied for it, the inceptors' preparation, the
  -- tokens, the deployments, the tests, the waits, the assignments, the activations. An activation
  -- is in the log only if the manager and the inceptor of every inception point were asked to prepare
  -- and the wait for the tests' services was made; and a preparation that ends well has asked every
  -- inceptor to activate.
  pub ensure_inception_resources-Completed :
      (F : Floats) (bgd : BlueGreenDeployment F) (namespace : Text)
      → After
          (IsSafe bgd.spec.inception_points)
          (λ _. Completed bgd.spec.inception_points)
          (ensure_inception_resources F answers bgd namespace [])
  unfolding ensure_inception_resources
  ensure_inception_resources-Completed F bgd namespace =
      let ips = bgd.spec.inception_points in
      bind-After (IsSafe ips) (λ _ w. Upto 0 w) (λ _. Completed ips) (url_of_test F answers bgd, [])
        (λ url. prepare_all answers namespace url ips >>= λ ps.
          prepare_inceptors answers ps >>= λ more.
          deploy answers (has_test F answers bgd) ps (all_others ps ++ more) >>= λ _.
          activate_all answers ps)
        (started ips (url_of_test F answers bgd))
        (λ url l u.
          bind-After (IsSafe ips) (λ ps w. Upto 0 w × AllAsked answers ips ps w)
            (λ _. Completed ips) (prepare_all answers namespace url ips l)
            (λ ps. prepare_inceptors answers ps >>= λ more.
              deploy answers (has_test F answers bgd) ps (all_others ps ++ more) >>= λ _.
              activate_all answers ps)
            (weaken-After (prepare_all answers namespace url ips l)
              (λ w (x, y). IsSafe-early 0 ips w (omega arith) x) (λ ps w (x, y, z). (x, z))
              ((prepare_all-Ensures answers namespace url ips).runs (λ _. Unit {0}) (λ _ _ _. tt) l
                u tt))
            (λ ps w (x, z). after_prepare (has_test F answers bgd) ips ps w z x))
