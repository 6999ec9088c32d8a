-- ===== src/Controller/Inception/Stages.antt =====
-- The stages that the parts of the preparation go through.
use fluidbgoperator.Base.{
  ℕ, ◌≡◌, refl, ap, ap₂, ◌∙◌, inr, ◌≤◌, Option, none, some, List, [], ◌∷◌, arith, Bool, true, false,
  map,
}
use fluidbgoperator.Base.Lists.{All}
use fluidbgoperator.Base.Text.{Text, codes}
use fluidbgoperator.Base.Map.{Map}
use fluidbgoperator.Crd.{InceptionPoint}
use fluidbgoperator.Controller.{Result}
use fluidbgoperator.Controller.Steps.{Step, done, ◌>>=◌}
use fluidbgoperator.Controller.Deployments.{PropertyAssignment}
use fluidbgoperator.Controller.Inception.{
  Event, manager_prepares, inceptor_prepares, activates, gets_plugin, signs_token,
  applies_config_map, applies_secret, applies_service, applies_deployment, waits_for_plugins,
  writes_tokens, declares_deployments, makes_tests, waits_for_tests, waits_for_services,
  applies_assignments, waits_for_touched, Log, Answers, LifecycleResponse, DeploymentIdentity,
  Prepared, ask, call, apply_all, apply_deployments, render_and_apply, prepare_one, prepare_all,
  check_prepared, check_activated, wait_if_any, prepare_inceptor, prepare_inceptors, activate_one,
  activate_all, apply_if_any, test_env, deploy, tokens_of, all_tests,
}
use fluidbgoperator.Controller.Inception.Log.{
  stage, Occurs, Stays, Stays-Occurs, Ensures, bind-Ensures, weaken-Ensures, then-Ensures,
  from-Ensures, done-Ensures, of_result-Ensures, fail-Ensures, ask-Ensures, call-Ensures,
}

abbrev pub Any : {A : Type 0} → A → Log → Type 0
Any _ _ = Unit {0}

abbrev pub ManagersAsked : List InceptionPoint → Log → Type 0
ManagersAsked ips l = All (λ ip. Occurs (manager_prepares ip.name) l) ips

pub Stays-All :
    {X : Type 0} (f : X → Event) (xs : List X) → Stays (λ l. All (λ x. Occurs (f x) l) xs)
Stays-All f [] e log h = tt
Stays-All f (x ∷ xs) e log h = (inr h.0, Stays-All f xs e log h.1)

-- Two steps of one stage.
seq :
    {A B : Type 0} (k : ℕ) (S : B → Log → Type 0) (m : Step Log A) (f : A → Step Log B)
    → Ensures k k Any m
    → ((a : A) → Ensures k k S (f a))
    → Ensures k k S (m >>= f)
seq k S m f first rest = then-Ensures k k k Any S m f (omega arith) first rest

asked : {A : Type 0} (e : Event) (r : Result A) → Ensures (stage e) (stage e) Any (ask e r)
asked e r =
    weaken-Ensures (stage e) (stage e) (λ _ l. Occurs e l) Any (ask e r) (λ _ _ _. tt)
      (ask-Ensures e r)

module _ (answers : Answers) where
  apply_all-Ensures :
      (event : Text → Event) (kind : Text) (names : List (Option Text))
      → ((n : Text) → Ensures 0 0 Any (call answers (event n)))
      → Ensures 0 0 Any (apply_all answers event kind names)
  unfolding apply_all
  apply_all-Ensures event kind [] h = done-Ensures 0 Any tt (λ _. tt)
  apply_all-Ensures event kind (none ∷ names) h = fail-Ensures 0 Any _
  apply_all-Ensures event kind (some n ∷ names) h =
      seq 0 Any (call answers (event n)) (λ _. apply_all answers event kind names) (h n)
        (λ _. apply_all-Ensures event kind names h)

  called : (e : Event) → Ensures (stage e) (stage e) Any (call answers e)
  called e =
      weaken-Ensures (stage e) (stage e) (λ _ l. Occurs e l) Any (call answers e) (λ _ _ _. tt)
        (call-Ensures answers e)

  apply_deployments-Ensures :
      (ns : Text) (ds : List (Option Text × Option Text))
      → Ensures 0 0 Any (apply_deployments answers ns ds)
  unfolding apply_deployments
  apply_deployments-Ensures ns [] = done-Ensures 0 Any [] (λ _. tt)
  apply_deployments-Ensures ns ((none, x) ∷ ds) = fail-Ensures 0 Any _
  apply_deployments-Ensures ns ((some n, x) ∷ ds) =
      seq 0 Any _ _ (called (applies_deployment _)) (λ _.
        seq 0 Any (apply_deployments answers ns ds) _ (apply_deployments-Ensures ns ds)
          (λ more. done-Ensures 0 Any _ (λ _. tt)))

  render_and_apply-Ensures :
      (ns url : Text) (ip : InceptionPoint) (r : Option LifecycleResponse)
      → Ensures 0 0 (λ p _. p.name ≡ ip.name) (render_and_apply answers ns url ip r)
  unfolding render_and_apply
  render_and_apply-Ensures ns url ip r =
      let named : Prepared → Log → Type 0 = λ p _. p.name ≡ ip.name in
      seq 0 named _ _ (of_result-Ensures 0 _) (λ _.
        seq 0 named _ _ (asked (signs_token ip.name) (answers.token ip.name)) (λ token.
          seq 0 named _ _ (of_result-Ensures 0 _) (λ res.
            seq 0 named _ _
              (apply_all-Ensures applies_config_map (codes "ConfigMap") res.config_maps
                (λ n. called (applies_config_map n)))
              (λ _.
                seq 0 named _ _
                  (apply_all-Ensures applies_secret (codes "Secret") res.secrets
                    (λ n. called (applies_secret n)))
                  (λ _. seq 0 named _ _ (apply_deployments-Ensures ns res.deployments) (λ ds.
                    seq 0 named _ _
                      (apply_all-Ensures applies_service (codes "Service") res.services
                        (λ n. called (applies_service n)))
                      (λ _. done-Ensures 0 named _ (λ _. refl))))))))

  abbrev Asked : InceptionPoint → Prepared → Log → Type 0
  Asked ip p l = (p.name ≡ ip.name) × Occurs (manager_prepares ip.name) l

  prepare_one-Ensures :
      (ns url : Text) (ip : InceptionPoint) → Ensures 0 0 (Asked ip) (prepare_one answers ns url ip)
  unfolding prepare_one
  prepare_one-Ensures ns url ip = seq 0 (Asked ip) _ _ (called (gets_plugin ip.plugin_ref)) (λ _.
      seq 0 (Asked ip) _ _ (of_result-Ensures 0 (answers.validated ip)) (λ _.
        weaken-Ensures 0 0 _ (Asked ip) _ (λ p l (r, occurs, same). (same, occurs))
          (bind-Ensures 0 0 0 (λ _ l. Occurs (manager_prepares ip.name) l)
            (λ _ p _. p.name ≡ ip.name) (ask (manager_prepares ip.name) (answers.managed ip.name))
            (λ r. render_and_apply answers ns url ip r) (omega arith)
            (ask-Ensures (manager_prepares ip.name) (answers.managed ip.name))
            (λ _. Stays-Occurs (manager_prepares ip.name))
            (λ r. render_and_apply-Ensures ns url ip r))))

  abbrev pub names : List Prepared → List Text
  names ps = map (λ p. p.name) ps

  abbrev pub ip_names : List InceptionPoint → List Text
  ip_names ips = map (λ ip. ip.name) ips

  abbrev pub AllAsked : List InceptionPoint → List Prepared → Log → Type 0
  AllAsked ips ps l = (names ps ≡ ip_names ips) × ManagersAsked ips l

  pub prepare_all-Ensures :
      (ns url : Text) (ips : List InceptionPoint)
      → Ensures 0 0 (AllAsked ips) (prepare_all answers ns url ips)
  unfolding prepare_all
  prepare_all-Ensures ns url [] = done-Ensures 0 (AllAsked []) [] (λ _. (refl, tt))
  prepare_all-Ensures ns url (ip ∷ ips) =
      weaken-Ensures 0 0 _ (AllAsked (ip ∷ ips)) _
        (λ b l (p, (same, occurs), (ps, (rest, asked_rest), e)).
          (ap names e ∙ ap₂ (λ x xs. x ∷ xs) same rest, (occurs, asked_rest)))
        (bind-Ensures 0 0 0 (Asked ip)
          (λ p b l. (ps : List Prepared) × AllAsked ips ps l × (b ≡ p ∷ ps))
          (prepare_one answers ns url ip) _ (omega arith) (prepare_one-Ensures ns url ip)
          (λ _ e l (s, o). (s, inr o))
          (λ p.
            bind-Ensures 0 0 0 (AllAsked ips) (λ ps b _. b ≡ p ∷ ps)
              (prepare_all answers ns url ips) (λ ps. done (p ∷ ps)) (omega arith)
              (prepare_all-Ensures ns url ips)
              (λ _ e l (s, o). (s, Stays-All (λ ip. manager_prepares ip.name) ips e l o))
              (λ ps. done-Ensures 0 (λ b _. b ≡ p ∷ ps) (p ∷ ps) (λ _. refl))))

  wait_if_any-Ensures : (ds : List DeploymentIdentity) → Ensures 1 1 Any (wait_if_any answers ds)
  unfolding wait_if_any
  wait_if_any-Ensures [] = done-Ensures 1 Any tt (λ _. tt)
  wait_if_any-Ensures (d ∷ ds) = called (waits_for_plugins (d ∷ ds))

  check_prepared-Ensures :
      (n : Text) (r : Option LifecycleResponse) → Ensures 1 1 Any (check_prepared n r)
  unfolding check_prepared
  check_prepared-Ensures n none = done-Ensures 1 Any [] (λ _. tt)
  check_prepared-Ensures n (some r) =
      seq 1 Any _ _ (of_result-Ensures 1 _) (λ _.
        seq 1 Any _ _ (of_result-Ensures 1 _) (λ _. done-Ensures 1 Any r.assignments (λ _. tt)))

  check_activated-Ensures :
      (n : Text) (r : Option LifecycleResponse) → Ensures 8 8 Any (check_activated n r)
  unfolding check_activated
  check_activated-Ensures n none = done-Ensures 8 Any tt (λ _. tt)
  check_activated-Ensures n (some r) =
      seq 8 Any _ _ (of_result-Ensures 8 _) (λ _. of_result-Ensures 8 _)

  -- A call and what follows it in its stage.
  kept :
      {A B : Type 0} (k : ℕ) (e : Event) (m : Step Log A) (f : A → Step Log B)
      → Ensures k k (λ _ l. Occurs e l) m
      → ((a : A) → Ensures k k Any (f a))
      → Ensures k k (λ _ l. Occurs e l) (m >>= f)
  kept k e m f first rest =
      weaken-Ensures k k _ (λ _ l. Occurs e l) (m >>= f) (λ b l (a, o, t). o)
        (bind-Ensures k k k (λ _ l. Occurs e l) (λ _. Any) m f (omega arith) first
          (λ _. Stays-Occurs e) rest)

  prepare_inceptor-Ensures :
      (p : Prepared)
      → Ensures 1 1 (λ _ l. Occurs (inceptor_prepares p.name) l) (prepare_inceptor answers p)
  unfolding prepare_inceptor
  prepare_inceptor-Ensures p = seq 1 _ _ _ (wait_if_any-Ensures p.plugin_deployments) (λ _.
      kept 1 (inceptor_prepares p.name) _ (λ r. check_prepared p.name r)
        (ask-Ensures (inceptor_prepares p.name) (answers.prepared p.name))
        (λ r. check_prepared-Ensures p.name r))

  activate_one-Ensures :
      (p : Prepared) → Ensures 8 8 (λ _ l. Occurs (activates p.name) l) (activate_one answers p)
  unfolding activate_one
  activate_one-Ensures p =
      kept 8 (activates p.name) _ (λ r. check_activated p.name r)
        (ask-Ensures (activates p.name) (answers.activated p.name))
        (λ r. check_activated-Ensures p.name r)

  -- A loop that makes a call for each of the plans.
  abbrev pub Each : (Text → Event) → List Prepared → Log → Type 0
  Each f ps l = All (λ p. Occurs (f p.name) l) ps

  loop-Ensures :
      {A B : Type 0} (k : ℕ) (f : Text → Event) (p : Prepared) (ps : List Prepared) (m : Step Log A)
      (rest : A → Step Log B)
      → Ensures k k (λ _ l. Occurs (f p.name) l) m
      → ((a : A) → Ensures k k (λ _ l. Each f ps l) (rest a))
      → Ensures k k (λ _ l. Each f (p ∷ ps) l) (m >>= rest)
  loop-Ensures k f p ps m rest first more =
      weaken-Ensures k k _ (λ _ l. Each f (p ∷ ps) l) (m >>= rest) (λ b l (a, o, os). (o, os))
        (bind-Ensures k k k (λ _ l. Occurs (f p.name) l) (λ _ _ l. Each f ps l) m rest (omega arith)
          first (λ _. Stays-Occurs (f p.name)) more)

  pub prepare_inceptors-Ensures :
      (ps : List Prepared)
      → Ensures 1 1 (λ _ l. Each inceptor_prepares ps l) (prepare_inceptors answers ps)
  unfolding prepare_inceptors
  prepare_inceptors-Ensures [] = done-Ensures 1 _ [] (λ _. tt)
  prepare_inceptors-Ensures (p ∷ ps) =
      loop-Ensures 1 inceptor_prepares p ps (prepare_inceptor answers p) _
        (prepare_inceptor-Ensures p)
        (λ first.
          weaken-Ensures 1 1 _ (λ _ l. Each inceptor_prepares ps l) _ (λ b l (a, each, t). each)
            (bind-Ensures 1 1 1 (λ _ l. Each inceptor_prepares ps l) (λ _. Any)
              (prepare_inceptors answers ps) _ (omega arith) (prepare_inceptors-Ensures ps)
              (λ _. Stays-All (λ p. inceptor_prepares p.name) ps)
              (λ more. done-Ensures 1 Any _ (λ _. tt))))

  pub activate_all-Ensures :
      (ps : List Prepared) → Ensures 8 8 (λ _ l. Each activates ps l) (activate_all answers ps)
  unfolding activate_all
  activate_all-Ensures [] = done-Ensures 8 _ tt (λ _. tt)
  activate_all-Ensures (p ∷ ps) =
      loop-Ensures 8 activates p ps (activate_one answers p) _ (activate_one-Ensures p)
        (λ _. activate_all-Ensures ps)

  test_env-Ensures :
      (tested : Bool) (tokens : Map Text) → Ensures 2 2 Any (test_env answers tested tokens)
  unfolding test_env
  test_env-Ensures false tokens = done-Ensures 2 Any [] (λ _. tt)
  test_env-Ensures true tokens =
      seq 2 Any _ _ (asked (writes_tokens tokens) answers.secret_env)
        (λ e. done-Ensures 2 Any (e ∷ []) (λ _. tt))

  apply_if_any-Ensures :
      (more : List PropertyAssignment) → Ensures 7 7 Any (apply_if_any answers more)
  unfolding apply_if_any
  apply_if_any-Ensures [] = done-Ensures 7 Any tt (λ _. tt)
  apply_if_any-Ensures (a ∷ rest) =
      seq 7 Any _ _ (asked (applies_assignments (a ∷ rest)) answers.touched)
        (λ touched. called (waits_for_touched touched))

  -- A step of a later stage, and what follows.
  step_on :
      {A B : Type 0} (i j k : ℕ) (S : B → Log → Type 0) (m : Step Log A) (f : A → Step Log B)
      → i ≤ j
      → j ≤ k
      → Ensures j j Any m
      → ((a : A) → Ensures j k S (f a))
      → Ensures i k S (m >>= f)
  step_on i j k S m f ij jk first rest =
      then-Ensures i j k Any S m f jk (from-Ensures i j j Any m ij first) rest

  pub deploy-Ensures :
      (tested : Bool) (ps : List Prepared) (more : List PropertyAssignment)
      → Ensures 1 7 (λ _ l. Occurs waits_for_services l) (deploy answers tested ps more)
  unfolding deploy
  deploy-Ensures tested ps more =
      let served : Unit {0} → Log → Type 0 = λ _ l. Occurs waits_for_services l in
      step_on 1 2 7 served _ _ (omega arith) (omega arith)
        (test_env-Ensures tested (tokens_of [] ps))
        (λ extra.
          step_on 2 3 7 served _ _ (omega arith) (omega arith) (called (declares_deployments more))
            (λ _.
              step_on 3 4 7 served _ _ (omega arith) (omega arith)
                (asked (makes_tests (all_tests ps) extra) answers.test_deployments)
                (λ tests.
                  step_on 4 5 7 served _ _ (omega arith) (omega arith)
                    (called (waits_for_tests tests))
                    (λ _.
                      weaken-Ensures 5 7 _ served _ (λ b l (a, o, t). o)
                        (bind-Ensures 5 6 7 served (λ _. Any) (call answers waits_for_services) _
                          (omega arith)
                          (from-Ensures 5 6 6 served _ (omega arith)
                            (call-Ensures answers waits_for_services))
                          (λ _. Stays-Occurs waits_for_services)
                          (λ _.
                            from-Ensures 6 7 7 Any _ (omega arith) (apply_if_any-Ensures more)))))))
