-- ===== src/Network/Plan.antt =====
-- SetupBridge as a plan: commands that must succeed and commands whose failure is passed over.
use drover_runner.Base.{
  Text, lit, List, [], ◌∷◌, Option, none, some, ◌≡◌, refl, ◌⊎◌, Option-cases, inl, inr, arith,
}
use drover_runner.Host.{
  Host, M, pure, context, ignore, Log, run, Event, Error, wrap, Result, ok, err, ◌>>◌,
}
use drover_runner.Network.Linux.{
  LinuxNetworkManager, exec, show_bridge, add_bridge, add_address, bridge_up, masquerade,
  forward_out, forward_back, isolate, make_bridge, setup_bridge,
}

-- A command that must succeed has the context of its error.
pub data Step : Type 0 where
  must : List Text → Text → Step
  may : List Text → Step

abbrev pub ran : List Text → Option Error → Event
ran c f = record { call = run c; fault = f }

-- The log `after` holds the whole plan, in order: what must succeed did.
abbrev pub Completed : List Step → Log → Log → Type 0
Completed [] before after = after ≡ before
Completed (must c t ∷ p) before after = Completed p (ran c none ∷ before) after
Completed (may c ∷ p) before after = (f : Option Error) × Completed p (ran c f ∷ before) after

-- The log `after` holds the plan up to the first command that must succeed and did not, with
-- the error `e` in the context of that command.
abbrev pub Aborted : List Step → Log → Error → Log → Type 0
Aborted [] before e after = ⊥
Aborted (must c t ∷ p) before e after =
    ((cause : Error) × (e ≡ wrap t cause) × (after ≡ ran c (some cause) ∷ before))
    ⊎ Aborted p (ran c none ∷ before) e after
Aborted (may c ∷ p) before e after = (f : Option Error) × Aborted p (ran c f ∷ before) e after

abbrev pub Outcome : List Step → Log → Result (Unit {0}) × Log → Type 0
Outcome p before r =
    ((r.0 ≡ ok tt) × Completed p before r.1)
    ⊎ ((e : Error) × (r.0 ≡ err e) × Aborted p before e r.1)

-- A rule is deleted, if it is there, and appended again.
abbrev pub refresh : (Text → List Text) → Text → List Step → List Step
refresh rule text p = may (rule (lit "-D")) ∷ must (rule (lit "-A")) text ∷ p

-- The bridge, its address, and the rules: masquerading, forwarding out, forwarding of answers
-- and, last, the isolation of the tenants.
abbrev pub bridge_plan : LinuxNetworkManager → List Step
bridge_plan m =
    must (add_bridge m) (lit "failed to create bridge")
    ∷ must (add_address m) (lit "failed to bind bridge address")
    ∷ must (bridge_up m) (lit "failed to enable bridge link")
    ∷ refresh (masquerade m) (lit "failed to inject NAT masquerade") (
        refresh (forward_out m) (lit "failed to allow forward out") (
          refresh (forward_back m) (lit "failed to allow established return forward")
            (refresh (isolate m) (lit "failed to inject tenant isolation drops") [])))

module _ (c : List Text) (p : List Step) (l : Log) (r : Result (Unit {0}) × Log) where
  must-Outcome : (t : Text) → Outcome p (ran c none ∷ l) r → Outcome (must c t ∷ p) l r
  must-Outcome t (inl done) = inl done
  must-Outcome t (inr (e, failed, a)) = inr (e, failed, inr a)

  may-Outcome : (f : Option Error) → Outcome p (ran c f ∷ l) r → Outcome (may c ∷ p) l r
  may-Outcome f (inl (good, a)) = inl (good, (f, a))
  may-Outcome f (inr (e, failed, a)) = inr (e, failed, (f, a))

module _ (h : Host) where
  -- SetupBridge, read from the plan.
  run_plan : List Step → M (Unit {0})
  run_plan [] = pure tt
  run_plan (must c t ∷ p) = context (exec h c) t >> run_plan p
  run_plan (may c ∷ p) = ignore (exec h c) >> run_plan p

  run_plan-Outcome : (p : List Step) (l : Log) → Outcome p l (run_plan p l)
  unfolding run_plan
  run_plan-Outcome [] l = inl (refl, refl)
  run_plan-Outcome (must c t ∷ p) l = elim (Option-cases (h.fault l (run c))) [
    | inl good ↦ rw good (must-Outcome c p l _ t (run_plan-Outcome p (ran c none ∷ l)))
    | inr (cause, bad) ↦ rw bad (inr (wrap t cause, refl, inl (cause, refl, refl)))
  ]
  run_plan-Outcome (may c ∷ p) l =
      may-Outcome c p l _ (h.fault l (run c)) (run_plan-Outcome p (ran c (h.fault l (run c)) ∷ l))

  module _ (m : LinuxNetworkManager) where
    make_bridge-eq-run_plan : (l : Log) → make_bridge h m l ≡ run_plan (bridge_plan m) l
    unfolding make_bridge run_plan
    make_bridge-eq-run_plan l = ground arith

    -- If the bridge is there, SetupBridge asks for it and does nothing else. If not, it either
    -- succeeds after the whole plan, or stops with the error of the first command of the plan
    -- that must succeed and does not, having run the plan up to there.
    pub setup_bridge-Outcome :
        (l : Log)
        → ((h.fault l (run (show_bridge m)) ≡ none)
            × (setup_bridge h m l ≡ (ok tt, ran (show_bridge m) none ∷ l)))
          ⊎ ((missing : Error) × (h.fault l (run (show_bridge m)) ≡ some missing)
              × Outcome
                  (bridge_plan m)
                  (ran (show_bridge m) (some missing) ∷ l)
                  (setup_bridge h m l))
    unfolding setup_bridge
    setup_bridge-Outcome l = elim (Option-cases (h.fault l (run (show_bridge m)))) [
      | inl there ↦ inl (there, rw there)
      | inr (missing, gone) ↦ inr (
        missing,
        gone,
        rw gone (
            rw (make_bridge-eq-run_plan (ran (show_bridge m) (some missing) ∷ l))
              (run_plan-Outcome (bridge_plan m) (ran (show_bridge m) (some missing) ∷ l))),
      )
    ]
