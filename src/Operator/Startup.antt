-- ===== src/Operator/Startup.antt =====
-- How `main` ends.
use fluxgate_operator.Prelude.{
  true, false, Error, List, [], ◌∷◌, ◌++◌, All, Result, Result-cases, ok, err, ◌≡◌, ◌⊎◌, refl, inl,
  inr, ap,
}
use fluxgate_operator.Platform.{Manager}
use fluxgate_operator.Operator.{
  Controller, controllers, setup, set_up, Run, exit_status, start_after, main,
}

module _ (mgr : Manager) where
  abbrev pub IsSetUp : Controller → Type 0
  IsSetUp c = (setup mgr c).answer ≡ ok tt

  -- All are registered, or those before one that fails.
  abbrev pub Registers : List Controller → Result (Unit {0}) × List Controller → Type 0
  Registers cs (ok done, registered) = All IsSetUp cs × (registered ≡ cs)
  Registers cs (err e, registered) =
      (c : Controller) × (rest : List Controller) × (cs ≡ registered ++ c ∷ rest)
      × All IsSetUp registered
      × ((setup mgr c).answer ≡ err e)

  Registers-cons :
      (c : Controller) (cs : List Controller) (x : Result (Unit {0}) × List Controller)
      → IsSetUp c
      → Registers cs x
      → Registers (c ∷ cs) (x.0, c ∷ x.1)
  Registers-cons c cs (ok done, registered) h (all_up, same) = ((h, all_up), ap (λ l. c ∷ l) same)
  Registers-cons c cs (err e, registered) h (d, rest, split, up, failed) =
      (d, rest, ap (λ l. c ∷ l) split, (h, up), failed)

  set_up-Registers : (cs : List Controller) → Registers cs (set_up mgr cs)
  unfolding set_up
  set_up-Registers [] = (tt, refl)
  set_up-Registers (c ∷ cs) = elim (Result-cases (setup mgr c).answer) [
    | inl (e, h) ↦ rw (h, set_up) (c, cs, refl, tt, h)
    | inr (done, h) ↦ rw (h, set_up) (Registers-cons c cs (set_up mgr cs) h (set_up-Registers cs))
  ]

  -- The manager was started, all four controllers registered, and the status is what `Start` gives.
  abbrev pub IsStarted : Run → Type 0
  IsStarted run =
      All IsSetUp controllers
      × (run.registered ≡ controllers)
      × (run.started ≡ true)
      × (run.status ≡ exit_status mgr.start)

  -- The manager was not started: a controller could not be set up, and those before it were registered.
  abbrev pub IsStopped : Run → Type 0
  IsStopped run =
      ((e : Error) × (c : Controller) × (rest : List Controller) × (controllers
          ≡ run.registered ++ c ∷ rest)
        × All IsSetUp run.registered
        × ((setup mgr c).answer ≡ err e))
      × (run.started ≡ false)
      × (run.status ≡ 1)

  start_after-cases :
      (x : Result (Unit {0}) × List Controller)
      → Registers controllers x
      → IsStarted (start_after mgr x) ⊎ IsStopped (start_after mgr x)
  unfolding start_after
  start_after-cases (ok done, registered) (up, same) = inl (up, same, refl, refl)
  start_after-cases (err e, registered) (c, rest, split, up, failed) =
      inr ((e, c, rest, split, up, failed), refl, refl)

  -- How `main` ends. Without a configuration or a manager: status 1, and no controller is registered. With
  -- both: either all four controllers are registered in their order, the manager is started, and the status
  -- is 0 where it ends without an error and 1 otherwise; or the setup of one of them fails, those before it
  -- are registered, the manager is not started, and the status is 1.
  pub main-cases :
      ((e : Error) × ((mgr.get_config ≡ err e) ⊎ (mgr.new_manager ≡ err e))
        × (main mgr ≡ record { status = 1; registered = []; started = false }))
      ⊎ ((mgr.get_config ≡ ok tt)
          × (mgr.new_manager ≡ ok tt)
          × (IsStarted (main mgr) ⊎ IsStopped (main mgr)))
  unfolding main
  main-cases = elim (Result-cases mgr.get_config) [
    | inl (e, h) ↦ rw (h, main) (inl (e, inl refl, refl))
    | inr (tt, h) ↦ elim (Result-cases mgr.new_manager) [
      | inl (e, g) ↦ rw (h, g, main) (inl (e, inr refl, refl))
      | inr (tt, g) ↦
          rw (h, g, main)
            (inr (
              refl,
              refl,
              start_after-cases (set_up mgr controllers) (set_up-Registers controllers),
            ))
    ]
  ]
