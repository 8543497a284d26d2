-- ===== src/Start/Laws.antt =====
-- When the program comes to listen.
use taksees.Prelude.{◌≡◌, refl, ◌⊎◌, inl, inr, List, [], ◌∷◌}
use taksees.Errors.{ok}
use taksees.Effects.{Action, outcome_cases}
use taksees.Config.{AppConfig}
use taksees.Start.{AppCall, running, exits, bootstrap, main}

module _ {S : Type 0} (call : AppCall → Action S (Unit {0})) where
  -- Every call of the list returns, one after the other.
  pub data Performed : List AppCall → S → S → Type 0 where
    done : (s : S) → Performed [] s s
    next :
        (c : AppCall) {cs : List AppCall} {s t u : S}
        → call c s ≡ (ok tt, t)
        → Performed cs t u
        → Performed (c ∷ cs) s u

  module _ (config_of : S → AppConfig) where
    -- A process that does not run on exits with the code 1.
    pub main_exits :
        (s : S) → ((main call config_of s).0 ≡ running) ⊎ ((main call config_of s).0 ≡ exits 1)
    unfolding main
    main_exits s = elim (outcome_cases (bootstrap call config_of s)) [
      | inl (a, t, e) ↦ inl (rw e refl)
      | inr (x, t, e) ↦ inr (rw e refl)
    ]
