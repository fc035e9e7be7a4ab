-- ===== src/Fsm.antt =====
-- osmo_fsm of libosmocore as the FSMs of src/osmo-bsc use it: a parameter of their models, and what its
-- documentation says of it.
use osmo_bsc.Base.{Bool, ◌≡◌, refl, if◌then◌else◌}
use mathlib.Core.Path.{subst, sym}

-- osmo_fsm_inst_state_chg(), of out_state_mask and of what entering a state does, and
-- osmo_fsm_inst_dispatch(), of the two event masks and the two actions. `I` has the instance in it.
pub record OsmoFsm : Type 1 where
  pub state_chg : (I S : Type 0) → (I → S) → (S → S → Bool) → (S → I → I) → I → S → I
  pub dispatch :
      (I S E : Type 0)
      → (I → S)
      → (E → Bool)
      → (E → I → I)
      → (S → E → Bool)
      → (S → E → I → I)
      → I
      → E
      → I

-- A change that out_state_mask does not permit is refused. An event of allstate_event_mask goes to
-- allstate_action; any other goes to the action of the state, if in_event_mask of the state has it.
abbrev pub documented : OsmoFsm
documented = record {
  state_chg = λ I S state out enter fi st. if out (state fi) st then enter st fi else fi;
  dispatch = λ I S E state allstate allstate_action in_mask action fi event.
      if allstate event
      then allstate_action event fi
      else if in_mask (state fi) event
      then action (state fi) event fi
      else fi;
}

-- That the functions do what is documented.
pub record IsDocumented (osmo : OsmoFsm) : Type 1 where
  pub state_chg_lem :
      (I S : Type 0) (state : I → S) (out : S → S → Bool) (enter : S → I → I) (fi : I) (st : S)
      → osmo.state_chg I S state out enter fi st ≡ documented.state_chg I S state out enter fi st
  pub dispatch_lem :
      (I S E : Type 0) (state : I → S) (allstate : E → Bool) (allstate_action : E → I → I)
      (in_mask : S → E → Bool) (action : S → E → I → I) (fi : I) (event : E)
      → osmo.dispatch I S E state allstate allstate_action in_mask action fi event
        ≡ documented.dispatch I S E state allstate allstate_action in_mask action fi event

pub only_documented : (osmo : OsmoFsm) → IsDocumented osmo → documented ≡ osmo
only_documented osmo h = λ i. record {
  state_chg = λ I S state out enter fi st. sym (h.state_chg_lem I S state out enter fi st) i;
  dispatch = λ I S E state allstate allstate_action in_mask action fi event.
      sym (h.dispatch_lem I S E state allstate allstate_action in_mask action fi event) i;
}

-- What holds of a model at the documented functions holds of it at any that do the same.
pub by_documentation {ℓ} :
    (P : OsmoFsm → Type ℓ) (osmo : OsmoFsm) → IsDocumented osmo → P documented → P osmo
by_documentation P osmo h p = subst P (only_documented osmo h) p

pub documented-IsDocumented : IsDocumented documented
documented-IsDocumented = record {
  state_chg_lem = λ I S state out enter fi st. refl;
  dispatch_lem = λ I S E state allstate allstate_action in_mask action fi event. refl;
}
