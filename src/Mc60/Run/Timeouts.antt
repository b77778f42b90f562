-- ===== src/Mc60/Run/Timeouts.antt =====
-- The ways out of the states of Mc60Modem: the reset delays, and what SLEEP and
-- SHUT_DOWN_STAGE_POWER_OFF wait for.
use libcomms.Base.{
  ℕ, ◌<◌, ◌≡◌, ◌≢◌, refl, ◌∙◌, ◌⊎◌, inl, inr, true, false, none, some, arith, length, Option-cases,
}
use libcomms.Machine.{Engine, Transition, own, ms_passed}
use libcomms.Machine.Steps.{HasGuard, first_holding-HasGuard}
use libcomms.Mc60.Driver.{
  Modem, Own, Act, Def, own_test, soft_reset_delay_ms, hard_reset_delay_ms, data_waits, status_is,
}
use libcomms.Mc60.Run.{check_effects, ready, picked, run, follow, transitions_of, globals_of}
use libcomms.Mc60.Run.Declared.{IsReachable-declared}
use libcomms.Mc60.Run.Actions.{perform_all-state}
use libcomms.Mc60.Run.Rounds.{IsReachable}
use libcomms.Mc60.State.{State}
use libcomms.Mc60.Table.{state_def}

-- Every declared state but SHUT_DOWN has a transition out of it that waits for time only, or for
-- data to send (SLEEP), or for the status pin (SHUT_DOWN_STAGE_POWER_OFF).
abbrev Waits : State → Type 0
Waits s =
    HasGuard (ms_passed soft_reset_delay_ms) (globals_of (state_def s))
    ⊎ HasGuard (ms_passed hard_reset_delay_ms) (transitions_of (state_def s))
    ⊎ ((s ≡ State.sleep) × HasGuard (own data_waits) (transitions_of (state_def s)))
    ⊎ ((s ≡ State.shut_down_stage_power_off)
        × HasGuard (own (status_is false)) (transitions_of (state_def s)))
    ⊎ (s ≡ State.shut_down)

state-Waits : (s : State) (d : Def) → state_def s ≡ some d → Waits s
unfolding state_def
state-Waits State.reset_stage_power_off d h = inr (inl (inr (inl refl)))
state-Waits State.sleep d h = inr (inr (inl (refl, inl refl)))
state-Waits State.shut_down_stage_power_off d h = inr (inr (inr (inl (refl, inl refl))))
state-Waits State.shut_down d h = inr (inr (inr (inr refl)))
state-Waits State.no_transition d h = cc
state-Waits State.gprs_connection_up d h = cc
state-Waits State.dns_config d h = cc
state-Waits State.network_receive_notify d h = cc
state-Waits State.network_query_modem_output_buffer_max_len d h = cc
state-Waits _ d h = inl (inl refl)

module _ (max : ℕ) (e : Engine State Own Act Modem (own_test max)) where
  open e use {Input, event, holds, checked, elapsed, pick_none, holds_own, holds_ms_passed}

  ready_asleep :
      (i : Input) (m : Modem)
      → (m.state ≡ State.sleep) ⊎ (m.state ≡ State.shut_down_stage_power_off)
      → ((ready max e i m).box ≡ m.box) × ((ready max e i m).status_pin ≡ m.status_pin)
  unfolding ready check_effects
  ready_asleep i m (inl s) = ground arith
  ready_asleep i m (inr s) = ground arith

  not_stuck :
      (i : Input) (m : Modem)
      → checked i ≡ true
      → soft_reset_delay_ms < elapsed i
      → (m.state ≡ State.sleep → 0 < length m.box.buffer)
      → (m.state ≡ State.shut_down_stage_power_off → m.status_pin ≡ false)
      → m.state ≢ State.shut_down
      → Waits m.state
      → picked max e i m ≢ none
  unfolding picked own_test
  not_stuck i m c late some_data pin up w stays =
      let r = ready max e i m in
      let (no_global, no_local) = pick_none r i _ _ stays in
      elim w [
        | inl soft ↦
            first_holding-HasGuard (holds r i) _ _ soft (holds_ms_passed r i _ late) no_global
        | inr (inl hard) ↦
            first_holding-HasGuard (holds r i) _ _ hard (holds_ms_passed r i _ (omega arith))
              (no_local c)
        | inr (inr (inl (s, waits))) ↦
            let same = ready_asleep i m (inl s) in
            let some_wait = some_data s in
            first_holding-HasGuard (holds r i) _ _ waits (holds_own r i data_waits ∙ ground arith)
              (no_local c)
        | inr (inr (inr (inl (s, waits)))) ↦
            let same = ready_asleep i m (inr s) in
            let low = pin s in
            first_holding-HasGuard (holds r i) _ _ waits
              (holds_own r i (status_is false) ∙ ground arith) (no_local c)
        | inr (inr (inr (inr s))) ↦ up s
      ]

-- A run that evaluates the conditions takes a transition, in every state that calls and runs can
-- reach, once more than 15 seconds have passed in that state. The exceptions are SHUT_DOWN; SLEEP,
-- where data to send is needed too; and SHUT_DOWN_STAGE_POWER_OFF, where a low status pin is.
pub picks_in_time :
    (max : ℕ) (e : Engine State Own Act Modem (own_test max)) (m : Modem) (i : e.Input)
    → IsReachable max e m
    → e.checked i ≡ true
    → soft_reset_delay_ms < e.elapsed i
    → (m.state ≡ State.sleep → 0 < length m.box.buffer)
    → (m.state ≡ State.shut_down_stage_power_off → m.status_pin ≡ false)
    → m.state ≢ State.shut_down
    → (t : Transition State Own Act) × (picked max e i m ≡ some t)
      × ((run max e i m).state ≡ t.target)
unfolding run follow
picks_in_time max e m i r c late some_data pin up =
    let (d, declared) = IsReachable-declared max e m r in
    elim (Option-cases (picked max e i m)) [
      | inl stays ↦
          absurd
            (not_stuck max e i m c late some_data pin up (state-Waits m.state d declared) stays)
      | inr (t, taken) ↦ (t, taken, rw taken (perform_all-state _ _ _))
    ]
