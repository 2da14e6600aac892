-- ===== src/Boot/Status.antt =====
-- When a boot is accepted.
use rexharge_citrineos_core.Prelude.{
  ◌≡◌, ◌↔◌, ◌⊎◌, refl, Option, Bool, true, false, not, ◌&&◌, arith, if◌then◌else◌,
}
use rexharge_citrineos_core.Rpc.Message.{Result, ok, throw}
use rexharge_citrineos_core.Boot.{
  RegistrationStatus, accepted, pending, rejected, BootConfig, Configuration, needs_base_report,
  needs_set_variables, needs_configurations, settle_status, settle_ocpp1_6_status, map_status,
  base_status, determine_boot_status, determine_ocpp1_6_boot_status,
}

accepted_of :
    (f : RegistrationStatus → RegistrationStatus) (ready : Bool) (r : Result RegistrationStatus)
    → f accepted ≡ accepted
    → f rejected ≡ rejected
    → f pending ≡ (if ready then accepted else pending)
    → (map_status f r ≡ ok accepted) ↔ ((r ≡ ok accepted) ⊎ ((r ≡ ok pending) × (ready ≡ true)))
unfolding map_status
accepted_of f ready (ok accepted) a b c = ground arith
accepted_of f true (ok pending) a b c = ground arith
accepted_of f false (ok pending) a b c = ground arith
accepted_of f ready (ok rejected) a b c = ground arith
accepted_of f ready (throw e) a b c = ground arith

module _ (config : Configuration) (boot : Option BootConfig) where
  -- A boot with OCPP 2.0.1 is accepted exactly if its configured status is Accepted, or if it is
  -- Pending, neither a base report nor any variables are left to do, and pending boots are to be
  -- accepted by themselves.
  accepted_boot_iff : (determine_boot_status config boot ≡ ok accepted) ↔ (
      (base_status config.unknown_charger_status boot ≡ ok accepted)
      ⊎ ((base_status config.unknown_charger_status boot ≡ ok pending)
          × (not (needs_base_report config boot)
                && not (needs_set_variables boot)
                && config.auto_accept
              ≡ true)))
  unfolding determine_boot_status settle_status
  accepted_boot_iff = accepted_of (settle_status config boot) _ _ refl refl refl

  -- A boot with OCPP 1.6 is accepted exactly if its configured status is Accepted, or if it is Pending
  -- and both of its flags are set to false; a station without a configuration stays Pending.
  accepted_ocpp1_6_boot_iff : (determine_ocpp1_6_boot_status config boot ≡ ok accepted) ↔ (
      (base_status config.unknown_charger_status_1_6 boot ≡ ok accepted)
      ⊎ ((base_status config.unknown_charger_status_1_6 boot ≡ ok pending)
          × (not (needs_configurations (λ b. b.get_configurations_on_pending) boot)
                && not (needs_configurations (λ b. b.change_configurations_on_pending) boot)
              ≡ true)))
  unfolding determine_ocpp1_6_boot_status settle_ocpp1_6_status
  accepted_ocpp1_6_boot_iff = accepted_of (settle_ocpp1_6_status boot) _ _ refl refl refl
