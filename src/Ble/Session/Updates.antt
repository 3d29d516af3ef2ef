-- ===== src/Ble/Session/Updates.antt =====
-- `update_target` of slimhub/ble/device_session.py: it fails just if the address is refused.
use slimhub_v.Prelude.{ℕ, ◌≡◌, refl, sym, Text, ok, >>=-eq-ok, ok-injective}
use slimhub_v.Protocol.Mac.{normalize_mac}
use slimhub_v.Ble.Session.{Target, DeviceSession, retargeted, update_target}

module _ (now : ℕ) (target : Target) (s : DeviceSession) where
  pub update_target-ok :
      (n : Text)
      → normalize_mac target.address ≡ ok n
      → update_target now target s ≡ ok (retargeted now target n s)
  unfolding update_target
  update_target-ok n norm = rw norm refl

  pub update_target-eq-ok :
      (s' : DeviceSession)
      → update_target now target s ≡ ok s'
      → (n : Text) × (s' ≡ retargeted now target n s)
  unfolding update_target
  update_target-eq-ok s' e =
      let (n, _, same) = >>=-eq-ok (normalize_mac target.address) _ e in
      (n, sym (ok-injective _ _ same))
