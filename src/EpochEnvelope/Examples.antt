-- ===== src/EpochEnvelope/Examples.antt =====
-- A public key whose fingerprint is computed.
use network_self_md.Prelude.{◌≡◌, true, [], ◌∷◌}
use network_self_md.GroupState.Examples.{fixed, fixed_laws}
use network_self_md.Authentication.{fingerprint_from_public_key}
use network_self_md.EpochEnvelope.{is_fingerprint}
use network_self_md.EpochEnvelope.Fingerprint.{fingerprint_from_public_key_lem}

fingerprint_example : is_fingerprint (fingerprint_from_public_key fixed (1 ∷ [])) ≡ true
fingerprint_example = fingerprint_from_public_key_lem fixed fixed_laws (1 ∷ [])
