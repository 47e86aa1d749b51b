-- ===== src/GroupState/Examples.antt =====
-- The first epoch of a group, with primitives of fixed lengths in place of the real ones.
use network_self_md.Prelude.{◌≡◌, refl, true, some, [], ◌∷◌, arith, Bytes, codes, list_eq}
use network_self_md.Prelude.Results.{ok}
use network_self_md.Value.{nat}
use network_self_md.GroupState.{
  Primitives, PrimitiveLaws, SignedGroupEpoch, zeros, zero_hash, create_genesis_epoch,
  create_signed_epoch, verify_genesis_epoch, verify_epoch, serialize_epoch, epoch_value,
}
use network_self_md.GroupState.Valid.{IsAccepted, verify_epoch-IsAccepted}
use network_self_md.GroupState.Decoding.{deserialize_epoch, deserialize-serialize}
use network_self_md.GroupState.Genesis.{
  IsGenesis, verify_genesis_epoch-IsGenesis, create_genesis-verifies,
}

abbrev pub fixed : Primitives
fixed = record {
  utf8 = λ text. text;
  cbor = λ value. 1 ∷ [];
  sha256 = λ m. zeros 32;
  sign = λ m key. zeros 64;
  verify = λ signature m key. list_eq signature (zeros 64);
  public_key = λ key. zeros 32;
}

pub fixed_laws : PrimitiveLaws fixed
unfolding list_eq
fixed_laws = record {
  verify-sign = λ m key. refl;
  length-sign = λ m key. refl;
  length-sha256 = λ m. refl;
  length-public_key = λ key. refl;
}

abbrev signed : SignedGroupEpoch
signed = record {
  epoch = create_genesis_epoch (codes "team") (zeros 32) (nat 5);
  signature = zeros 64;
  hash = zeros 32;
}

signed_genesis : verify_genesis_epoch fixed signed (codes "team") (some (zeros 32)) ≡ true
unfolding verify_genesis_epoch create_genesis_epoch list_eq
signed_genesis = refl

signed_verifies : verify_epoch fixed signed zero_hash ≡ true
unfolding verify_epoch create_genesis_epoch list_eq
signed_verifies = refl

verify_epoch-IsAccepted_example : IsAccepted fixed signed zero_hash
verify_epoch-IsAccepted_example = verify_epoch-IsAccepted fixed signed zero_hash signed_verifies

verify_genesis_epoch-IsGenesis_example :
    IsGenesis fixed signed (codes "team")
    × ((key : Bytes) → some (zeros 32) ≡ some key → signed.epoch.created_by ≡ key)
verify_genesis_epoch-IsGenesis_example =
    verify_genesis_epoch-IsGenesis fixed signed (codes "team") (some (zeros 32)) signed_genesis

create_genesis-verifies_example :
    (s : SignedGroupEpoch) × ((create_signed_epoch fixed
          (create_genesis_epoch (codes "team") (zeros 32) (nat 5))
          (7 ∷ [])
        ≡ ok s)
      × (verify_genesis_epoch fixed s (codes "team") (some (zeros 32)) ≡ true))
create_genesis-verifies_example =
    create_genesis-verifies fixed fixed_laws (codes "team") (7 ∷ []) 5 (omega arith) (omega arith)
      (omega arith)

signed_encodes : serialize_epoch fixed signed.epoch ≡ ok (1 ∷ [])
unfolding serialize_epoch create_genesis_epoch list_eq
signed_encodes = refl

deserialize-serialize_example :
    deserialize_epoch fixed (λ encoded. some (epoch_value signed.epoch)) (1 ∷ []) ≡ ok signed.epoch
deserialize-serialize_example =
    deserialize-serialize fixed (λ encoded. some (epoch_value signed.epoch)) signed.epoch (1 ∷ [])
      refl signed_encodes (omega arith) (omega arith)
