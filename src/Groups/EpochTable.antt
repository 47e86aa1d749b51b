-- ===== src/Groups/EpochTable.antt =====
-- `GroupEpochRepository`: the table of signed epochs. A row holds the epoch's encoding; it stands
-- here as the epoch itself, which `deserialize_epoch` reads back from that (GroupState/Decoding).
use network_self_md.Prelude.{
  ℕ, Bool, ◌&&◌, Option, none, some, List, [], ◌∷◌, Bytes, Text, list_eq, filter, any, ltb, leb,
  ◌==◌, if◌then◌else◌,
}
use network_self_md.Prelude.Results.{Result, ok, err, ◌>>=◌, ◌>>◌, require}
use network_self_md.Value.{Number, nat}
use network_self_md.GroupState.{
  Primitives, SignedGroupEpoch, EpochError, epoch_value, serialize_epoch, is_index, max_safe,
  is_admin,
}
use network_self_md.Groups.{Tables, GroupError, invalid_epoch, conflicting_epoch, no_creation_time}

-- The value of a number that the checks of an epoch let pass.
abbrev pub value_of : Number → ℕ
value_of (nat n) = n
value_of _ = 0

abbrev pub version_of : SignedGroupEpoch → ℕ
version_of s = value_of s.epoch.version

abbrev pub time_of : SignedGroupEpoch → ℕ
time_of s = value_of s.epoch.created_at

abbrev pub find_version : ℕ → List SignedGroupEpoch → Option SignedGroupEpoch
find_version v [] = none
find_version v (s ∷ ss) = let rest = find_version v ss in if version_of s == v then some s else rest

-- The rows of a group.
abbrev pub epochs_of : Text → List SignedGroupEpoch → List SignedGroupEpoch
epochs_of g rows = filter (λ s. list_eq s.epoch.group_id g) rows

unfoldable pub get_epoch_by_version : Tables → Text → ℕ → Option SignedGroupEpoch
get_epoch_by_version t g v = find_version v (epochs_of g t.epochs)

-- `ORDER BY version DESC LIMIT 1`.
abbrev pub later_epoch : SignedGroupEpoch → Option SignedGroupEpoch → Option SignedGroupEpoch
later_epoch s none = some s
later_epoch s (some r) = if ltb (version_of s) (version_of r) then some r else some s

abbrev pub newest : List SignedGroupEpoch → Option SignedGroupEpoch
newest [] = none
newest (s ∷ ss) = later_epoch s (newest ss)

unfoldable pub get_latest_epoch : Tables → Text → Option SignedGroupEpoch
get_latest_epoch t g = newest (epochs_of g t.epochs)

-- `ORDER BY version ASC`.
abbrev pub place : SignedGroupEpoch → List SignedGroupEpoch → List SignedGroupEpoch
place s [] = s ∷ []
place s (r ∷ rs) =
    let rest = place s rs in if leb (version_of s) (version_of r) then s ∷ r ∷ rs else r ∷ rest

abbrev pub ascending : List SignedGroupEpoch → List SignedGroupEpoch
ascending [] = []
ascending (s ∷ ss) = place s (ascending ss)

unfoldable pub get_epoch_chain : Tables → Text → List SignedGroupEpoch
get_epoch_chain t g = ascending (epochs_of g t.epochs)

-- The stored row agrees with the epoch in its encoding, signature, hash and time.
abbrev pub is_same_epoch : Primitives → SignedGroupEpoch → SignedGroupEpoch → Bytes → Bool
is_same_epoch p row s encoded =
    list_eq (p.cbor (epoch_value row.epoch)) encoded
    && (list_eq row.signature s.signature && (list_eq row.hash s.hash && time_of row == time_of s))

abbrev pub keep_row :
    Primitives
    → Tables
    → SignedGroupEpoch
    → Bytes
    → Option SignedGroupEpoch
    → Result GroupError Tables
keep_row p t s encoded none = ok (record t { epochs = s ∷ t.epochs })
keep_row p t s encoded (some row) = do
  require (is_same_epoch p row s encoded) conflicting_epoch
  ok t

abbrev pub lift_epoch : {A : Type 0} → Result EpochError A → Result GroupError A
lift_epoch (ok a) = ok a
lift_epoch (err e) = err (invalid_epoch e)

-- `saveEpoch`: one row for each version of a group, which is never replaced.
unfoldable pub save_epoch : Primitives → SignedGroupEpoch → Tables → Result GroupError Tables
unfolding get_epoch_by_version
save_epoch p s t = do
  encoded ← lift_epoch (serialize_epoch p s.epoch)
  require (is_index max_safe s.epoch.created_at) no_creation_time
  keep_row p t s encoded (get_epoch_by_version t s.epoch.group_id (version_of s))

-- `isMemberInEpoch` and `isAdminInEpoch` of the group manager.
abbrev pub is_member_in_epoch : SignedGroupEpoch → Bytes → Bool
is_member_in_epoch s key = any (λ m. list_eq m.public_key key) s.epoch.members

abbrev pub is_admin_in_epoch : SignedGroupEpoch → Bytes → Bool
is_admin_in_epoch s key = any (λ m. is_admin m.role && list_eq m.public_key key) s.epoch.members
