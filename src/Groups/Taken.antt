-- ===== src/Groups/Taken.antt =====
-- The epoch that an admin makes is one that every member takes.
use mathlib.Core.Option.{some-injective}
use network_self_md.Prelude.{
  ℕ, ◌+◌, ◌≤◌, ◌≡◌, refl, sym, ap, ◌∙◌, subst, Bool, true, false, ◌&&◌, Option, some, List, [], ◌∷◌,
  ◌++◌, Bytes, Text, list_eq, list_eq_self, length, le→leb, ==-self, Bool-cases, inl, inr,
}
use network_self_md.Prelude.Results.{Result, ok, err, require-passed, bind-passed, or_throw-passed}
use network_self_md.Value.{nat}
use network_self_md.Bytes.{to_hex}
use network_self_md.GroupState.{
  Primitives, PrimitiveLaws, member, is_admin, GroupMemberEntry, GroupEpoch, SignedGroupEpoch,
  EpochError, serialize_epoch, create_signed_epoch, has_admin, verify_epoch,
}
use network_self_md.Groups.{StoredGroupInvite, Tables, LocalIdentity, GroupError}
use network_self_md.Groups.EpochTable.{
  version_of, time_of, get_latest_epoch, get_epoch_by_version, save_epoch, is_member_in_epoch,
  is_admin_in_epoch, lift_epoch,
}
use network_self_md.Groups.Membership.{find}
use network_self_md.Groups.Invites.{find_by_id}
use network_self_md.Groups.Receive.{check_next}
use network_self_md.Groups.Offers.{
  GroupManagementMessage, ManagementOutcome, accepted, names, filled,
}
use network_self_md.Groups.Manage.{
  next_epoch, receive_accept, answer_accept, is_named_epoch, check_invite,
}

-- The epoch that `next_epoch` signs.
abbrev made_epoch :
    LocalIdentity → Bytes → SignedGroupEpoch → List GroupMemberEntry → ℕ → GroupEpoch
made_epoch self g latest members now = record {
  version = nat (version_of latest + 1);
  prev_hash = latest.hash;
  group_id = to_hex g;
  members = members;
  created_at = nat now;
  created_by = self.public_key;
}

-- What a successful signing gives.
record IsMade (p : Primitives) (key : Bytes) (e : GroupEpoch) (signed : SignedGroupEpoch)
    : Type 0 where
  encoded : Bytes
  serialized : serialize_epoch p e ≡ ok encoded
  is : signed ≡ record { epoch = e; signature = p.sign encoded key; hash = p.sha256 encoded }

lift_epoch-passed : {A : Type 0} (m : Result EpochError A) (a : A) → lift_epoch m ≡ ok a → m ≡ ok a
lift_epoch-passed (ok b) a h = cc h
lift_epoch-passed (err e) a h = absurd (cc h)

next_epoch-IsMade :
    (p : Primitives) (self : LocalIdentity) (key g : Bytes) (latest : SignedGroupEpoch)
    (members : List GroupMemberEntry) (now : ℕ) (signed : SignedGroupEpoch)
    → next_epoch p self key g latest members now ≡ ok signed
    → IsMade p key (made_epoch self g latest members now) signed
unfolding next_epoch create_signed_epoch
next_epoch-IsMade p self key g latest members now signed h =
    let e = made_epoch self g latest members now in
    let (encoded, (serialized, h1)) =
      bind-passed (serialize_epoch p e) _ signed (lift_epoch-passed _ signed h) in
    record { encoded = encoded; serialized = serialized; is = cc h1 }

-- An epoch that a node makes after the latest one, being an admin in both, at a time that is not
-- before the latest one's: every member of the latest epoch that delivers it is believed.
pub next_epoch-taken :
    (p : Primitives) (laws : PrimitiveLaws p) (self : LocalIdentity) (key g : Bytes)
    (latest : SignedGroupEpoch) (members : List GroupMemberEntry) (now : ℕ)
    (signed : SignedGroupEpoch) (peer : Bytes)
    → self.public_key ≡ p.public_key key
    → length latest.hash ≡ 32
    → time_of latest ≤ now
    → is_admin_in_epoch latest self.public_key ≡ true
    → has_admin self.public_key members ≡ true
    → is_member_in_epoch latest peer ≡ true
    → next_epoch p self key g latest members now ≡ ok signed
    → check_next p latest signed peer ≡ ok tt
unfolding verify_epoch
next_epoch-taken p laws self key g latest members now signed peer own hash time admin_before
      admin_after from h =
    let made = next_epoch-IsMade p self key g latest members now signed h in
    let verified : p.verify (p.sign made.encoded key) made.encoded self.public_key ≡ true =
      rw own (laws.verify-sign made.encoded key) in
    rw
      (
        made.is,
        made.serialized,
        laws.length-sign made.encoded key,
        laws.length-sha256 made.encoded,
        hash,
        list_eq_self (p.sha256 made.encoded),
        verified,
        list_eq_self latest.hash,
        admin_after,
        admin_before,
        from,
        le→leb (time_of latest) now time,
        ==-self (version_of latest + 1),
      )
      refl

has_admin-append :
    (key : Bytes) (ms more : List GroupMemberEntry)
    → has_admin key ms ≡ true
    → has_admin key (ms ++ more) ≡ true
has_admin-append key [] more h = absurd (cc h)
has_admin-append key (m ∷ ms) more h =
    elim (Bool-cases (is_admin m.role && list_eq m.public_key key)) [
      | inl found ↦ rw found refl
      | inr other ↦ rw other (has_admin-append key ms more (rw other at h))
    ]

abbrev made_in :
    SignedGroupEpoch → Result GroupError (ManagementOutcome × Tables) → SignedGroupEpoch
made_in s (ok (accepted (some signed), t)) = signed
made_in s _ = s

-- The epoch that an accepted invite makes is the one of `next_epoch`, by an admin.
record FromAccept (p : Primitives) (self : LocalIdentity) (key : Bytes) (m : GroupManagementMessage)
    (sender : Bytes) (now : ℕ) (latest signed : SignedGroupEpoch) : Type 0 where
  by_admin : is_admin_in_epoch latest self.public_key ≡ true
  new : is_member_in_epoch latest sender ≡ false
  made :
      next_epoch p self key m.group_id latest
        (latest.epoch.members ++ record { public_key = sender; role = member } ∷ [])
        now
      ≡ ok signed

abbrev is_new : Result GroupError (ManagementOutcome × Tables) → Bool
is_new (ok (accepted (some s), t)) = true
is_new _ = false

answer_accept-FromAccept :
    (p : Primitives) (self : LocalIdentity) (key : Bytes) (m : GroupManagementMessage)
    (sender : Bytes) (now : ℕ) (pending : Option StoredGroupInvite) (t u : Tables)
    (latest signed : SignedGroupEpoch) (b : Bool)
    → is_member_in_epoch latest sender ≡ b
    → is_admin_in_epoch latest self.public_key ≡ true
    → answer_accept p self key m.group_id pending latest sender now t b
      ≡ ok (accepted (some signed), u)
    → FromAccept p self key m sender now latest signed
unfolding answer_accept
answer_accept-FromAccept p self key m sender now pending t u latest signed true is by_admin h =
    absurd (let e = ap is_new h in cc e)
answer_accept-FromAccept p self key m sender now pending t u latest signed false is by_admin h =
    let end : ManagementOutcome × Tables = (accepted (some signed), u) in
    let members = latest.epoch.members ++ record { public_key = sender; role = member } ∷ [] in
    let (s, (made, h1)) =
      bind-passed (next_epoch p self key m.group_id latest members now) _ end h in
    let (saved, (is_saved, h2)) = bind-passed (save_epoch p s t) _ end h1 in
    let same : s ≡ signed = ap (made_in s) h2 in
    record { by_admin = by_admin; new = is; made = made ∙ ap ok same }

receive_accept-FromAccept :
    (p : Primitives) (self : LocalIdentity) (key : Bytes) (m : GroupManagementMessage)
    (sender : Bytes) (name : Text) (now : ℕ) (t u : Tables) (latest signed : SignedGroupEpoch)
    → get_latest_epoch t (to_hex m.group_id) ≡ some latest
    → receive_accept p self key m sender name now t ≡ ok (accepted (some signed), u)
    → FromAccept p self key m sender now latest signed
unfolding receive_accept
receive_accept-FromAccept p self key m sender name now t u latest signed is_latest h =
    let end : ManagementOutcome × Tables = (accepted (some signed), u) in
    let (target, h1) = require-passed (names m.target_fingerprint name) _ _ end h in
    let (id, (given, h2)) = or_throw-passed (filled m.invite_id) _ _ end h1 in
    let (group, (found, h3)) = or_throw-passed (find t m.group_id) _ _ end h2 in
    let (l, (at, h4)) = or_throw-passed (get_latest_epoch t (to_hex m.group_id)) _ _ end h3 in
    let (by_admin, h5) = require-passed (is_admin_in_epoch l self.public_key) _ _ end h4 in
    let (version, (versioned, h6)) = or_throw-passed m.epoch_version _ _ end h5 in
    let (hash, (hashed, h7)) = or_throw-passed m.epoch_hash _ _ end h6 in
    let (named, h8) =
      require-passed (is_named_epoch (get_epoch_by_version t (to_hex m.group_id) version) hash) _ _
        end h7 in
    let (v, (invited, h9)) =
      bind-passed (check_invite (find_by_id t id now) group self m.group_id sender) _ end h8 in
    let same : l ≡ latest = some-injective l latest (sym at ∙ is_latest) in
    subst (λ e. FromAccept p self key m sender now e signed) same
      (answer_accept-FromAccept p self key m sender now (find_by_id t id now) t u l signed
        (is_member_in_epoch l sender) refl by_admin h9)

-- An admin's node takes the answer to an invite of a peer that is no member yet, and makes the next
-- epoch. Its members are those of the latest epoch, and then the peer, as a member. Whoever of the
-- latest epoch's members delivers it, a node with the same latest epoch believes it, if the time is
-- not before the latest epoch's, whose hash has 32 bytes.
pub receive_accept-taken :
    (p : Primitives) (laws : PrimitiveLaws p) (self : LocalIdentity) (key : Bytes)
    (m : GroupManagementMessage) (sender : Bytes) (name : Text) (now : ℕ) (t u : Tables)
    (latest signed : SignedGroupEpoch)
    → self.public_key ≡ p.public_key key
    → length latest.hash ≡ 32
    → time_of latest ≤ now
    → get_latest_epoch t (to_hex m.group_id) ≡ some latest
    → receive_accept p self key m sender name now t ≡ ok (accepted (some signed), u)
    → (signed.epoch.members
        ≡ latest.epoch.members ++ record { public_key = sender; role = member } ∷ [])
      × ((peer : Bytes)
          → is_member_in_epoch latest peer ≡ true
          → check_next p latest signed peer ≡ ok tt)
receive_accept-taken p laws self key m sender name now t u latest signed own hash time is_latest h =
    let members = latest.epoch.members ++ record { public_key = sender; role = member } ∷ [] in
    let from =
      receive_accept-FromAccept p self key m sender name now t u latest signed is_latest h in
    let made = next_epoch-IsMade p self key m.group_id latest members now signed from.made in
    (
      ap (λ s. s.epoch.members) made.is,
      λ peer listed.
          next_epoch-taken p laws self key m.group_id latest members now signed peer own hash time
            from.by_admin (has_admin-append self.public_key latest.epoch.members _ from.by_admin)
            listed from.made,
    )
