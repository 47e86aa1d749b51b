-- ===== src/Groups/Deliveries.antt =====
-- What a handled delivery leaves: the tables as they were, or those of its transaction with the
-- local key distributed.
use network_self_md.Prelude.{
  ℕ, ◌≡◌, refl, sym, ap, ◌∙◌, true, false, ◌&&◌, ◌⊎◌, inl, inr, Option, none, some, List, Bytes,
  Text, list_eq, list_eq→eq, any, not, ltb, Bool-cases, Option-cases,
}
use network_self_md.Prelude.Results.{Result, ok, err, ◌>>=◌, require-passed, bind-passed}
use network_self_md.Value.{Value}
use network_self_md.Bytes.{to_hex}
use network_self_md.GroupState.{Primitives, GroupEpoch, SignedGroupEpoch}
use network_self_md.GroupState.Decoding.{deserialize_epoch}
use network_self_md.GroupState.Valid.{both}
use network_self_md.Authentication.{PeerSession, validate_ready_session, validate_fresh_timestamp}
use network_self_md.EpochEnvelope.{group_epoch_envelope_id}
use network_self_md.Replay.{
  ReplayLimits, ReplayReservation, ReplayError, ReplayRow, accept, prune, has, sender_count, count,
}
use network_self_md.Groups.{StoredSenderKey, Tables, LocalIdentity, GroupError}
use network_self_md.Groups.SenderKeyTable.{load, store}
use network_self_md.Groups.EpochTable.{version_of, get_latest_epoch, is_member_in_epoch, lift_epoch}
use network_self_md.Groups.Membership.{find}
use network_self_md.Groups.Receive.{
  EpochOutcome, historical, updated, Fresh, receive_epoch, kept_key,
}
use network_self_md.Groups.Opening.{EpochDelivery, secure, in_envelope, open_delivery, as_mutation}
use network_self_md.Groups.Handle.{Manager, distribute_after, conclude, handle_group_epoch}
use network_self_md.Groups.Distribute.{Connection, distribute_key, distribute_sender_keys}
use network_self_md.Groups.Frame.{Keeps}

pub secure-passed :
    {A B : Type 0} (m : Result _ A) (k : A → Result GroupError B) (b : B)
    → (secure m >>= k) ≡ ok b
    → (a : A) × (k a ≡ ok b)
secure-passed (ok a) k b h = (a, h)
secure-passed (err e) k b h = absurd (cc h)

abbrev epoch_in :
    GroupEpoch → Result GroupError (Bytes × (SignedGroupEpoch × ReplayReservation)) → GroupEpoch
epoch_in e (ok (key, (s, r))) = s.epoch
epoch_in e (err x) = e

-- The epoch that a delivery carries is one of the group that the delivery names.
pub open_delivery-group :
    (p : Primitives) (decode : Bytes → Option Value) (self : LocalIdentity) (session : PeerSession)
    (d : EpochDelivery) (now : ℕ) (key : Bytes) (s : SignedGroupEpoch) (r : ReplayReservation)
    → open_delivery p decode self session d now ≡ ok (key, (s, r))
    → s.epoch.group_id ≡ to_hex d.message.group_id
unfolding open_delivery
open_delivery-group p decode self session d now key s r h =
    let (names, h1) = secure-passed (validate_ready_session p session) _ (key, (s, r)) h in
    let (fresh, h2) =
      secure-passed (validate_fresh_timestamp d.message.timestamp now) _ (key, (s, r)) h1 in
    let (envelope, h3) =
      require-passed (list_eq d.message.sender_fingerprint names.1 && _) _ _ (key, (s, r)) h2 in
    let (epoch, (decoded, h4)) =
      bind-passed (lift_epoch (deserialize_epoch p decode d.message.epoch_data)) _ (key, (s, r))
        h3 in
    let (same, h5) =
      require-passed (list_eq epoch.group_id (to_hex d.message.group_id) && _) _ _ (key, (s, r))
        h4 in
    let (id, (identified, h6)) =
      bind-passed (in_envelope (group_epoch_envelope_id p d.message d.envelope_signature)) _
        (key, (s, r)) h5 in
    let (group, hashed) = both (list_eq epoch.group_id (to_hex d.message.group_id)) _ same in
    let is : epoch ≡ s.epoch = ap (epoch_in s.epoch) h6 in
    sym (ap (λ e. e.group_id) is) ∙ list_eq→eq _ _ group

-- The value alone of a result with rows.
abbrev map_value : {A : Type 0} → Result ReplayError (A × List ReplayRow) → A → Result ReplayError A
map_value (ok (a, rows)) b = ok a
map_value (err e) b = ok b

accept-passed :
    {A : Type 0} (l : ReplayLimits) (rows kept : List ReplayRow) (r : ReplayReservation)
    (mutate : Result ReplayError A) (a : A)
    → accept l rows r mutate ≡ ok (a, kept)
    → mutate ≡ ok a
unfolding accept
accept-passed l rows kept r mutate a h =
    let live = prune r.received_at rows in
    let (new, h1) = require-passed (not (has live r.message_id r.received_at)) _ _ (a, kept) h in
    let (room, h2) =
      require-passed (ltb (sender_count live r.sender_fingerprint) l.per_sender_cap) _ _ (a, kept)
        h1 in
    let (space, h3) = require-passed (ltb (count live) l.global_cap) _ _ (a, kept) h2 in
    let (free, h4) =
      require-passed (not (any (λ row. list_eq row.message_id r.message_id) live)) _ _ (a, kept)
        h3 in
    let (b, (done, h5)) = bind-passed mutate _ (a, kept) h4 in done ∙ ap (λ m. map_value m b) h5

as_mutation-passed :
    {A : Type 0} (m : Result GroupError A) (a : A) → as_mutation m ≡ ok a → m ≡ ok a
as_mutation-passed (ok b) a h = cc h
as_mutation-passed (err e) a h = absurd (cc h)

same_tables : (t : Tables) → Keeps t t
same_tables t = record { groups = refl; authorities = refl; epochs = refl }

distribute_key-Keeps :
    (p : Primitives) (self : LocalIdentity) (peers : Text → Option Connection) (now : ℕ) (g : Bytes)
    (latest : SignedGroupEpoch) (key : Option (StoredSenderKey × Bytes)) (t : Tables)
    → Keeps t (distribute_key p self peers now g latest key t).0
unfolding distribute_key store
distribute_key-Keeps p self peers now g latest none t = same_tables t
distribute_key-Keeps p self peers now g latest (some (row, generation)) t = record {
  groups = refl;
  authorities = refl;
  epochs = refl;
}

distribute_sender_keys-Keeps :
    (p : Primitives) (self : LocalIdentity) (peers : Text → Option Connection) (now : ℕ) (g : Bytes)
    (t : Tables)
    → Keeps t (distribute_sender_keys p self peers now g t).0
unfolding distribute_sender_keys
distribute_sender_keys-Keeps p self peers now g t = elim (Option-cases (find t g)) [
  | inl e ↦ rw (distribute_sender_keys, e) (same_tables t)
  | inr (group, e) ↦ elim (Option-cases (get_latest_epoch t (to_hex g))) [
    | inl e' ↦ rw (distribute_sender_keys, e, e') (same_tables t)
    | inr (latest, e') ↦ elim (Bool-cases (is_member_in_epoch latest self.public_key)) [
      | inl e'' ↦
          rw (distribute_sender_keys, e, e', e'')
            (distribute_key-Keeps p self peers now g latest (kept_key (load t g self.public_key)) t)
      | inr e'' ↦ rw (distribute_sender_keys, e, e', e'') (same_tables t)
    ]
  ]
]

distribute_after-Keeps :
    (p : Primitives) (self : LocalIdentity) (peers : Text → Option Connection) (now : ℕ) (g : Bytes)
    (outcome : EpochOutcome) (t : Tables)
    → Keeps t (distribute_after p self peers now g outcome t).0
unfolding distribute_after
distribute_after-Keeps p self peers now g historical t = same_tables t
distribute_after-Keeps p self peers now g (updated false removed) t = same_tables t
distribute_after-Keeps p self peers now g (updated true true) t = same_tables t
distribute_after-Keeps p self peers now g (updated true false) t =
    distribute_sender_keys-Keeps p self peers now g t

conclude-tables :
    (p : Primitives) (self : LocalIdentity) (peers : Text → Option Connection) (now : ℕ) (g : Bytes)
    (version : ℕ) (m : Manager) (mutation : Result GroupError (EpochOutcome × Tables))
    (r : Result ReplayError ((EpochOutcome × Tables) × List ReplayRow))
    → ((a : EpochOutcome × Tables) (rows : List ReplayRow) → r ≡ ok (a, rows) → mutation ≡ ok a)
    → ((conclude p self peers now g version m mutation r).0.tables ≡ m.tables)
      ⊎ ((outcome : EpochOutcome) × ((u : Tables) × ((mutation ≡ ok (outcome, u))
              × Keeps u (conclude p self peers now g version m mutation r).0.tables)))
unfolding conclude
conclude-tables p self peers now g version m mutation (err e) h = inl refl
conclude-tables p self peers now g version m mutation (ok ((outcome, u), rows)) h =
    inr (
      outcome,
      (u, (h (outcome, u) rows refl, distribute_after-Keeps p self peers now g outcome u)),
    )

-- What a delivery did: nothing to the tables, or its transaction ran on an epoch of its group.
pub record Ran (p : Primitives) (self : LocalIdentity) (d : EpochDelivery) (fresh : Fresh)
    (t u : Tables) : Type 0 where
  pub key : Bytes
  pub signed : SignedGroupEpoch
  pub outcome : EpochOutcome
  pub after : Tables
  pub of_group : signed.epoch.group_id ≡ to_hex d.message.group_id
  pub received : receive_epoch p self fresh d.message.group_id signed key t ≡ ok (outcome, after)
  pub kept : Keeps after u

pub handle_group_epoch-Ran :
    (p : Primitives) (decode : Bytes → Option Value) (limits : ReplayLimits) (self : LocalIdentity)
    (peers : Text → Option Connection) (session : PeerSession) (d : EpochDelivery) (fresh : Fresh)
    (m : Manager)
    → ((handle_group_epoch p decode limits self peers session d fresh m).0.tables ≡ m.tables)
      ⊎ Ran p self d fresh m.tables
          (handle_group_epoch p decode limits self peers session d fresh m).0.tables
unfolding handle_group_epoch
handle_group_epoch-Ran p decode limits self peers session d fresh m =
    opened (open_delivery p decode self session d fresh.now) refl
  where
    opened :
        (o : Result GroupError (Bytes × (SignedGroupEpoch × ReplayReservation)))
        → open_delivery p decode self session d fresh.now ≡ o
        → ((handle_group_epoch p decode limits self peers session d fresh m).0.tables ≡ m.tables)
          ⊎ Ran p self d fresh m.tables
              (handle_group_epoch p decode limits self peers session d fresh m).0.tables
    opened (err e) is = rw (handle_group_epoch, is) (inl refl)
    opened (ok (key, (s, r))) is =
        let g = d.message.group_id in
        let mutation = receive_epoch p self fresh g s key m.tables in
        elim (conclude-tables p self peers fresh.now g (version_of s) m mutation
          (accept limits m.ledger r (as_mutation mutation))
          (λ a rows e.
            as_mutation-passed mutation a
              (accept-passed limits m.ledger rows r (as_mutation mutation) a e))) [
                | inl same ↦ rw (handle_group_epoch, is) (inl same)
                | inr (outcome, (u, (received, kept))) ↦
                    rw (handle_group_epoch, is)
                      (inr (record {
                        key = key;
                        signed = s;
                        outcome = outcome;
                        after = u;
                        of_group = open_delivery-group p decode self session d fresh.now key s r is;
                        received = received;
                        kept = kept;
                      }))
              ]
