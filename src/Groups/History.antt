-- ===== src/Groups/History.antt =====
-- What a node's calls do to the history of a group: the epochs that it has stored of it.
use network_self_md.Prelude.{
  ◌<◌, ◌≡◌, refl, sym, ap, subst, ◌∙◌, true, false, ◌⊎◌, inl, inr, Option, some, List, [], ◌∷◌,
  arith, Bytes, Text, list_eq, list_eq→eq, All, ltb, Bool-cases,
}
use network_self_md.Prelude.Results.{ok, or_throw-passed}
use network_self_md.Value.{Value}
use network_self_md.Bytes.{to_hex, to_hex_injective}
use network_self_md.GroupState.{Primitives, SignedGroupEpoch}
use network_self_md.Authentication.{PeerSession}
use network_self_md.Replay.{ReplayLimits}
use network_self_md.Groups.{Authority, Tables, LocalIdentity}
use network_self_md.Groups.SenderKeyTable.{delete_keys_of_group}
use network_self_md.Groups.EpochTable.{version_of, newest, epochs_of}
use network_self_md.Groups.Membership.{leave}
use network_self_md.Groups.Receive.{EpochOutcome, Fresh, authority_of, receive_epoch}
use network_self_md.Groups.Opening.{EpochDelivery}
use network_self_md.Groups.Handle.{
  Manager, handle_group_epoch, leave_group, GroupCall, deliver, leaving, handle_each,
}
use network_self_md.Groups.Distribute.{Connection}
use network_self_md.Groups.Chain.{IsNext, IsLinked}
use network_self_md.Groups.Frame.{Keeps}
use network_self_md.Groups.Linked.{receive_epoch-IsNext}
use network_self_md.Groups.Deliveries.{handle_group_epoch-Ran}
use network_self_md.Groups.Anchored.{
  IsAnchored, IsAnchored-same, Stays-IsAnchored, leave-IsAnchored, receive_epoch-Stays,
}

-- The authority is known, and the epochs of the group are linked from it.
pub record IsHistory (p : Primitives) (a : Authority) (g : Bytes) (t : Tables) : Type 0 where
  pub anchored : IsAnchored a g t
  pub linked : IsLinked p a (to_hex g) (epochs_of (to_hex g) t.epochs)

-- The newest of linked epochs is the first.
pub newest-IsLinked :
    (p : Primitives) (a : Authority) (g : Text) (s : SignedGroupEpoch) (ss : List SignedGroupEpoch)
    → IsLinked p a g (s ∷ ss)
    → newest (s ∷ ss) ≡ some s
newest-IsLinked p a g s [] h = refl
newest-IsLinked p a g s (r ∷ rs) (next, rest) = rw (newest-IsLinked p a g r rs rest) (
    let old : ltb (version_of s) (version_of r) ≡ false = ground (arith, next.version) in
    rw old refl)

pub IsNext-IsLinked :
    (p : Primitives) (a : Authority) (g : Text) (s : SignedGroupEpoch) (ss : List SignedGroupEpoch)
    → IsNext p a g (newest ss) s
    → IsLinked p a g ss
    → IsLinked p a g (s ∷ ss)
IsNext-IsLinked p a g s [] next h = next
IsNext-IsLinked p a g s (r ∷ rs) next h =
    (subst (λ o. IsNext p a g o s) (newest-IsLinked p a g r rs h) next, h)

epochs_of-other :
    (g : Text) (s : SignedGroupEpoch) (rows : List SignedGroupEpoch)
    → list_eq s.epoch.group_id g ≡ false
    → epochs_of g (s ∷ rows) ≡ epochs_of g rows
epochs_of-other g s rows h = rw h

epochs_of-same :
    (g : Text) (s : SignedGroupEpoch) (rows : List SignedGroupEpoch)
    → list_eq s.epoch.group_id g ≡ true
    → epochs_of g (s ∷ rows) ≡ s ∷ epochs_of g rows
epochs_of-same g s rows h = rw h

-- The epochs of a group after a delivery to that group.
after-IsLinked :
    (p : Primitives) (a : Authority) (g : Text) (s : SignedGroupEpoch) (t u : Tables)
    → list_eq s.epoch.group_id g ≡ true
    → IsLinked p a g (epochs_of g t.epochs)
    → (u.epochs ≡ t.epochs)
      ⊎ ((u.epochs ≡ s ∷ t.epochs) × IsNext p a g (newest (epochs_of g t.epochs)) s)
    → IsLinked p a g (epochs_of g u.epochs)
after-IsLinked p a g s t u same h (inl e) =
    subst (λ rows. IsLinked p a g (epochs_of g rows)) (sym e) h
after-IsLinked p a g s t u same h (inr (e, next)) =
    subst (λ rows. IsLinked p a g rows)
      (sym (ap (epochs_of g) e ∙ epochs_of-same g s t.epochs same))
      (IsNext-IsLinked p a g s (epochs_of g t.epochs) next h)

-- A delivery to another group leaves the epochs of this one.
other-IsLinked :
    (p : Primitives) (a : Authority) (g : Text) (s : SignedGroupEpoch) (t u : Tables) {X : Type 0}
    → list_eq s.epoch.group_id g ≡ false
    → IsLinked p a g (epochs_of g t.epochs)
    → (u.epochs ≡ t.epochs) ⊎ ((u.epochs ≡ s ∷ t.epochs) × X)
    → IsLinked p a g (epochs_of g u.epochs)
other-IsLinked p a g s t u other h (inl e) =
    subst (λ rows. IsLinked p a g (epochs_of g rows)) (sym e) h
other-IsLinked p a g s t u other h (inr (e, x)) =
    subst (λ rows. IsLinked p a g rows)
      (sym (ap (epochs_of g) e ∙ epochs_of-other g s t.epochs other)) h

pub receive_epoch-authority :
    (p : Primitives) (self : LocalIdentity) (fresh : Fresh) (g : Bytes) (s : SignedGroupEpoch)
    (peer : Bytes) (t u : Tables) (outcome : EpochOutcome)
    → receive_epoch p self fresh g s peer t ≡ ok (outcome, u)
    → (b : Authority) × (authority_of t g ≡ some b)
unfolding receive_epoch
receive_epoch-authority p self fresh g s peer t u outcome h =
    let (b, (known, rest)) = or_throw-passed (authority_of t g) _ _ (outcome, u) h in (b, known)

pub receive_epoch-IsHistory :
    (p : Primitives) (self : LocalIdentity) (fresh : Fresh) (a : Authority) (g h : Bytes)
    (s : SignedGroupEpoch) (peer : Bytes) (t u : Tables) (outcome : EpochOutcome)
    → All (λ b. b < 256) g
    → All (λ b. b < 256) h
    → s.epoch.group_id ≡ to_hex g
    → receive_epoch p self fresh g s peer t ≡ ok (outcome, u)
    → IsHistory p a h t
    → IsHistory p a h u
receive_epoch-IsHistory p self fresh a g h s peer t u outcome bytes_g bytes_h of_g e history =
    record {
      anchored =
          Stays-IsAnchored a g h t u (receive_epoch-Stays p self fresh g s peer t u outcome e)
            history.anchored;
      linked = elim (Bool-cases (list_eq s.epoch.group_id (to_hex h))) [
        | inl same ↦
            let is_h = to_hex_injective g h bytes_g bytes_h (sym of_g ∙ list_eq→eq _ _ same) in
            after-IsLinked p a (to_hex h) s t u same history.linked (
              subst
                (λ k.
                  (u.epochs ≡ t.epochs)
                  ⊎ ((u.epochs ≡ s ∷ t.epochs)
                      × IsNext p a (to_hex k) (newest (epochs_of (to_hex k) t.epochs)) s))
                is_h
                (receive_epoch-IsNext p self fresh g a s peer t u outcome
                  (subst (λ k. authority_of t k ≡ some a) (sym is_h) history.anchored.0) e))
        | inr other ↦
            let (b, known) = receive_epoch-authority p self fresh g s peer t u outcome e in
            other-IsLinked p a (to_hex h) s t u other history.linked
              (receive_epoch-IsNext p self fresh g b s peer t u outcome known e)
      ];
    }

pub Keeps-IsHistory :
    (p : Primitives) (a : Authority) (g : Bytes) (t u : Tables)
    → Keeps t u
    → IsHistory p a g t
    → IsHistory p a g u
Keeps-IsHistory p a g t u same history = record {
  anchored = IsAnchored-same a g t u same.groups same.authorities history.anchored;
  linked =
      subst (λ rows. IsLinked p a (to_hex g) (epochs_of (to_hex g) rows)) (sym same.epochs)
        history.linked;
}

pub handle_group_epoch-IsHistory :
    (p : Primitives) (decode : Bytes → Option Value) (limits : ReplayLimits) (self : LocalIdentity)
    (peers : Text → Option Connection) (session : PeerSession) (d : EpochDelivery) (fresh : Fresh)
    (m : Manager) (a : Authority) (g : Bytes)
    → All (λ b. b < 256) g
    → All (λ b. b < 256) d.message.group_id
    → IsHistory p a g m.tables
    → IsHistory p a g (handle_group_epoch p decode limits self peers session d fresh m).0.tables
handle_group_epoch-IsHistory p decode limits self peers session d fresh m a g bytes_g bytes_d h =
    elim (handle_group_epoch-Ran p decode limits self peers session d fresh m) [
      | inl same ↦ subst (λ t. IsHistory p a g t) (sym same) h
      | inr ran ↦ Keeps-IsHistory p a g ran.after _ ran.kept (
          receive_epoch-IsHistory p self fresh a d.message.group_id g ran.signed ran.key m.tables
            ran.after ran.outcome bytes_d bytes_g ran.of_group ran.received h)
    ]

pub leave_group-IsHistory :
    (p : Primitives) (a : Authority) (g h : Bytes) (m : Manager)
    → IsHistory p a h m.tables
    → IsHistory p a h (leave_group g m).0.tables
unfolding leave_group leave delete_keys_of_group
leave_group-IsHistory p a g h m history = record {
  anchored = leave-IsAnchored a g h m.tables history.anchored;
  linked = history.linked;
}

-- The group ids of the deliveries are byte arrays.
abbrev pub HasByteIds : List GroupCall → Type 0
HasByteIds [] = Unit {0}
HasByteIds (deliver peers session d fresh ∷ calls) =
    All (λ b. b < 256) d.message.group_id × HasByteIds calls
HasByteIds (leaving g ∷ calls) = HasByteIds calls

-- Whatever epochs peers deliver, and whatever groups are left: the epochs that a node stores of a
-- group stay linked, from the one that the group's authority made and pinned on. Each next one
-- verifies against the hash of the one before, has the next version, is not older, and was made by
-- an admin of the one before. The authority stays known. The group's id and those of the deliveries
-- are byte arrays.
pub handle_each-IsHistory :
    (p : Primitives) (decode : Bytes → Option Value) (limits : ReplayLimits) (self : LocalIdentity)
    (a : Authority) (g : Bytes) (calls : List GroupCall) (m : Manager)
    → All (λ b. b < 256) g
    → HasByteIds calls
    → IsHistory p a g m.tables
    → IsHistory p a g (handle_each p decode limits self calls m).tables
unfolding handle_each
handle_each-IsHistory p decode limits self a g [] m bytes ids h = h
handle_each-IsHistory p decode limits self a g (deliver peers session d fresh ∷ calls) m bytes ids
      h =
    handle_each-IsHistory p decode limits self a g calls _ bytes ids.1
      (handle_group_epoch-IsHistory p decode limits self peers session d fresh m a g bytes ids.0 h)
handle_each-IsHistory p decode limits self a g (leaving k ∷ calls) m bytes ids h =
    handle_each-IsHistory p decode limits self a g calls _ bytes ids
      (leave_group-IsHistory p a k g m h)
