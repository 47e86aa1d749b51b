-- ===== src/Groups/CatchUp.antt =====
-- A node that missed epochs takes them when they are delivered in their order.
use mathlib.Core.List.{append_assoc, append-nil}
use network_self_md.Prelude.{
  ◌≡◌, refl, sym, ap, ◌∙◌, subst, Option, none, some, List, [], ◌∷◌, ◌++◌, arith, Bytes, Text,
  list_eq_self, gt→leb, Option-cases, inl, inr,
}
use network_self_md.Prelude.Results.{Result, ok, ◌>>=◌, ◌>>◌, or_throw}
use network_self_md.Bytes.{to_hex}
use network_self_md.GroupState.{Primitives, SignedGroupEpoch}
use network_self_md.Groups.{Authority, Tables, LocalIdentity, GroupError, no_provenance}
use network_self_md.Groups.EpochTable.{version_of, newest, epochs_of, get_latest_epoch, save_epoch}
use network_self_md.Groups.Membership.{find}
use network_self_md.Groups.Receive.{
  EpochOutcome, historical, Fresh, settle, save_and_settle, receive_after, receive_epoch,
}
use network_self_md.Groups.Chain.{IsLinked, check_next-IsSuccessor}
use network_self_md.Groups.Linked.{settle-epochs}
use network_self_md.Groups.Anchored.{Stays-IsAnchored, receive_epoch-Stays}
use network_self_md.Groups.History.{IsHistory, newest-IsLinked, IsNext-IsLinked}
use network_self_md.Groups.Log.{oldest_first, log_of}
use network_self_md.Groups.Progress.{check, check-IsNext, check-verifies, save_epoch-next}

-- What taking the epoch gives: it is the newest row.
record Takes (p : Primitives) (self : LocalIdentity) (fresh : Fresh) (g : Bytes)
    (s : SignedGroupEpoch) (peer : Bytes) (t : Tables) : Type 0 where
  outcome : EpochOutcome
  after : Tables
  received : receive_epoch p self fresh g s peer t ≡ ok (outcome, after)
  added : after.epochs ≡ s ∷ t.epochs

save_and_settle-next :
    (p : Primitives) (self : LocalIdentity) (fresh : Fresh) (g : Bytes) (s : SignedGroupEpoch)
    (latest : Option SignedGroupEpoch) (t saved : Tables)
    → save_epoch p s t ≡ ok saved
    → (outcome : EpochOutcome) × ((u : Tables) × ((save_and_settle p self fresh g s latest t
            ≡ ok (outcome, u))
          × (u.epochs ≡ saved.epochs)))
unfolding save_and_settle
save_and_settle-next p self fresh g s latest t saved h = elim (Option-cases (find t g)) [
  | inl e ↦ (historical, (saved, (rw (save_and_settle, h, e) refl, refl)))
  | inr (group, e) ↦
      let (outcome, u) = settle self fresh g s latest saved in
      (outcome, (u, (rw (save_and_settle, h, e) refl, settle-epochs self fresh g s latest saved)))
]

receive_after-next :
    (p : Primitives) (self : LocalIdentity) (fresh : Fresh) (g : Bytes) (a : Authority)
    (s : SignedGroupEpoch) (peer : Bytes) (latest : Option SignedGroupEpoch) (t saved : Tables)
    → check p a (to_hex g) peer latest s ≡ ok tt
    → save_epoch p s t ≡ ok saved
    → (outcome : EpochOutcome) × ((u : Tables) × ((receive_after p self fresh g a s peer latest t
            ≡ ok (outcome, u))
          × (u.epochs ≡ saved.epochs)))
unfolding receive_after
receive_after-next p self fresh g a s peer none t saved h is_saved =
    let (outcome, (u, (settled, same))) =
      save_and_settle-next p self fresh g s none t saved is_saved in
    (outcome, (u, (ap (λ m. m >> save_and_settle p self fresh g s none t) h ∙ settled, same)))
receive_after-next p self fresh g a s peer (some latest) t saved h is_saved =
    let (outcome, (u, (settled, same))) =
      save_and_settle-next p self fresh g s (some latest) t saved is_saved in
    let next = check_next-IsSuccessor p latest s peer h in
    let new = gt→leb (version_of s) (version_of latest) (omega (arith, next.version)) in
    (
      outcome,
      (
        u,
        (
          rw (receive_after, new)
              (ap (λ m. m >> save_and_settle p self fresh g s (some latest) t) h ∙ settled),
          same,
        ),
      ),
    )

receive_epoch-Takes :
    (p : Primitives) (self : LocalIdentity) (fresh : Fresh) (a : Authority) (g : Bytes)
    (s : SignedGroupEpoch) (peer : Bytes) (t : Tables)
    → IsHistory p a g t
    → s.epoch.group_id ≡ to_hex g
    → check p a (to_hex g) peer (newest (epochs_of (to_hex g) t.epochs)) s ≡ ok tt
    → Takes p self fresh g s peer t
unfolding receive_epoch get_latest_epoch
receive_epoch-Takes p self fresh a g s peer t history of_group checked =
    let latest = newest (epochs_of (to_hex g) t.epochs) in
    let next = check-IsNext p a (to_hex g) peer latest s checked in
    let (expected, verified) = check-verifies p a (to_hex g) peer latest s checked in
    let saved = save_epoch-next p a (to_hex g) s t expected of_group history.linked next verified in
    let (outcome, (u, (received, same))) =
      receive_after-next p self fresh g a s peer latest t _ checked saved in
    record {
      outcome = outcome;
      after = u;
      received =
          ap
            (λ o.
              or_throw o no_provenance >>= (λ b. receive_after p self fresh g b s peer latest t))
            history.anchored.0
          ∙ received;
      added = same;
    }

-- The transactions of deliveries one after another, of one group and from one peer.
unfoldable pub deliver_each :
    Primitives
    → LocalIdentity
    → Fresh
    → Bytes
    → List SignedGroupEpoch
    → Bytes
    → Tables
    → Result GroupError Tables
unfolding receive_epoch
deliver_each p self fresh g [] peer t = ok t
deliver_each p self fresh g (s ∷ ss) peer t = do
  (outcome, u) ← receive_epoch p self fresh g s peer t
  deliver_each p self fresh g ss peer u

-- Each epoch is of the group and passes the checks after the one before it.
abbrev pub IsPath :
    Primitives → Authority → Text → Bytes → Option SignedGroupEpoch → List SignedGroupEpoch → Type 0
IsPath p a g peer latest [] = Unit {0}
IsPath p a g peer latest (s ∷ ss) =
    (s.epoch.group_id ≡ g) × ((check p a g peer latest s ≡ ok tt) × IsPath p a g peer (some s) ss)

log_of-added :
    (g : Bytes) (s : SignedGroupEpoch) (t u : Tables)
    → s.epoch.group_id ≡ to_hex g
    → u.epochs ≡ s ∷ t.epochs
    → epochs_of (to_hex g) u.epochs ≡ s ∷ epochs_of (to_hex g) t.epochs
log_of-added g s t u of_group added =
    let same = list_eq_self (to_hex g) in ap (epochs_of (to_hex g)) added ∙ rw (of_group, same) refl

-- A node that knows a group's authority, and holds its first epochs or none, is delivered the epochs
-- that follow, in their order and by one peer, each passing the checks after the one before it. It
-- takes all of them: no delivery fails, and its log of the group is then the old one with these
-- epochs behind it.
pub deliver_each-catches_up :
    (p : Primitives) (self : LocalIdentity) (fresh : Fresh) (a : Authority) (g : Bytes)
    (ss : List SignedGroupEpoch) (peer : Bytes) (t : Tables)
    → IsHistory p a g t
    → IsPath p a (to_hex g) peer (get_latest_epoch t (to_hex g)) ss
    → (u : Tables) × ((deliver_each p self fresh g ss peer t ≡ ok u)
        × (log_of g u ≡ log_of g t ++ ss))
unfolding deliver_each get_latest_epoch
deliver_each-catches_up p self fresh a g [] peer t history path =
    (t, (refl, sym (append-nil (log_of g t))))
deliver_each-catches_up p self fresh a g (s ∷ ss) peer t history (of_group, (checked, rest)) =
    let taken = receive_epoch-Takes p self fresh a g s peer t history of_group checked in
    let rows = log_of-added g s t taken.after of_group taken.added in
    let linked : IsLinked p a (to_hex g) (s ∷ epochs_of (to_hex g) t.epochs) =
      IsNext-IsLinked p a (to_hex g) s (epochs_of (to_hex g) t.epochs)
        (check-IsNext p a (to_hex g) peer _ s checked) history.linked in
    let next : IsHistory p a g taken.after = record {
      anchored =
          Stays-IsAnchored a g g t taken.after
            (receive_epoch-Stays p self fresh g s peer t taken.after taken.outcome taken.received)
            history.anchored;
      linked = subst (λ l. IsLinked p a (to_hex g) l) (sym rows) linked;
    } in
    let latest : newest (epochs_of (to_hex g) taken.after.epochs) ≡ some s =
      ap newest rows ∙ newest-IsLinked p a (to_hex g) s _ linked in
    let (u, (received, log)) =
      deliver_each-catches_up p self fresh a g ss peer taken.after next
        (subst (λ o. IsPath p a (to_hex g) peer o ss) (sym latest) rest) in
    (
      u,
      (
        ap (λ m. m >>= (λ r. deliver_each p self fresh g ss peer r.1)) taken.received ∙ received,
        log ∙ ap (λ l. oldest_first l ++ ss) rows ∙ append_assoc (log_of g t) (s ∷ []) ss,
      ),
    )
