-- ===== src/Groups/Log.antt =====
-- The table of epochs as what it stands for: an append-only log of each group.
use mathlib.Core.List.{append_assoc, append-nil}
use network_self_md.Prelude.{
  ℕ, zero, suc, ◌+◌, ◌-◌, ◌<◌, ◌≡◌, refl, sym, ap, ◌∙◌, true, inl, inr, Option, some, List, [], ◌∷◌,
  ◌++◌, arith, Bytes, Text, length, get_elem?, length-append, list_eq, All, All-append, gt→leb,
  ◌==◌, Bool-cases, if◌then◌else◌,
}
use network_self_md.Value.{Value}
use network_self_md.Bytes.{to_hex}
use network_self_md.GroupState.{Primitives, SignedGroupEpoch}
use network_self_md.Replay.{ReplayLimits}
use network_self_md.Groups.{Authority, Tables, LocalIdentity}
use network_self_md.Groups.SenderKeyTable.{delete_keys_of_group}
use network_self_md.Groups.EpochTable.{
  value_of, version_of, find_version, newest, place, ascending, epochs_of, get_latest_epoch,
  get_epoch_by_version, get_epoch_chain,
}
use network_self_md.Groups.Membership.{leave}
use network_self_md.Groups.Receive.{Fresh}
use network_self_md.Groups.Opening.{EpochDelivery}
use network_self_md.Groups.Handle.{
  Manager, handle_group_epoch, leave_group, GroupCall, deliver, leaving, handle_each,
}
use network_self_md.Groups.Chain.{IsLinked}
use network_self_md.Groups.Linked.{receive_epoch-IsNext}
use network_self_md.Groups.Deliveries.{Ran, handle_group_epoch-Ran}
use network_self_md.Groups.History.{
  IsHistory, HasByteIds, newest-IsLinked, receive_epoch-authority, handle_each-IsHistory,
}

-- The log: the epochs from the first one on.
abbrev pub oldest_first : List SignedGroupEpoch → List SignedGroupEpoch
oldest_first [] = []
oldest_first (s ∷ ss) = oldest_first ss ++ s ∷ []

abbrev pub log_of : Bytes → Tables → List SignedGroupEpoch
log_of g t = oldest_first (epochs_of (to_hex g) t.epochs)

abbrev pub last_of : List SignedGroupEpoch → Option SignedGroupEpoch
last_of log = get_elem? log (length log - 1)

-- The three queries answer as the log does.
pub record AnswersAs (log : List SignedGroupEpoch) (t : Tables) (g : Text) : Type 0 where
  pub latest : get_latest_epoch t g ≡ last_of log
  pub by_version : (v : ℕ) → get_epoch_by_version t g v ≡ get_elem? log v
  pub chain : get_epoch_chain t g ≡ log

get_elem?-last :
    {A : Type 0} (xs : List A) (x : A) (v : ℕ)
    → get_elem? (xs ++ x ∷ []) v ≡ (if length xs == v then some x else get_elem? xs v)
get_elem?-last [] x zero = refl
get_elem?-last [] x (suc v) = ground arith
get_elem?-last (y ∷ ys) x zero = ground arith
get_elem?-last (y ∷ ys) x (suc v) = ground (arith, get_elem?-last ys x v)

pub length-oldest_first : (ss : List SignedGroupEpoch) → length (oldest_first ss) ≡ length ss
length-oldest_first [] = refl
length-oldest_first (s ∷ ss) =
    omega (arith, length-append (oldest_first ss) (s ∷ []), length-oldest_first ss)

-- The versions of linked epochs count them.
pub version-IsLinked :
    (p : Primitives) (a : Authority) (g : Text) (s : SignedGroupEpoch) (ss : List SignedGroupEpoch)
    → IsLinked p a g (s ∷ ss)
    → version_of s ≡ length ss
version-IsLinked p a g s [] h = ap value_of h.genesis.version
version-IsLinked p a g s (r ∷ rs) (next, rest) =
    omega (arith, next.version, version-IsLinked p a g r rs rest)

tail-IsLinked :
    (p : Primitives) (a : Authority) (g : Text) (s : SignedGroupEpoch) (ss : List SignedGroupEpoch)
    → IsLinked p a g (s ∷ ss)
    → IsLinked p a g ss
tail-IsLinked p a g s [] h = tt
tail-IsLinked p a g s (r ∷ rs) h = h.1

pub find_version-log :
    (p : Primitives) (a : Authority) (g : Text) (ss : List SignedGroupEpoch) (v : ℕ)
    → IsLinked p a g ss
    → find_version v ss ≡ get_elem? (oldest_first ss) v
find_version-log p a g [] v h = refl
find_version-log p a g (s ∷ ss) v h = rw (
  get_elem?-last (oldest_first ss) s v,
  length-oldest_first ss,
  version-IsLinked p a g s ss h,
  find_version-log p a g ss v (tail-IsLinked p a g s ss h),
)

All-below-suc :
    (n : ℕ) (ss : List SignedGroupEpoch)
    → All (λ s. version_of s < n) ss
    → All (λ s. version_of s < suc n) ss
All-below-suc n [] h = tt
All-below-suc n (s ∷ ss) h = (omega (arith, h.0), All-below-suc n ss h.1)

log-below :
    (p : Primitives) (a : Authority) (g : Text) (ss : List SignedGroupEpoch)
    → IsLinked p a g ss
    → All (λ s. version_of s < length ss) (oldest_first ss)
log-below p a g [] h = tt
log-below p a g (s ∷ ss) h =
    All-append (λ r. version_of r < suc (length ss)) (oldest_first ss) (s ∷ [])
      (All-below-suc (length ss) (oldest_first ss)
        (log-below p a g ss (tail-IsLinked p a g s ss h)))
      (omega (arith, version-IsLinked p a g s ss h), tt)

place-last :
    (s : SignedGroupEpoch) (rs : List SignedGroupEpoch)
    → All (λ r. version_of r < version_of s) rs
    → place s rs ≡ rs ++ s ∷ []
place-last s [] h = refl
place-last s (r ∷ rs) h = rw (gt→leb (version_of s) (version_of r) h.0, place-last s rs h.1)

ascending-log :
    (p : Primitives) (a : Authority) (g : Text) (ss : List SignedGroupEpoch)
    → IsLinked p a g ss
    → ascending ss ≡ oldest_first ss
ascending-log p a g [] h = refl
ascending-log p a g (s ∷ ss) h =
    ap (place s) (ascending-log p a g ss (tail-IsLinked p a g s ss h))
    ∙ place-last s (oldest_first ss)
        (rw (version-IsLinked p a g s ss h) (log-below p a g ss (tail-IsLinked p a g s ss h)))

newest-log :
    (p : Primitives) (a : Authority) (g : Text) (ss : List SignedGroupEpoch)
    → IsLinked p a g ss
    → newest ss ≡ last_of (oldest_first ss)
newest-log p a g [] h = refl
newest-log p a g (s ∷ ss) h =
    newest-IsLinked p a g s ss h
    ∙ sym (
        rw
          (
            length-append (oldest_first ss) (s ∷ []),
            get_elem?-last (oldest_first ss) s (length (oldest_first ss) + 1 - 1),
          )
          (let e : (length (oldest_first ss) == (length (oldest_first ss) + 1 - 1)) ≡ true =
              ground arith in
            rw e refl))

IsHistory-AnswersAs :
    (p : Primitives) (a : Authority) (g : Bytes) (t : Tables)
    → IsHistory p a g t
    → AnswersAs (log_of g t) t (to_hex g)
unfolding get_latest_epoch get_epoch_by_version get_epoch_chain
IsHistory-AnswersAs p a g t h = record {
  latest = newest-log p a (to_hex g) _ h.linked;
  by_version = λ v. find_version-log p a (to_hex g) _ v h.linked;
  chain = ascending-log p a (to_hex g) _ h.linked;
}

-- What a call adds to a log.
abbrev pub Extends : List SignedGroupEpoch → List SignedGroupEpoch → Type 0
Extends log longer = (added : List SignedGroupEpoch) × (longer ≡ log ++ added)

Extends-self : (log : List SignedGroupEpoch) → Extends log log
Extends-self log = ([], sym (append-nil log))

Extends-trans : (a b c : List SignedGroupEpoch) → Extends a b → Extends b c → Extends a c
Extends-trans a b c (xs, h) (ys, k) = (xs ++ ys, k ∙ ap (λ l. l ++ ys) h ∙ append_assoc a xs ys)

log-added :
    (g : Bytes) (s : SignedGroupEpoch) (t u : Tables)
    → u.epochs ≡ s ∷ t.epochs
    → Extends (log_of g t) (log_of g u)
log-added g s t u e = elim (Bool-cases (list_eq s.epoch.group_id (to_hex g))) [
  | inl same ↦ (s ∷ [], ap (λ rows. oldest_first (epochs_of (to_hex g) rows)) e ∙ rw same refl)
  | inr other ↦
      let is : log_of g u ≡ log_of g t =
        ap (λ rows. oldest_first (epochs_of (to_hex g) rows)) e ∙ rw other refl in
      ([], is ∙ sym (append-nil (log_of g t)))
]

log-same : (g : Bytes) (t u : Tables) → u.epochs ≡ t.epochs → Extends (log_of g t) (log_of g u)
log-same g t u e =
    ([], ap (λ rows. oldest_first (epochs_of (to_hex g) rows)) e ∙ sym (append-nil (log_of g t)))

Ran-Extends :
    (p : Primitives) (self : LocalIdentity) (d : EpochDelivery) (fresh : Fresh) (t u : Tables)
    (g : Bytes)
    → Ran p self d fresh t u
    → Extends (log_of g t) (log_of g u)
Ran-Extends p self d fresh t u g ran =
    let (b, known) =
      receive_epoch-authority p self fresh d.message.group_id ran.signed ran.key t ran.after
        ran.outcome ran.received in
    elim (receive_epoch-IsNext p self fresh d.message.group_id b ran.signed ran.key t ran.after
      ran.outcome known ran.received) [
        | inl same ↦ log-same g t u (ran.kept.epochs ∙ same)
        | inr (added, next) ↦ log-added g ran.signed t u (ran.kept.epochs ∙ added)
      ]

handle_each-Extends :
    (p : Primitives) (decode : Bytes → Option Value) (limits : ReplayLimits) (self : LocalIdentity)
    (calls : List GroupCall) (m : Manager) (g : Bytes)
    → Extends (log_of g m.tables) (log_of g (handle_each p decode limits self calls m).tables)
unfolding handle_each leave_group leave delete_keys_of_group
handle_each-Extends p decode limits self [] m g = Extends-self (log_of g m.tables)
handle_each-Extends p decode limits self (deliver peers session d fresh ∷ calls) m g =
    let next = (handle_group_epoch p decode limits self peers session d fresh m).0 in
    Extends-trans (log_of g m.tables) (log_of g next.tables) _
      (elim (handle_group_epoch-Ran p decode limits self peers session d fresh m) [
        | inl same ↦ log-same g m.tables next.tables (ap (λ t. t.epochs) same)
        | inr ran ↦ Ran-Extends p self d fresh m.tables next.tables g ran
      ])
      (handle_each-Extends p decode limits self calls next g)
handle_each-Extends p decode limits self (leaving k ∷ calls) m g =
    handle_each-Extends p decode limits self calls (leave_group k m).0 g

-- The table of epochs implements an append-only log of a group, whatever epochs peers deliver and
-- whatever groups are left, from a state in which the group's authority is known and its epochs are
-- linked on. The log afterwards extends the one before, and the queries for the latest epoch, the
-- epoch of a version and the chain answer with the log's last entry, its entry of that index and the
-- log. The group's id and those of the deliveries are byte arrays.
pub handle_each-refines_log :
    (p : Primitives) (decode : Bytes → Option Value) (limits : ReplayLimits) (self : LocalIdentity)
    (a : Authority) (g : Bytes) (calls : List GroupCall) (m : Manager)
    → All (λ b. b < 256) g
    → HasByteIds calls
    → IsHistory p a g m.tables
    → Extends (log_of g m.tables) (log_of g (handle_each p decode limits self calls m).tables)
      × AnswersAs
          (log_of g (handle_each p decode limits self calls m).tables)
          (handle_each p decode limits self calls m).tables
          (to_hex g)
handle_each-refines_log p decode limits self a g calls m bytes ids h = (
  handle_each-Extends p decode limits self calls m g,
  IsHistory-AnswersAs p a g (handle_each p decode limits self calls m).tables
      (handle_each-IsHistory p decode limits self a g calls m bytes ids h),
)
