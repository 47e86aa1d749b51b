-- ===== src/Groups/Invites.antt =====
-- `GroupInviteRepository` and `GroupBootstrapRepository`: the invites of the last day, at most 256,
-- and the authority that an invite brought.
use network_self_md.Prelude.{
  ℕ, ◌+◌, Bool, ◌&&◌, not, Option, none, some, List, [], ◌∷◌, Bytes, Text, list_eq, filter, take,
  leb, text_key, lookup, insert, delete, if◌then◌else◌,
}
use network_self_md.Groups.{Tables, StoredGroupInvite, StoredGroupBootstrap}
use network_self_md.Groups.Membership.{is_incoming}

abbrev pub invite_age_ms : ℕ
invite_age_ms = 86400000

abbrev pub max_invites : ℕ
max_invites = 256

abbrev pub is_invite : Text → StoredGroupInvite → Bool
is_invite id i = list_eq i.invite_id id

-- `INSERT OR REPLACE`, then the rows that `ORDER BY created_at DESC` puts first.
abbrev pub newer_first : StoredGroupInvite → List StoredGroupInvite → List StoredGroupInvite
newer_first i [] = i ∷ []
newer_first i (j ∷ js) =
    let rest = newer_first i js in if leb j.created_at i.created_at then i ∷ j ∷ js else j ∷ rest

abbrev pub by_creation : List StoredGroupInvite → List StoredGroupInvite
by_creation [] = []
by_creation (i ∷ is) = newer_first i (by_creation is)

unfoldable pub save_invite : Tables → StoredGroupInvite → Tables
save_invite t i = record t {
  invites =
      take max_invites (by_creation (i ∷ filter (λ j. not (is_invite i.invite_id j)) t.invites));
}

-- `created_at >= now - 24 h`.
abbrev pub is_live : ℕ → StoredGroupInvite → Bool
is_live now i = leb now (i.created_at + invite_age_ms)

abbrev pub head_of : {A : Type 0} → List A → Option A
head_of [] = none
head_of (a ∷ rest) = some a

unfoldable pub find_incoming : Tables → Bytes → ℕ → Option StoredGroupInvite
find_incoming t g now = head_of (
    by_creation
      (filter (λ i. list_eq i.group_id g && (is_incoming i.direction && is_live now i)) t.invites))

unfoldable pub find_by_id : Tables → Text → ℕ → Option StoredGroupInvite
find_by_id t id now = head_of (filter (λ i. is_invite id i && is_live now i) t.invites)

unfoldable pub delete_invite : Tables → Text → Tables
delete_invite t id = record t { invites = filter (λ i. not (is_invite id i)) t.invites }

unfoldable pub save_bootstrap : Tables → Bytes → StoredGroupBootstrap → Tables
save_bootstrap t g b = record t { bootstraps = insert g b t.bootstraps }

abbrev pub find_bootstrap : Tables → Bytes → Option StoredGroupBootstrap
find_bootstrap t g = lookup g t.bootstraps

unfoldable pub delete_bootstrap : Tables → Bytes → Tables
delete_bootstrap t g = record t { bootstraps = delete g t.bootstraps }
