-- ===== src/Policy/Audit.antt =====
-- `PolicyAuditLog` of packages/node/src/policy/audit-log.ts: the ring in memory. An entry is a
-- value here, so the copy and the freeze that `record` makes of it are the identity; the `persist`
-- callback belongs to the gate's environment (Policy/Gate.antt).
pub mod Ring
use network_self_md.Prelude.{
  ℕ, ◌-◌, max, List, [], ◌∷◌, ◌++◌, Option, none, some, length, drop, ltb, leb, if◌then◌else◌,
}
use network_self_md.Policy.Types.{Entry}

-- Oldest entry first.
pub record AuditLog : Type 0 where
  pub buf : List Entry
  pub max_entries : ℕ

abbrev pub get_or_1000 : Option ℕ → ℕ
get_or_1000 none = 1000
get_or_1000 (some n) = n

unfoldable pub new : Option ℕ → AuditLog
new limit = record { buf = []; max_entries = max 1 (get_or_1000 limit) }

-- What `record` leaves for after the commit.
unfoldable pub push : AuditLog → Entry → AuditLog
push log e =
    let grown = log.buf ++ e ∷ [] in
    if ltb log.max_entries (length grown)
    then record log { buf = drop (length grown - log.max_entries) grown }
    else record log { buf = grown }

unfoldable pub recent : AuditLog → Option ℕ → List Entry
recent log none = log.buf
recent log (some n) = if leb (length log.buf) n then log.buf else drop (length log.buf - n) log.buf

unfoldable pub size : AuditLog → ℕ
size log = length log.buf

unfoldable pub clear : AuditLog → AuditLog
clear log = record log { buf = [] }
