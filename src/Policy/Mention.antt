-- ===== src/Policy/Mention.antt =====
-- `containsMention` and `isIdentifierChar` of packages/node/src/policy/agent-policy.ts.
pub mod Search
use network_self_md.Prelude.{
  ℕ, zero, suc, ◌+◌, Bool, true, false, ◌&&◌, ◌||◌, not, [], ◌∷◌, Option, none, some, Text, length,
  get_elem?, drop, ltb, leb, ◌==◌, if◌then◌else◌,
}

-- `a-z`, `0-9`, `_` and `-`.
pub is_identifier_char : ℕ → Bool
is_identifier_char code =
    (leb 97 code && leb code 122) || (leb 48 code && leb code 57) || code == 95 || code == 45

-- The library's test for a prefix, `indexOf` from a position, and `includes`.
abbrev pub is_prefix : Text → Text → Bool
is_prefix [] xs = true
is_prefix (p ∷ ps) [] = false
is_prefix (p ∷ ps) (x ∷ xs) = let rest = is_prefix ps xs in if p == x then rest else false

abbrev pub index_at : Text → Text → ℕ → Option ℕ
index_at pat [] at = if is_prefix pat [] then some at else none
index_at pat (c ∷ cs) at =
    let rest = index_at pat cs (suc at) in if is_prefix pat (c ∷ cs) then some at else rest

abbrev pub index_of : Text → Text → ℕ → Option ℕ
index_of pat hay from = index_at pat (drop from hay) from

-- `isNaN(next) || !isIdentifierChar(next)`, where `none` is the NaN past the end of the text.
pub is_boundary : Option ℕ → Bool
unfolding is_identifier_char
is_boundary none = true
is_boundary (some code) = not (is_identifier_char code)

-- The `while` loop, with fuel for its rounds.
pub mention_from : ℕ → Text → Text → ℕ → Bool
mention_from zero hay needle from = false
mention_from (suc fuel) hay needle from =
    let search = elim (index_of (b'@' ∷ needle) hay from) as (λ _. Bool) [
      | none ↦ false
      | some at ↦
          let rest = mention_from fuel hay needle (at + 1) in
          if is_boundary (get_elem? hay (at + 1 + length needle)) then true else rest
    ] in
    if ltb from (length hay) then search else false

-- `from` grows by at least one in each round, so a round for each code unit is enough.
unfoldable pub contains_mention : (Text → Text) → Text → Text → Bool
unfolding mention_from is_boundary
contains_mention lower hay [] = false
contains_mention lower hay (c ∷ cs) =
    mention_from (suc (length (lower hay))) (lower hay) (lower (c ∷ cs)) 0
