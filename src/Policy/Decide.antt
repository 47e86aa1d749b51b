-- ===== src/Policy/Decide.antt =====
-- `AgentPolicy.decide` of packages/node/src/policy/agent-policy.ts and the functions that it calls.
pub mod Meaning
pub mod Interests
pub mod Outcome
use network_self_md.Prelude.{
  ℕ, max, Bool, true, false, ◌&&◌, List, [], ◌∷◌, Option, none, some, Text, list_eq, take, any,
  if◌then◌else◌,
}
use network_self_md.Policy.Types.{
  Kind, group, dm, Event, Action, act, ask, ignore, Reason, not_addressed, addressed_and_trusted,
  addressed_unknown_sender, addressed_matches_interest, trusted_interest_hit, interest_hit,
  trusted_no_signal, Decision, Config, Runtime,
}
use network_self_md.Policy.Mention.{index_of, contains_mention}

-- What `decide` reads of the agent: its identity, where one is loaded.
pub record Self : Type 0 where
  pub fingerprint : Option Text
  pub display_name : Option Text

-- The code's `??` for a field that may be missing.
abbrev pub or_else {ℓ} : {A : Type ℓ} → Option A → A → A
or_else none d = d
or_else (some a) d = a

-- `s.includes(pattern)`.
pub includes : Text → Text → Bool
includes hay pat = elim (index_of pat hay 0) [ none ↦ false | some at ↦ true ]

pub mentions_name : (Text → Text) → Text → Option Text → Bool
unfolding contains_mention
mentions_name lower text none = false
mentions_name lower text (some name) = contains_mention lower text name

pub mentions_self : Runtime → Option Text → Option Text → Option Text → ℕ → Bool
unfolding contains_mention mentions_name
mentions_self rt none fp name n = false
mentions_self rt (some text) none name n = false
mentions_self rt (some text) (some []) name n = false
mentions_self rt (some text) (some (c ∷ cs)) name n =
    if contains_mention rt.lower text (take (max 1 n) (c ∷ cs))
    then true
    else mentions_name rt.lower text name

pub compute_addressed_to_me :
    Runtime → Option Text → Kind → Option Text → Option Text → Bool → ℕ → Bool
unfolding mentions_self
compute_addressed_to_me rt text dm fp name require n = true
compute_addressed_to_me rt text group fp name require n =
    if require then mentions_self rt text fp name n else true

pub interest_hits : (Text → Text) → Text → List Text → List Text
unfolding includes
interest_hits lower low [] = []
interest_hits lower low ([] ∷ kws) = interest_hits lower low kws
interest_hits lower low ((c ∷ cs) ∷ kws) =
    let rest = interest_hits lower low kws in
    if includes low (lower (c ∷ cs)) then (c ∷ cs) ∷ rest else rest

pub compute_matched_interests : Runtime → Option Text → Option (List Text) → List Text
unfolding interest_hits
compute_matched_interests rt none kws = []
compute_matched_interests rt (some []) kws = []
compute_matched_interests rt (some (c ∷ cs)) none = []
compute_matched_interests rt (some (c ∷ cs)) (some kws) =
    interest_hits rt.lower (rt.lower (c ∷ cs)) kws

pub resolve_decision : Bool → Bool → Bool → Action × Reason
resolve_decision addressed trusted hit =
    if addressed && trusted
    then (act, addressed_and_trusted)
    else if addressed && hit
    then (ask, addressed_matches_interest)
    else if addressed
    then (ask, addressed_unknown_sender)
    else if trusted && hit
    then (ask, trusted_interest_hit)
    else if hit
    then (ask, interest_hit)
    else if trusted
    then (ignore, trusted_no_signal)
    else (ignore, not_addressed)

abbrev pub is_nonempty : List Text → Bool
is_nonempty [] = false
is_nonempty (x ∷ xs) = true

-- `trustedFingerprints?.includes(fp) ?? false`.
pub is_trusted : Option (List Text) → Text → Bool
is_trusted none fp = false
is_trusted (some fps) fp = any (λ t. list_eq t fp) fps

unfoldable pub decide : Runtime → Self → Config → Event → Decision
unfolding compute_addressed_to_me compute_matched_interests resolve_decision is_trusted
decide rt self config ev =
    let text = rt.decode ev.plaintext in
    let addressed =
      compute_addressed_to_me rt text ev.kind self.fingerprint self.display_name
        (or_else config.require_mention true) (or_else config.mention_prefix_len 8) in
    let trusted = is_trusted config.trusted_fingerprints ev.sender_fingerprint in
    let hits = compute_matched_interests rt text config.interests in
    let (action, reason) = resolve_decision addressed trusted (is_nonempty hits) in
    record {
      message_id = ev.message_id;
      action = action;
      reason = reason;
      matched_interests = hits;
      addressed_to_me = addressed;
      sender_trusted = trusted;
    }
