-- ===== src/Policy/Decide/Outcome.antt =====
-- Which action `decide` takes, and what it reports, in terms of what the event says.
use mathlib.Core.List.{Memᴰ}
use mathlib.Core.Logic.{◌↔◌}
use network_self_md.Prelude.{◌≡◌, refl, Bool, true, false, List, [], ◌∷◌, arith, Text}
use network_self_md.Policy.Types.{Event, act, ignore, Config, Runtime}
use network_self_md.Policy.Decide.{Self, resolve_decision, is_nonempty, decide}
use network_self_md.Policy.Decide.Meaning.{IsAddressed, IsTrusted, is_trusted_iff, addressed_iff}
use network_self_md.Policy.Decide.Interests.{Hits, matched_sound, matched_complete}

-- An interest of the agent that stands in the event's text.
abbrev pub MatchesInterest : Runtime → Config → Event → Text → Type 0
MatchesInterest rt config ev kw = Hits rt (rt.decode ev.plaintext) config.interests kw

-- The table of `resolveDecision`.
resolve_table :
    (addressed trusted hit : Bool)
    → (((resolve_decision addressed trusted hit).0 ≡ act) ↔ ((addressed ≡ true) × (trusted ≡ true)))
      × (((resolve_decision addressed trusted hit).0 ≡ ignore)
          ↔ ((addressed ≡ false) × (hit ≡ false)))
unfolding resolve_decision
resolve_table addressed trusted hit = ground arith

nonempty_of_mem : (kw : Text) (kws : List Text) → Memᴰ kw kws → is_nonempty kws ≡ true
nonempty_of_mem kw [] m = elim m [ ]
nonempty_of_mem kw (x ∷ kws) m = refl

mem_of_nonempty : (kws : List Text) → is_nonempty kws ≡ true → (kw : Text) × Memᴰ kw kws
mem_of_nonempty [] h = cc
mem_of_nonempty (x ∷ kws) h = (x, Memᴰ.head refl)

not_true : (b : Bool) → ¬ (b ≡ true) → b ≡ false
not_true true h = absurd (h refl)
not_true false h = refl

module _ (rt : Runtime) (self : Self) (config : Config) (ev : Event) where
  IsAddressed-decide :
      ((decide rt self config ev).addressed_to_me ≡ true) ↔ IsAddressed rt self config ev
  unfolding decide
  IsAddressed-decide = addressed_iff rt (rt.decode ev.plaintext) ev.kind _ _ _ _

  IsTrusted-decide : ((decide rt self config ev).sender_trusted ≡ true) ↔ IsTrusted config ev
  unfolding decide
  IsTrusted-decide = is_trusted_iff config.trusted_fingerprints ev.sender_fingerprint

  matched-decide :
      (kw : Text)
      → Memᴰ kw (decide rt self config ev).matched_interests ↔ MatchesInterest rt config ev kw
  unfolding decide
  matched-decide kw = (matched_sound rt _ _ kw, matched_complete rt _ _ kw)

  action_table :
      let d = decide rt self config ev in
      ((d.action ≡ act) ↔ ((d.addressed_to_me ≡ true) × (d.sender_trusted ≡ true)))
      × ((d.action ≡ ignore)
          ↔ ((d.addressed_to_me ≡ false) × (is_nonempty d.matched_interests ≡ false)))
  unfolding decide
  action_table = resolve_table _ _ _

  -- The agent acts on an event exactly when it is addressed and its sender is trusted.
  pub decide-act_iff :
      ((decide rt self config ev).action ≡ act)
      ↔ (IsAddressed rt self config ev × IsTrusted config ev)
  decide-act_iff = (
    λ h. let (a, t) = action_table.0.0 h in (IsAddressed-decide.0 a, IsTrusted-decide.0 t),
    λ h. action_table.0.1 (IsAddressed-decide.1 h.0, IsTrusted-decide.1 h.1),
  )

  no_interest :
      (is_nonempty (decide rt self config ev).matched_interests ≡ false)
      → (kw : Text) → ¬ MatchesInterest rt config ev kw
  no_interest e kw h = absurd (cc (nonempty_of_mem kw _ ((matched-decide kw).1 h)))

  -- It ignores an event exactly when it is not addressed and the text holds no interest of the
  -- agent's, whether the sender is trusted or not.
  pub decide-ignore_iff :
      ((decide rt self config ev).action ≡ ignore)
      ↔ ((¬ IsAddressed rt self config ev) × ((kw : Text) → ¬ MatchesInterest rt config ev kw))
  decide-ignore_iff = (
    λ h.
        let (a, n) = action_table.1.0 h in
        (λ addressed. absurd (cc (IsAddressed-decide.1 addressed)), no_interest n),
    λ h. action_table.1.1 (
      not_true _ (λ a. h.0 (IsAddressed-decide.0 a)),
      not_true _ (λ n. let (kw, m) = mem_of_nonempty _ n in h.1 kw ((matched-decide kw).0 m)),
    ),
  )
