-- ===== src/Policy/Decide/Meaning.antt =====
-- When an event is addressed to the agent, and when its sender is trusted.
use mathlib.Core.List.{Memᴰ}
use mathlib.Core.Option.{some-injective}
use network_self_md.Prelude.{
  ℕ, max, ◌≡◌, ◌≢◌, refl, subst, sym, ◌⊎◌, inl, inr, ◌↔◌, Bool, true, false, List, [], ◌∷◌, Option,
  none, some, arith, Text, take, any, list_eq, list_eq_iff, list_eq_self, Bool-cases,
}
use network_self_md.Policy.Types.{Kind, group, dm, Event, Config, Runtime}
use network_self_md.Policy.Mention.{contains_mention}
use network_self_md.Policy.Mention.Search.{Occurs, contains_mention_iff}
use network_self_md.Policy.Decide.{
  Self, or_else, mentions_name, mentions_self, compute_addressed_to_me, is_trusted,
}

-- `@name` stands in the text as a whole word, whatever the case of either.
abbrev pub Mentions : (Text → Text) → Text → Text → Type 0
Mentions lower text name = (name ≢ []) × ((p : ℕ) × Occurs (lower text) (lower name) p)

-- The text names the agent: by the first `n` characters of its fingerprint, or by its display name.
pub record NamesSelf (lower : Text → Text) (fingerprint name : Option Text) (n : ℕ) (text fp : Text)
    : Type 0 where
  pub loaded : fingerprint ≡ some fp
  pub usable : fp ≢ []
  pub named :
      Mentions lower text (take (max 1 n) fp)
      ⊎ ((own : Text) × (name ≡ some own) × Mentions lower text own)

abbrev pub SelfNamed : Runtime → Option Text → Option Text → Option Text → ℕ → Type 0
SelfNamed rt decoded fingerprint name n =
    (text : Text) × (decoded ≡ some text)
    × ((fp : Text) × NamesSelf rt.lower fingerprint name n text fp)

-- A direct message; any group message where no mention is required; or a mention.
abbrev pub IsAddressed : Runtime → Self → Config → Event → Type 0
IsAddressed rt self config ev =
    (ev.kind ≡ dm)
    ⊎ ((config.require_mention ≡ some false)
        ⊎ SelfNamed rt (rt.decode ev.plaintext) self.fingerprint self.display_name
            (or_else config.mention_prefix_len 8))

abbrev pub IsTrusted : Config → Event → Type 0
IsTrusted config ev =
    (fps : List Text) × (config.trusted_fingerprints ≡ some fps) × Memᴰ ev.sender_fingerprint fps

any-Memᴰ : (fps : List Text) (fp : Text) → any (λ t. list_eq t fp) fps ≡ true → Memᴰ fp fps
any-Memᴰ [] fp h = cc
any-Memᴰ (t ∷ fps) fp h = elim (Bool-cases (list_eq t fp)) [
  | inl e ↦ Memᴰ.head (sym ((list_eq_iff t fp).0 e))
  | inr e ↦ Memᴰ.tail (any-Memᴰ fps fp (ground arith))
]

Memᴰ-any : (fps : List Text) (fp : Text) → Memᴰ fp fps → any (λ t. list_eq t fp) fps ≡ true
Memᴰ-any [] fp m = elim m [ ]
Memᴰ-any (t ∷ fps) fp (Memᴰ.head e) = rw (← e, list_eq_self)
Memᴰ-any (t ∷ fps) fp (Memᴰ.tail m) = ground (arith, Memᴰ-any fps fp m)

pub is_trusted_iff :
    (trusted : Option (List Text)) (fp : Text)
    → (is_trusted trusted fp ≡ true) ↔ ((fps : List Text) × (trusted ≡ some fps) × Memᴰ fp fps)
unfolding is_trusted
is_trusted_iff none fp = (λ h. cc, λ h. absurd (cc h.1))
is_trusted_iff (some fps) fp = (
  λ h. (fps, refl, any-Memᴰ fps fp h),
  λ h.
      subst (λ l. any (λ t. list_eq t fp) l ≡ true) (sym (some-injective fps h.0 h.1))
        (Memᴰ-any h.0 fp h.2),
)

mentions_name_iff :
    (lower : Text → Text) (text : Text) (name : Option Text)
    → (mentions_name lower text name ≡ true)
      ↔ ((own : Text) × (name ≡ some own) × Mentions lower text own)
unfolding mentions_name
mentions_name_iff lower text none = (λ h. cc, λ h. absurd (cc h.1))
mentions_name_iff lower text (some own) = (
  λ h. (own, refl, (contains_mention_iff lower text own).0 h),
  λ h.
      (contains_mention_iff lower text own).1
        (subst (Mentions lower text) (sym (some-injective own h.0 h.1)) h.2),
)

mentions_self_sound :
    (rt : Runtime) (decoded fingerprint name : Option Text) (n : ℕ)
    → mentions_self rt decoded fingerprint name n ≡ true
    → SelfNamed rt decoded fingerprint name n
unfolding mentions_self
mentions_self_sound rt none fp name n h = cc
mentions_self_sound rt (some text) none name n h = cc
mentions_self_sound rt (some text) (some []) name n h = cc
mentions_self_sound rt (some text) (some (c ∷ cs)) name n h =
    (text, refl, (c ∷ cs, record { loaded = refl; usable = λ e. cc; named = ways }))
  where
    ways :
        Mentions rt.lower text (take (max 1 n) (c ∷ cs))
        ⊎ ((own : Text) × (name ≡ some own) × Mentions rt.lower text own)
    ways = elim (Bool-cases (contains_mention rt.lower text (take (max 1 n) (c ∷ cs)))) [
      | inl e ↦ inl ((contains_mention_iff rt.lower text _).0 e)
      | inr e ↦ inr ((mentions_name_iff rt.lower text name).0 (ground arith))
    ]

-- The test that `computeAddressedToMe` ends with, from either way of naming the agent.
Mentions-of_named :
    (rt : Runtime) (text fp : Text) (name : Option Text) (n : ℕ)
    → fp ≢ []
    → (Mentions rt.lower text (take (max 1 n) fp)
        ⊎ ((own : Text) × (name ≡ some own) × Mentions rt.lower text own))
    → mentions_self rt (some text) (some fp) name n ≡ true
unfolding mentions_self
Mentions-of_named rt text [] name n h w = absurd (h refl)
Mentions-of_named rt text (c ∷ cs) name n h (inl m) =
    let hit = (contains_mention_iff rt.lower text (take (max 1 n) (c ∷ cs))).1 m in ground arith
Mentions-of_named rt text (c ∷ cs) name n h (inr m) =
    let hit = (mentions_name_iff rt.lower text name).1 m in ground arith

mentions_self_complete :
    (rt : Runtime) (decoded fingerprint name : Option Text) (n : ℕ)
    → SelfNamed rt decoded fingerprint name n
    → mentions_self rt decoded fingerprint name n ≡ true
mentions_self_complete rt decoded fingerprint name n (text, readable, (fp, who)) =
    rw (readable, who.loaded) (Mentions-of_named rt text fp name n who.usable who.named)

pub addressed_iff :
    (rt : Runtime) (text : Option Text) (kind : Kind) (fp name : Option Text)
    (require : Option Bool) (n : ℕ)
    → (compute_addressed_to_me rt text kind fp name (or_else require true) n ≡ true)
      ↔ ((kind ≡ dm) ⊎ ((require ≡ some false) ⊎ SelfNamed rt text fp name n))
unfolding compute_addressed_to_me
addressed_iff rt text dm fp name require n = (λ h. inl refl, λ h. refl)
addressed_iff rt text group fp name (some false) n = (λ h. inr (inl refl), λ h. refl)
addressed_iff rt text group fp name (some true) n = (
  λ h. inr (inr (mentions_self_sound rt text fp name n h)),
  λ h. elim h [
    | inl e ↦ cc
    | inr (inl e) ↦ cc
    | inr (inr m) ↦ mentions_self_complete rt text fp name n m
  ],
)
addressed_iff rt text group fp name none n = (
  λ h. inr (inr (mentions_self_sound rt text fp name n h)),
  λ h. elim h [
    | inl e ↦ cc
    | inr (inl e) ↦ cc
    | inr (inr m) ↦ mentions_self_complete rt text fp name n m
  ],
)
