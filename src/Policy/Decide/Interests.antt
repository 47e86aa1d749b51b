-- ===== src/Policy/Decide/Interests.antt =====
-- When an event matches an interest of the agent.
use mathlib.Core.List.{Memᴰ}
use network_self_md.Prelude.{
  ℕ, ◌≡◌, ◌≢◌, refl, subst, inl, inr, ◌↔◌, true, List, [], ◌∷◌, Option, none, some, arith, Text,
  drop, Bool-cases, Option-cases,
}
use network_self_md.Policy.Types.{Runtime}
use network_self_md.Policy.Mention.{is_prefix, index_of}
use network_self_md.Policy.Mention.Search.{index_of-none, index_of-some}
use network_self_md.Policy.Decide.{includes, interest_hits, compute_matched_interests}

-- An interest that stands somewhere in the text, whatever the case of either.
pub record Hits (rt : Runtime) (decoded : Option Text) (interests : Option (List Text)) (kw : Text)
    : Type 0 where
  pub text : Text
  pub kws : List Text
  pub place : ℕ
  pub readable : decoded ≡ some text
  pub nonempty : text ≢ []
  pub configured : interests ≡ some kws
  pub listed : Memᴰ kw kws
  pub usable : kw ≢ []
  pub found : is_prefix (rt.lower kw) (drop place (rt.lower text)) ≡ true

includes_iff :
    (hay pat : Text) → (includes hay pat ≡ true) ↔ ((p : ℕ) × (is_prefix pat (drop p hay) ≡ true))
unfolding includes
includes_iff hay pat = elim (Option-cases (index_of pat hay 0)) [
  | inl e ↦ (
    λ h. absurd (ground arith),
    λ h. absurd (ground (arith, h.1, index_of-none pat hay 0 h.0 e (omega arith))),
  )
  | inr (at, e) ↦ (λ h. (at, (index_of-some pat hay 0 at e).1), λ h. ground arith)
]

-- An entry of the loop's result, in the words of the loop.
record IsHit (lower : Text → Text) (low : Text) (kws : List Text) (kw : Text) : Type 0 where
  listed : Memᴰ kw kws
  usable : kw ≢ []
  found : includes low (lower kw) ≡ true

IsHit-tail :
    (lower : Text → Text) (low : Text) (kws : List Text) (head kw : Text)
    → IsHit lower low kws kw
    → IsHit lower low (head ∷ kws) kw
IsHit-tail lower low kws head kw h = record {
  listed = Memᴰ.tail h.listed;
  usable = h.usable;
  found = h.found;
}

interest_hits_sound :
    (lower : Text → Text) (low : Text) (kws : List Text) (kw : Text)
    → Memᴰ kw (interest_hits lower low kws)
    → IsHit lower low kws kw
unfolding interest_hits
interest_hits_sound lower low [] kw m = elim m [ ]
interest_hits_sound lower low ([] ∷ kws) kw m =
    IsHit-tail lower low kws [] kw (interest_hits_sound lower low kws kw m)
interest_hits_sound lower low ((c ∷ cs) ∷ kws) kw m =
    elim (Bool-cases (includes low (lower (c ∷ cs)))) [
      | inl e ↦ first (interest_hits_sound lower low kws kw) e (rw e at m)
      | inr e ↦
          IsHit-tail lower low kws (c ∷ cs) kw (interest_hits_sound lower low kws kw (rw e at m))
    ]
  where
    first :
        (Memᴰ kw (interest_hits lower low kws) → IsHit lower low kws kw)
        → includes low (lower (c ∷ cs)) ≡ true
        → Memᴰ kw ((c ∷ cs) ∷ interest_hits lower low kws)
        → IsHit lower low ((c ∷ cs) ∷ kws) kw
    first ih e (Memᴰ.head q) = record {
      listed = Memᴰ.head q;
      usable = rw q (λ z. cc);
      found = rw q e;
    }
    first ih e (Memᴰ.tail t) = IsHit-tail lower low kws (c ∷ cs) kw (ih t)

interest_hits_complete :
    (lower : Text → Text) (low : Text) (kws : List Text) (kw : Text)
    → Memᴰ kw kws
    → kw ≢ []
    → includes low (lower kw) ≡ true
    → Memᴰ kw (interest_hits lower low kws)
unfolding interest_hits
interest_hits_complete lower low [] kw m u f = elim m [ ]
interest_hits_complete lower low ([] ∷ kws) kw (Memᴰ.head q) u f = absurd (u q)
interest_hits_complete lower low ([] ∷ kws) kw (Memᴰ.tail m) u f =
    interest_hits_complete lower low kws kw m u f
interest_hits_complete lower low ((c ∷ cs) ∷ kws) kw (Memᴰ.head q) u f =
    let e : includes low (lower (c ∷ cs)) ≡ true = subst (λ k. includes low (lower k) ≡ true) q f in
    rw e (Memᴰ.head q)
interest_hits_complete lower low ((c ∷ cs) ∷ kws) kw (Memᴰ.tail m) u f =
    let later = interest_hits_complete lower low kws kw m u f in
    elim (Bool-cases (includes low (lower (c ∷ cs)))) [
      | inl e ↦ rw e (Memᴰ.tail later)
      | inr e ↦ rw e later
    ]

pub matched_sound :
    (rt : Runtime) (decoded : Option Text) (interests : Option (List Text)) (kw : Text)
    → Memᴰ kw (compute_matched_interests rt decoded interests)
    → Hits rt decoded interests kw
unfolding compute_matched_interests
matched_sound rt none kws kw m = elim m [ ]
matched_sound rt (some []) kws kw m = elim m [ ]
matched_sound rt (some (c ∷ cs)) none kw m = elim m [ ]
matched_sound rt (some (c ∷ cs)) (some kws) kw m =
    let h = interest_hits_sound rt.lower (rt.lower (c ∷ cs)) kws kw m in
    let (p, f) = (includes_iff (rt.lower (c ∷ cs)) (rt.lower kw)).0 h.found in
    record {
      text = c ∷ cs;
      kws = kws;
      place = p;
      readable = refl;
      nonempty = λ e. cc;
      configured = refl;
      listed = h.listed;
      usable = h.usable;
      found = f;
    }

matched_of_text :
    (rt : Runtime) (text : Text) (kws : List Text) (kw : Text)
    → text ≢ []
    → Memᴰ kw kws
    → kw ≢ []
    → includes (rt.lower text) (rt.lower kw) ≡ true
    → Memᴰ kw (compute_matched_interests rt (some text) (some kws))
unfolding compute_matched_interests
matched_of_text rt [] kws kw n m u f = absurd (n refl)
matched_of_text rt (c ∷ cs) kws kw n m u f =
    interest_hits_complete rt.lower (rt.lower (c ∷ cs)) kws kw m u f

pub matched_complete :
    (rt : Runtime) (decoded : Option Text) (interests : Option (List Text)) (kw : Text)
    → Hits rt decoded interests kw
    → Memᴰ kw (compute_matched_interests rt decoded interests)
matched_complete rt decoded interests kw h =
    rw (h.readable, h.configured)
      (matched_of_text rt h.text h.kws kw h.nonempty h.listed h.usable
        ((includes_iff (rt.lower h.text) (rt.lower kw)).1 (h.place, h.found)))
