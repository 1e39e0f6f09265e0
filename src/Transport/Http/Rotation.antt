-- ===== src/Transport/Http/Rotation.antt =====
-- src/services/blockchain/transports/http/endpoint_manager.rs, `try_rotate_url`: what it leaves of
-- the URLs.
use openzeppelin_monitor.Prelude.{
  ◌≡◌, ◌≢◌, refl, ap, subst, Bool, true, false, not, List, [], ◌∷◌, some, String, str_eq, eq_iff,
  filter, find, any, arith, Bool-cases, Option-cases, inl, inr,
}
use mathlib.Core.List.{Perm, perm_append_singleton}
use mathlib.Core.List.Perm
use text.Mathlib.TextPositions.{eq_refl}
use openzeppelin_monitor.Prelude.Result.{Result, ok, err}
use openzeppelin_monitor.Transport.{RotatingTransport, Endpoints}
use openzeppelin_monitor.Transport.Http.{RotationError, switch, connect, try_rotate_url}

-- No URL stands twice in the list.
abbrev pub IsUnique : List String → Type 0
IsUnique [] = Unit
IsUnique (x ∷ xs) = (any (λ u. str_eq u x) xs ≡ false) × IsUnique xs

pub filter_absent :
    (y : String) (xs : List String)
    → any (λ u. str_eq u y) xs ≡ false
    → filter (λ u. not (str_eq u y)) xs ≡ xs
filter_absent y [] h = refl
filter_absent y (x ∷ xs) h = ground (arith, filter_absent y xs, h)

-- Taking a URL of a list without repetitions to the front.
perm_to_front :
    (p : String → Bool) (xs : List String) (y : String)
    → IsUnique xs
    → find p xs ≡ some y
    → (p y ≡ true) × Perm (y ∷ filter (λ u. not (str_eq u y)) xs) xs
perm_to_front p [] y unique found = cc
perm_to_front p (x ∷ xs) y (fresh, unique) found = elim (Bool-cases (p x)) [
  | inl e ↦
      let same : x ≡ y = ground (arith, found, e) in
      subst (λ z. (p z ≡ true) × Perm (z ∷ filter (λ u. not (str_eq u z)) (x ∷ xs)) (x ∷ xs)) same
        (e, rw (eq_refl x, filter_absent x xs fresh) (Perm.refl (x ∷ xs)))
  | inr e ↦
      let (passes, perm) = perm_to_front p xs y unique (ground (arith, found, e)) in
      rw (distinct e passes) (passes, Perm.trans (Perm.swap x y _) (Perm.cons x perm))
]
  where
    distinct : p x ≡ false → p y ≡ true → str_eq x y ≡ false
    distinct e passes = elim (Bool-cases (str_eq x y)) [
      | inl same ↦ absurd (ground (arith, ap p ((eq_iff x y).0 same), e, passes))
      | inr other ↦ other
    ]

module _ {W : Type 0} (transport : RotatingTransport W) where
  -- What a rotation leaves: after an error the endpoints are unchanged; otherwise the new URL is
  -- active, is not the old one, and all URLs are still there.
  abbrev pub Keeps : Endpoints → Result RotationError String × (Endpoints × W) → Type 0
  Keeps m (err _, (m', w)) = m' ≡ m
  Keeps m (ok new_url, (m', w)) =
      (m'.active_url ≡ new_url)
      × (new_url ≢ m.active_url)
      × Perm (m'.active_url ∷ m'.fallback_urls) (m.active_url ∷ m.fallback_urls)

  module _ (m : Endpoints) (unique : IsUnique m.fallback_urls) (new_url : String)
      (found : find (λ u. not (str_eq u m.active_url)) m.fallback_urls ≡ some new_url) where
    switch-Keeps : (r : Result String (Unit {0}) × W) → Keeps m (switch transport new_url m r)
    switch-Keeps (err _, w) = refl
    switch-Keeps (ok _, w) =
        let (other, perm) =
          perm_to_front (λ u. not (str_eq u m.active_url)) m.fallback_urls new_url unique found in
        (
          refl,
          (λ same. ground (arith, (eq_iff new_url m.active_url).1 same, other)),
          Perm.trans (Perm.append_right (m.active_url ∷ []) perm)
              (perm_append_singleton m.active_url m.fallback_urls),
        )

    connect-Keeps : (r : Result String (Unit {0}) × W) → Keeps m (connect transport new_url m r)
    connect-Keeps (err _, w) = refl
    connect-Keeps (ok _, w) = switch-Keeps (transport.update_client new_url w)

  -- Where no fallback stands twice: a rotation that fails leaves the endpoints as they are, and
  -- one that succeeds makes a URL other than the active one active, with the active URL and the
  -- fallbacks the same URLs as before.
  pub try_rotate_url-Keeps :
      (m : Endpoints) (w : W) → IsUnique m.fallback_urls → Keeps m (try_rotate_url transport m w)
  unfolding try_rotate_url
  try_rotate_url-Keeps m w unique =
      elim (Option-cases (find (λ u. not (str_eq u m.active_url)) m.fallback_urls)) [
        | inl none_left ↦ rw none_left refl
        | inr (new_url, found) ↦
            rw found (connect-Keeps m unique new_url found (transport.try_connect new_url w))
      ]
