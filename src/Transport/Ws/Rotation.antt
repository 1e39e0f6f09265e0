-- ===== src/Transport/Ws/Rotation.antt =====
-- src/services/blockchain/transports/ws/endpoint_manager.rs, `rotate_url`: which URLs are left, and when
-- the rotation succeeds.
use openzeppelin_monitor.Prelude.{
  ℕ, zero, suc, ◌≡◌, ◌≢◌, ◌<◌, refl, sym, ap, ◌∙◌, subst, false, List, [], ◌∷◌, ◌++◌, some, String,
  str_eq, eq_iff, arith, Bool-cases, Option-cases, inl, inr, All, length,
}
use mathlib.Core.List.{Perm, append_assoc, perm_append_singleton}
use mathlib.Core.List.Perm
use openzeppelin_monitor.Prelude.Result.{Result, ok, err}
use openzeppelin_monitor.Transport.{RotatingTransport, Endpoints}
use openzeppelin_monitor.Transport.Ws.{
  RotateError, no_fallback, failed_to_reconnect, update_failed, take_other, switch, after_connect,
  attempt, rotate_url,
}

take_other-perm :
    (active : String) (us : List String) (u : String) (rest : List String)
    → take_other active us ≡ some (u, rest)
    → (str_eq u active ≡ false) × Perm (u ∷ rest) us
unfolding take_other
take_other-perm active [] u rest e = cc
take_other-perm active (v ∷ us) u rest e = elim (Bool-cases (str_eq v active)) [
  | inr other ↦
      let same : (v, us) ≡ (u, rest) = ground (arith, e, other) in
      subst
        (λ (p : String × List String). (str_eq (p.0) active ≡ false) × Perm (p.0 ∷ p.1) (v ∷ us))
        same (other, Perm.refl (v ∷ us))
  | inl active_one ↦ elim (Option-cases (take_other active us)) [
    | inl none_left ↦ absurd (ground (arith, e, active_one, none_left))
    | inr (found, there) ↦
        let same : (found.0, v ∷ found.1) ≡ (u, rest) = ground (arith, e, active_one, there) in
        let (other, perm) = take_other-perm active us found.0 found.1 there in
        subst
          (λ (p : String × List String). (str_eq (p.0) active ≡ false) × Perm (p.0 ∷ p.1) (v ∷ us))
          same (other, Perm.trans (Perm.swap v found.0 found.1) (Perm.cons v perm))
  ]
]

module _ {W : Type 0} where
  -- What a rotation leaves of the URLs. Only when the client cannot be updated is one lost.
  abbrev pub Keeps : Endpoints → Result RotateError (Unit {0}) × (Endpoints × W) → Type 0
  Keeps m (ok _, (m', w)) =
      (m'.active_url ≢ m.active_url)
      × Perm (m'.active_url ∷ m'.fallback_urls) (m.active_url ∷ m.fallback_urls)
  Keeps m (err (update_failed _), (m', w)) =
      (m'.active_url ≡ m.active_url)
      × ((lost : String) × Perm (lost ∷ m'.fallback_urls) m.fallback_urls)
  Keeps m (err _, (m', w)) = (m'.active_url ≡ m.active_url) × Perm m'.fallback_urls m.fallback_urls

  Keeps-of_perm :
      (m : Endpoints) (urls : List String)
      → Perm urls m.fallback_urls
      → (r : Result RotateError (Unit {0}) × (Endpoints × W))
      → Keeps (record m { fallback_urls = urls }) r
      → Keeps m r
  Keeps-of_perm m urls p (ok _, (m', w)) (e, q) = (e, Perm.trans q (Perm.cons m.active_url p))
  Keeps-of_perm m urls p (err (update_failed _), (m', w)) (e, (lost, q)) =
      (e, (lost, Perm.trans q p))
  Keeps-of_perm m urls p (err no_fallback, (m', w)) (e, q) = (e, Perm.trans q p)
  Keeps-of_perm m urls p (err failed_to_reconnect, (m', w)) (e, q) = (e, Perm.trans q p)

module _ {W : Type 0} (transport : RotatingTransport W) where
  switch-Keeps :
      (m : Endpoints) (u : String) (rest : List String)
      → str_eq u m.active_url ≡ false
      → Perm (u ∷ rest) m.fallback_urls
      → (r : Result String (Unit {0}) × W) → Keeps m (switch transport u rest m r)
  switch-Keeps m u rest other p (err e, w) = (refl, (u, p))
  switch-Keeps m u rest other p (ok _, w) = (
    (λ same. ground (arith, (eq_iff u m.active_url).1 same, other)),
    Perm.trans (perm_append_singleton m.active_url (u ∷ rest)) (Perm.cons m.active_url p),
  )

  attempt-Keeps :
      (k : Endpoints → W → Result RotateError (Unit {0}) × (Endpoints × W))
      → ((m : Endpoints) (w : W) → Keeps m (k m w))
      → (m : Endpoints) (u : String) (rest : List String) → str_eq u m.active_url ≡ false
      → Perm (u ∷ rest) m.fallback_urls
      → (r : Result String (Unit {0}) × W) → Keeps m (after_connect transport k u rest m r)
  attempt-Keeps k keeps m u rest other p (ok _, w) =
      switch-Keeps m u rest other p (transport.update_client u w)
  attempt-Keeps k keeps m u rest other p (err e, w) =
      Keeps-of_perm m (rest ++ u ∷ []) (Perm.trans (perm_append_singleton u rest) p) _
        (keeps (record m { fallback_urls = rest ++ u ∷ [] }) w)

  -- A rotation that succeeds makes another URL the active one and keeps all URLs; one that fails keeps
  -- the active URL and all fallbacks, but for the one that connected when the client could not be
  -- updated, which is lost.
  pub rotate_url-Keeps :
      (attempts : ℕ) (m : Endpoints) (w : W) → Keeps m (rotate_url transport attempts m w)
  unfolding rotate_url
  rotate_url-Keeps zero m w = (refl, Perm.refl m.fallback_urls)
  rotate_url-Keeps (suc attempts) m w =
      elim (Option-cases (take_other m.active_url m.fallback_urls)) [
        | inl none_left ↦ rw none_left (refl, Perm.refl m.fallback_urls)
        | inr ((u, rest), found) ↦
            let (other, p) = take_other-perm m.active_url m.fallback_urls u rest found in
            subst (λ t. Keeps m (attempt transport (rotate_url transport attempts) m w t))
              (sym found)
              (attempt-Keeps (rotate_url transport attempts) (rotate_url-Keeps attempts) m u rest
                other p (transport.try_connect u w))
      ]

  -- A fallback that does not connect, and one that does.
  abbrev pub IsDown : String → Type 0
  IsDown url = (w : W) → (e : String) × ((transport.try_connect url w).0 ≡ err e)

  pub record IsUp (url : String) : Type 0 where
    pub connects : (w : W) → (transport.try_connect url w).0 ≡ ok tt
    pub updates : (w : W) → (transport.update_client url w).0 ≡ ok tt

  take_other_head :
      (active u : String) (us : List String)
      → str_eq u active ≡ false
      → take_other active (u ∷ us) ≡ some (u, us)
  unfolding take_other
  take_other_head active u us h = rw (h, take_other) refl

  -- If the fallbacks before a good one do not connect, the good one does and is updated to, and
  -- none of them is the active URL, then a rotation with an attempt for each of them succeeds, and
  -- the good one is active.
  pub rotate_url_reaches :
      (attempts : ℕ) (active : String) (before : List String) (good : String) (after : List String)
      (w : W)
      → length before < attempts
      → All (λ u. str_eq u active ≡ false) (before ++ good ∷ [])
      → All IsDown before
      → IsUp good
      → let r =
          rotate_url transport attempts
            (record { active_url = active; fallback_urls = before ++ good ∷ after })
            w in
        (r.0 ≡ ok tt) × (r.1.0.active_url ≡ good)
  unfolding rotate_url
  rotate_url_reaches zero active before good after w enough others down up =
      absurd (omega (arith, enough))
  rotate_url_reaches (suc n) active [] good after w enough (other, _) down up =
      let m : Endpoints = record { active_url = active; fallback_urls = good ∷ after } in
      let connected = transport.try_connect good w in
      let updated = transport.update_client good connected.1 in
      subst
        (λ (r : Result RotateError (Unit {0}) × (Endpoints × W)).
          (r.0 ≡ ok tt) × (r.1.0.active_url ≡ good))
        (sym (
          ap (λ t. attempt transport (rotate_url transport n) m w t)
            (take_other_head active good after other)
          ∙ (ap
                (λ r.
                  after_connect transport (rotate_url transport n) good after m (r, connected.1))
                (up.connects w)
              ∙ ap (λ r. switch transport good after m (r, updated.1)) (up.updates connected.1))))
        (refl, refl)
  rotate_url_reaches (suc n) active (b ∷ bs) good after w enough (other, others) (is_down, down)
        up =
      let m : Endpoints = record { active_url = active; fallback_urls = b ∷ bs ++ good ∷ after } in
      let connected = transport.try_connect b w in
      subst
        (λ (r : Result RotateError (Unit {0}) × (Endpoints × W)).
          (r.0 ≡ ok tt) × (r.1.0.active_url ≡ good))
        (sym (
          ap (λ t. attempt transport (rotate_url transport n) m w t)
            (take_other_head active b (bs ++ good ∷ after) other)
          ∙ (ap
                (λ r.
                  after_connect transport (rotate_url transport n) b (bs ++ good ∷ after) m
                    (r, connected.1))
                (is_down w).1
              ∙ ap (λ us. rotate_url transport n (record m { fallback_urls = us }) connected.1)
                  (append_assoc bs (good ∷ after) (b ∷ [])))))
        (rotate_url_reaches n active bs good (after ++ b ∷ []) connected.1 (omega (arith, enough))
          others down up)
