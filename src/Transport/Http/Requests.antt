-- ===== src/Transport/Http/Requests.antt =====
-- src/services/blockchain/transports/http/endpoint_manager.rs, `send_raw_request`: when the loop
-- over the endpoints ends.
use openzeppelin_monitor.Prelude.{
  ℕ, zero, suc, ◌+◌, ◌≡◌, refl, sym, ap, ◌∙◌, subst, Bool, false, ◌||◌, List, [], ◌∷◌, ◌++◌, Option,
  none, some, String, str_eq, eq_iff, any, arith, Bool-cases, inl, inr, All, All-append, length,
}
use mathlib.Core.List.{append_assoc}
use text.Mathlib.TextPositions.{eq_refl}
use openzeppelin_monitor.Prelude.Result.{ok}
use openzeppelin_monitor.Transport.{RotatingTransport, Endpoints}
use openzeppelin_monitor.Transport.Http.{
  RotationError, TransportError, AttemptOutcome, verdict, return, rotate_or, rotated, switch,
  connect, try_rotate_url, after_rotation, round, send_raw_request,
}
use openzeppelin_monitor.Transport.Http.Rotation.{IsUnique, filter_absent}

str_eq_comm : (s t : String) → str_eq s t ≡ str_eq t s
str_eq_comm s t = elim (Bool-cases (str_eq s t)) [
  | inl e ↦ e ∙ sym ((eq_iff t s).1 (sym ((eq_iff s t).0 e)))
  | inr e ↦ elim (Bool-cases (str_eq t s)) [
    | inl f ↦ (eq_iff s t).1 (sym ((eq_iff t s).0 f)) ∙ sym f
    | inr f ↦ e ∙ sym f
  ]
]

any-append : (p : String → Bool) (xs ys : List String) → any p (xs ++ ys) ≡ any p xs || any p ys
any-append p [] ys = refl
any-append p (x ∷ xs) ys = ground (arith, any-append p xs ys)

IsUnique-push_back :
    (xs : List String) (a : String)
    → IsUnique xs
    → any (λ u. str_eq u a) xs ≡ false
    → IsUnique (xs ++ a ∷ [])
IsUnique-push_back [] a unique fresh = (refl, tt)
IsUnique-push_back (x ∷ xs) a (new, unique) fresh = (
  any-append (λ u. str_eq u x) xs (a ∷ []) ∙ ground (arith, new, str_eq_comm a x, fresh),
  IsUnique-push_back xs a unique (ground (arith, fresh)),
)

-- The result, without the state that the loop ends with.
abbrev pub answer {ℓ κ} : {A : Type ℓ} {B : Type κ} → Option (A × B) → Option A
answer none = none
answer (some r) = some (r.0)

abbrev pub endpoints : String → List String → Endpoints
endpoints active fallbacks = record { active_url = active; fallback_urls = fallbacks }

module _ {W V : Type 0} (transport : RotatingTransport W)
    (try_request_on_url : String → W → AttemptOutcome V × W) where
  -- A URL that can be rotated to.
  pub record IsOpen (url : String) : Type 0 where
    pub connects : (w : W) → (transport.try_connect url w).0 ≡ ok tt
    pub updates : (w : W) → (transport.update_client url w).0 ≡ ok tt

  -- A URL whose outcomes all make the loop rotate: network errors and the rotating status.
  pub record Refuses (url : String) : Type 0 where
    pub error : W → RotationError → TransportError
    pub refuses : (w : W) → verdict url (try_request_on_url url w).0 ≡ rotate_or (error w)

  try_rotate_url_next :
      (active u : String) (us : List String) (w : W)
      → IsUnique (active ∷ u ∷ us)
      → IsOpen u
      → (w' : W) × (try_rotate_url transport (endpoints active (u ∷ us)) w
          ≡ (ok u, (endpoints u (us ++ active ∷ []), w')))
  unfolding try_rotate_url
  try_rotate_url_next active u us w (new, (fresh, unique)) reachable =
      let m = endpoints active (u ∷ us) in
      let connected = transport.try_connect u w in
      let updated = transport.update_client u connected.1 in
      let other : str_eq u active ≡ false = ground (arith, new) in
      (
        updated.1,
        rw other (
            ap (λ r. connect transport u m (r, connected.1)) (reachable.connects w)
            ∙ (ap (λ r. switch transport u m (r, updated.1)) (reachable.updates connected.1)
                ∙ ap (λ m'. (ok u, (m', updated.1))) kept)),
      )
    where
      kept : rotated transport u (endpoints active (u ∷ us)) ≡ endpoints u (us ++ active ∷ [])
      kept = rw (eq_refl u, filter_absent u us fresh) refl

  -- A round on a URL that refuses goes on with the next one; the old one is then the last.
  next_round :
      (fuel : ℕ) (active u : String) (us : List String) (w : W)
      → IsUnique (active ∷ u ∷ us)
      → Refuses active
      → IsOpen u
      → (w' : W) × (send_raw_request transport try_request_on_url
            (suc fuel)
            (endpoints active (u ∷ us))
            w
          ≡ send_raw_request transport try_request_on_url fuel (endpoints u (us ++ active ∷ [])) w')
  unfolding send_raw_request
  next_round fuel active u us w unique refused reachable =
      let attempt = try_request_on_url active w in
      let (w', e) = try_rotate_url_next active u us attempt.1 unique reachable in
      let k = send_raw_request transport try_request_on_url fuel in
      let m = endpoints active (u ∷ us) in
      (
        w',
        ap (λ d. round transport try_request_on_url k m attempt.1 d) (refused.refuses w)
            ∙ ap (λ r. after_rotation transport try_request_on_url k (refused.error w) r) e,
      )

  IsUnique-rotate :
      (active u : String) (us : List String)
      → IsUnique (active ∷ u ∷ us)
      → IsUnique (u ∷ us ++ active ∷ [])
  IsUnique-rotate active u us (new, (fresh, unique)) = (
    any-append (λ v. str_eq v u) us (active ∷ [])
        ∙ ground (arith, fresh, new, str_eq_comm active u),
    IsUnique-push_back us active unique (ground (arith, new)),
  )

  -- No URL stands twice. If the active URL and those before a good one among the fallbacks refuse
  -- every request, the fallbacks up to the good one can be rotated to, and the good one answers
  -- with a value, then the loop returns the value within as many rounds as there are URLs up to
  -- the good one.
  pub send_raw_request_reaches :
      (active : String) (before : List String) (good : String) (after : List String) (w : W) (v : V)
      → IsUnique (active ∷ before ++ good ∷ after)
      → All Refuses (active ∷ before)
      → All IsOpen (before ++ good ∷ [])
      → ((w' : W) → verdict good (try_request_on_url good w').0 ≡ return (ok v))
      → answer (
          send_raw_request transport try_request_on_url
            (length before + 2)
            (endpoints active (before ++ good ∷ after))
            w)
        ≡ some (ok v)
  unfolding send_raw_request
  send_raw_request_reaches active [] good after w v unique (refused, _) (reachable, _) answers =
      let (w', e) = next_round 1 active good after w unique refused reachable in
      ap answer e
      ∙ ap
          (λ d. answer (
            round transport try_request_on_url (send_raw_request transport try_request_on_url 0)
              (endpoints good (after ++ active ∷ [])) (try_request_on_url good w').1 d))
          (answers w')
  send_raw_request_reaches active (b ∷ bs) good after w v unique (refused, more) (reachable, rest)
        answers =
      let (w', e) =
        next_round (length bs + 2) active b (bs ++ good ∷ after) w unique refused reachable in
      let assoc = append_assoc bs (good ∷ after) (active ∷ []) in
      ap answer (
        ap
          (λ n.
            send_raw_request transport try_request_on_url n
              (endpoints active (b ∷ bs ++ good ∷ after)) w)
          rounds
        ∙ (e
            ∙ ap
                (λ fs.
                  send_raw_request transport try_request_on_url (length bs + 2) (endpoints b fs) w')
                assoc))
      ∙ send_raw_request_reaches b bs good (after ++ active ∷ []) w' v
          (subst (λ fs. IsUnique (b ∷ fs)) assoc
            (IsUnique-rotate active b (bs ++ good ∷ after) unique))
          more rest answers
    where
      rounds : suc (length bs) + 2 ≡ suc (length bs + 2)
      rounds = omega arith

  -- If all URLs, at least two and none twice, refuse every request and can be rotated to, then no
  -- number of rounds ends the loop.
  pub send_raw_request_forever :
      (fuel : ℕ) (active u : String) (us : List String) (w : W)
      → IsUnique (active ∷ u ∷ us)
      → All Refuses (active ∷ u ∷ us)
      → All IsOpen (active ∷ u ∷ us)
      → send_raw_request transport try_request_on_url fuel (endpoints active (u ∷ us)) w ≡ none
  unfolding send_raw_request
  send_raw_request_forever zero active u us w unique refused reachable = refl
  send_raw_request_forever (suc fuel) active u [] w unique (r, (s, _)) (o, (p, _)) =
      let (w', e) = next_round fuel active u [] w unique r p in
      e
      ∙ send_raw_request_forever fuel u active [] w' (IsUnique-rotate active u [] unique)
          (s, (r, tt)) (p, (o, tt))
  send_raw_request_forever (suc fuel) active u (v ∷ us) w unique (r, (s, rs)) (o, (p, os)) =
      let (w', e) = next_round fuel active u (v ∷ us) w unique r p in
      e
      ∙ send_raw_request_forever fuel u v (us ++ active ∷ []) w'
          (IsUnique-rotate active u (v ∷ us) unique)
          (s, All-append Refuses (v ∷ us) (active ∷ []) rs (r, tt))
          (p, All-append IsOpen (v ∷ us) (active ∷ []) os (o, tt))
