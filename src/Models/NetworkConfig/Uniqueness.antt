-- ===== src/Models/NetworkConfig/Uniqueness.antt =====
-- src/models/config/network_config.rs: `validate_uniqueness`, as `load_all` uses it.
use openzeppelin_monitor.Prelude.{
  ◌≡◌, ◌≢◌, sym, ap, ◌∙◌, false, List, [], ◌∷◌, ◌++◌, String, subst, All-append, str_eq, eq_iff,
  arith, any, All, Bool-cases, inl, inr,
}
use openzeppelin_monitor.Prelude.Result.{ok, err, is_ok, Result-cases}
use openzeppelin_monitor.Models.Network.{Network}
use openzeppelin_monitor.Models.NetworkConfig.{
  Unicode, normalize_string, validate_uniqueness, load_all_from,
}

module _ (u : Unicode) where
  -- Two networks have different names and different slugs, case and outer spaces aside.
  pub record Differ (current existing : Network) : Type 0 where
    pub names : normalize_string u existing.name ≢ normalize_string u current.name
    pub slugs : normalize_string u existing.slug ≢ normalize_string u current.slug

  abbrev pub IsUnique : List Network → Type 0
  IsUnique [] = Unit
  IsUnique (n ∷ ns) = All (Differ n) ns × IsUnique ns

  none_equal :
      (f : Network → String) (t : String) (ns : List Network)
      → any (λ n. str_eq (f n) t) ns ≡ false
      → All (λ n. f n ≢ t) ns
  none_equal f t [] h = tt
  none_equal f t (n ∷ ns) h =
      ((λ same. ground (arith, (eq_iff (f n) t).1 same, h)), none_equal f t ns (ground (arith, h)))

  All-Differ :
      (current : Network) (ns : List Network)
      → All (λ n. normalize_string u n.name ≢ normalize_string u current.name) ns
      → All (λ n. normalize_string u n.slug ≢ normalize_string u current.slug) ns
      → All (Differ current) ns
  All-Differ current [] a b = tt
  All-Differ current (n ∷ ns) (p, a) (q, b) =
      (record { names = p; slugs = q }, All-Differ current ns a b)

  validate_uniqueness-Differ :
      (loaded : List Network) (current : Network)
      → validate_uniqueness u loaded current ≡ ok tt
      → All (Differ current) loaded
  unfolding validate_uniqueness
  validate_uniqueness-Differ loaded current h =
      elim (Bool-cases
        (any (λ n. str_eq (normalize_string u n.name) (normalize_string u current.name)) loaded)) [
          | inl e ↦ absurd (ground (arith, ap is_ok h, e))
          | inr names ↦
              elim (Bool-cases (
                any (λ n. str_eq (normalize_string u n.slug) (normalize_string u current.slug))
                  loaded)) [
                    | inl e ↦ absurd (ground (arith, ap is_ok h, names, e))
                    | inr slugs ↦
                        All-Differ current loaded
                          (none_equal (λ n. normalize_string u n.name)
                            (normalize_string u current.name) loaded names)
                          (none_equal (λ n. normalize_string u n.slug)
                            (normalize_string u current.slug) loaded slugs)
                  ]
        ]

  IsUnique-push_back :
      (ns : List Network) (current : Network)
      → IsUnique ns
      → All (Differ current) ns
      → IsUnique (ns ++ current ∷ [])
  IsUnique-push_back [] current unique h = (tt, tt)
  IsUnique-push_back (n ∷ ns) current (others, unique) (d, h) = (
    All-append (Differ n) ns (current ∷ []) others
        (record { names = λ e. d.names (sym e); slugs = λ e. d.slugs (sym e) }, tt),
    IsUnique-push_back ns current unique h,
  )

  -- If the networks that are loaded already all have different names and slugs (there are none at
  -- the start), and the others load as well, then the networks that are returned all have
  -- different names and different slugs, after `normalize_string`.
  pub load_all_from-IsUnique :
      (loaded networks result : List Network)
      → IsUnique loaded
      → load_all_from u loaded networks ≡ ok result
      → IsUnique result
  unfolding load_all_from
  load_all_from-IsUnique loaded [] result unique h =
      subst IsUnique (ap (λ r. elim r [ ok a ↦ a | err e ↦ loaded ]) h) unique
  load_all_from-IsUnique loaded (n ∷ ns) result unique h =
      elim (Result-cases (validate_uniqueness u loaded n)) [
        | inl (_, e) ↦
            load_all_from-IsUnique (loaded ++ n ∷ []) ns result
              (IsUnique-push_back loaded n unique (validate_uniqueness-Differ loaded n e))
              (sym (
                  ap (λ r. elim r [ ok _ ↦ load_all_from u (loaded ++ n ∷ []) ns | err x ↦ err x ])
                    e)
                ∙ h)
        | inr (x, e) ↦ absurd (
            ground (
              arith,
              ap is_ok (
                  sym (
                    ap
                      (λ r. elim r [
                        | ok _ ↦ load_all_from u (loaded ++ n ∷ []) ns
                        | err x' ↦ err x'
                      ])
                      e)
                  ∙ h),
            ))
      ]
