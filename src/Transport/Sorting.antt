-- ===== src/Transport/Sorting.antt =====
-- The order in which src/services/blockchain/transports try the URLs.
use openzeppelin_monitor.Prelude.{
  ◌≤◌, Bool, not, List, [], ◌∷◌, ◌++◌, leb, Bool-cases, inl, inr, All, All-impl, All-filter_of_All,
  filter, arith,
}
use mathlib.Core.List.{Perm, perm_middle}
use mathlib.Core.List.Perm
use openzeppelin_monitor.Models.Network.{RpcUrl}
use openzeppelin_monitor.Transport.{insert_by_weight, sort_by_weight}

insert_by_weight-perm : (u : RpcUrl) (us : List RpcUrl) → Perm (insert_by_weight u us) (u ∷ us)
unfolding insert_by_weight
insert_by_weight-perm u [] = Perm.refl (u ∷ [])
insert_by_weight-perm u (v ∷ vs) = elim (Bool-cases (leb v.weight u.weight)) [
  | inl e ↦ rw e (Perm.refl (u ∷ v ∷ vs))
  | inr e ↦ rw e (Perm.trans (Perm.cons v (insert_by_weight-perm u vs)) (Perm.swap u v vs))
]

pub sort_by_weight-perm : (us : List RpcUrl) → Perm (sort_by_weight us) us
unfolding sort_by_weight
sort_by_weight-perm [] = Perm.refl []
sort_by_weight-perm (u ∷ us) =
    Perm.trans (insert_by_weight-perm u (sort_by_weight us)) (Perm.cons u (sort_by_weight-perm us))

-- The heavier URLs stand first.
abbrev pub IsDescending : List RpcUrl → Type 0
IsDescending [] = Unit
IsDescending (u ∷ us) = All (λ (v : RpcUrl). v.weight ≤ u.weight) us × IsDescending us

pub All-insert_by_weight :
    (P : RpcUrl → Type 0) (u : RpcUrl) (us : List RpcUrl)
    → P u
    → All P us
    → All P (insert_by_weight u us)
unfolding insert_by_weight
All-insert_by_weight P u [] p h = (p, tt)
All-insert_by_weight P u (v ∷ vs) p (q, h) = elim (Bool-cases (leb v.weight u.weight)) [
  | inl e ↦ rw e (p, (q, h))
  | inr e ↦ rw e (q, All-insert_by_weight P u vs p h)
]

IsDescending-insert_by_weight :
    (u : RpcUrl) (us : List RpcUrl) → IsDescending us → IsDescending (insert_by_weight u us)
unfolding insert_by_weight
IsDescending-insert_by_weight u [] h = (tt, tt)
IsDescending-insert_by_weight u (v ∷ vs) (below, h) = elim (Bool-cases (leb v.weight u.weight)) [
  | inl e ↦
      let less : v.weight ≤ u.weight = ground (arith, e) in
      rw e (
        (less, All-impl _ _ vs (λ (w : RpcUrl) (k : w.weight ≤ v.weight). omega arith) below),
        (below, h),
      )
  | inr e ↦ rw e (
    All-insert_by_weight (λ (w : RpcUrl). w.weight ≤ v.weight) u vs (ground (arith, e)) below,
    IsDescending-insert_by_weight u vs h,
  )
]

pub sort_by_weight-IsDescending : (us : List RpcUrl) → IsDescending (sort_by_weight us)
unfolding sort_by_weight
sort_by_weight-IsDescending [] = tt
sort_by_weight-IsDescending (u ∷ us) =
    IsDescending-insert_by_weight u (sort_by_weight us) (sort_by_weight-IsDescending us)

pub IsDescending-filter :
    (p : RpcUrl → Bool) (us : List RpcUrl) → IsDescending us → IsDescending (filter p us)
IsDescending-filter p [] h = tt
IsDescending-filter p (u ∷ us) (below, h) = elim (Bool-cases (p u)) [
  | inl e ↦ rw e (All-filter_of_All _ p us below, IsDescending-filter p us h)
  | inr e ↦ rw e (IsDescending-filter p us h)
]

-- A list is what passes a test together with what does not.
pub filter-perm :
    (p : RpcUrl → Bool) (us : List RpcUrl) → Perm us (filter p us ++ filter (λ u. not (p u)) us)
filter-perm p [] = Perm.refl []
filter-perm p (u ∷ us) = elim (Bool-cases (p u)) [
  | inl e ↦ rw e (Perm.cons u (filter-perm p us))
  | inr e ↦ rw e (
      Perm.trans (Perm.cons u (filter-perm p us))
        (Perm.symm (perm_middle (filter p us) (filter (λ u. not (p u)) us))))
]
