-- ===== src/Bootstrap/Active.antt =====
-- The active monitors of a network (src/bootstrap/mod.rs).
use openzeppelin_monitor.Prelude.{
  ◌≡◌, refl, Bool, not, ◌&&◌, List, [], ◌∷◌, String, any, filter, is_empty, Bool-cases, inl, inr,
}
use openzeppelin_monitor.Models.Monitor.{Monitor}
use openzeppelin_monitor.Bootstrap.{contains_slug, has_active_monitors, filter_network_monitors}

any-filter {ℓ} :
    {A : Type ℓ} (p q : A → Bool) (xs : List A)
    → any (λ x. p x && q x) xs ≡ not (is_empty (filter p (filter q xs)))
any-filter p q [] = refl
any-filter p q (x ∷ xs) = elim (Bool-cases (q x)) [
  | inl live ↦ elim (Bool-cases (p x)) [
    | inl here ↦ rw live (rw here refl)
    | inr gone ↦ rw live (rw gone (any-filter p q xs))
  ]
  | inr paused ↦ elim (Bool-cases (p x)) [
    | inl here ↦ rw paused (rw here (any-filter p q xs))
    | inr gone ↦ rw paused (rw gone (any-filter p q xs))
  ]
]

-- A network has active monitors exactly if the monitors that are not paused hold one of the network.
pub has_active_monitors-not_empty :
    (monitors : List Monitor) (slug : String)
    → has_active_monitors monitors slug
      ≡ not (is_empty (filter_network_monitors (filter (λ m. not m.paused) monitors) slug))
unfolding has_active_monitors filter_network_monitors
has_active_monitors-not_empty monitors slug =
    any-filter (λ m. contains_slug m.networks slug) (λ m. not m.paused) monitors
