-- ===== src/BlockWatcher/Watchers/Active.antt =====
-- src/services/blockwatcher/service.rs, `start_network_watcher` and `stop_network_watcher`: which
-- networks have a watcher.
use openzeppelin_monitor.Prelude.{
  ◌≡◌, refl, ap, ◌∙◌, Bool, true, false, Option, none, some, String, str_eq, eq_iff, if◌then◌else◌,
  arith, Bool-cases, inl, inr,
}
use text.Mathlib.TextPositions.{eq_refl}
use openzeppelin_monitor.Prelude.Dict.{
  lookup, remove, contains_key, lookup-insert, lookup-insert_self, lookup-remove,
}
use openzeppelin_monitor.Prelude.Result.{Result, ok, err}
use openzeppelin_monitor.Models.Network.{Network}
use openzeppelin_monitor.BlockWatcher.Client.{BlockWatcherError}
use openzeppelin_monitor.BlockWatcher.Watchers.{
  JobScheduler, start, ActiveWatchers, insert_started, start_new, start_network_watcher,
  stop_watcher, stop_network_watcher,
}

module _ {J W : Type 0} (scheduler : JobScheduler J W) where
  -- Which networks are active after a start: on success the started one and those before; on an
  -- error those before.
  abbrev pub Starts :
      Network
      → ActiveWatchers scheduler
      → Result BlockWatcherError (Unit {0}) × (ActiveWatchers scheduler × W)
      → Type 0
  Starts network watchers (ok _, (after, w)) =
      (contains_key network.slug after ≡ true)
      × ((slug : String)
          → contains_key slug watchers ≡ true
          → lookup slug after ≡ lookup slug watchers)
  Starts network watchers (err e, (after, w)) = after ≡ watchers

  insert_started-Starts :
      (network : Network) (j : J) (watchers : ActiveWatchers scheduler)
      → contains_key network.slug watchers ≡ false
      → (r : Result BlockWatcherError (Unit {0}) × W)
      → Starts network watchers (insert_started scheduler network j watchers r)
  insert_started-Starts network j watchers new (err e, w) = refl
  insert_started-Starts network j watchers new (ok _, w) = (
    ap (λ (o : Option J). elim o [ none ↦ false | some v ↦ true ])
        (lookup-insert_self network.slug j watchers),
    λ slug there.
        lookup-insert network.slug slug j watchers
        ∙ ap (λ (b : Bool). if b then some j else lookup slug watchers) (differs slug there),
  )
    where
      differs :
          (slug : String) → contains_key slug watchers ≡ true → str_eq network.slug slug ≡ false
      differs slug there = elim (Bool-cases (str_eq network.slug slug)) [
        | inl same ↦ absurd (
            ground (
              arith,
              ap (λ t. contains_key t watchers) ((eq_iff network.slug slug).0 same),
              new,
              there,
            ))
        | inr other ↦ other
      ]

  start_new-Starts :
      (network : Network) (watchers : ActiveWatchers scheduler)
      → contains_key network.slug watchers ≡ false
      → (r : Result String J × W) → Starts network watchers (start_new scheduler network watchers r)
  start_new-Starts network watchers new (err e, w) = refl
  start_new-Starts network watchers new (ok j, w) =
      insert_started-Starts network j watchers new (start scheduler network j w)

  -- A start that succeeds leaves the network with a watcher, and every network that had one with the
  -- same one; a start that fails leaves the watchers as they were.
  pub start_network_watcher-Starts :
      (network : Network) (watchers : ActiveWatchers scheduler) (w : W)
      → Starts network watchers (start_network_watcher scheduler network (watchers, w))
  unfolding start_network_watcher
  start_network_watcher-Starts network watchers w =
      elim (Bool-cases (contains_key network.slug watchers)) [
        | inl there ↦ rw there (there, λ slug h. refl)
        | inr new ↦ rw new (start_new-Starts network watchers new (scheduler.new w))
      ]

  stop_watcher-watchers :
      (o : Option J) (watchers : ActiveWatchers scheduler) (w : W)
      → (stop_watcher scheduler o watchers w).1.0 ≡ watchers
  stop_watcher-watchers none watchers w = refl
  stop_watcher-watchers (some j) watchers w = refl

  -- After a stop, whether or not the shutdown succeeds, the network has no watcher, and every other
  -- network has the one it had.
  pub stop_network_watcher_lem :
      (network_slug : String) (watchers : ActiveWatchers scheduler) (w : W)
      → let after = (stop_network_watcher scheduler network_slug (watchers, w)).1.0 in
        (contains_key network_slug after ≡ false)
        × ((slug : String)
            → str_eq network_slug slug ≡ false
            → lookup slug after ≡ lookup slug watchers)
  unfolding stop_network_watcher
  stop_network_watcher_lem network_slug watchers w =
      let kept =
        stop_watcher-watchers (lookup network_slug watchers) (remove network_slug watchers) w in
      (
        ap (contains_key network_slug) kept
            ∙ ap (λ (o : Option J). elim o [ none ↦ false | some v ↦ true ])
                (lookup-remove network_slug network_slug watchers
                  ∙ ap (λ (b : Bool). if b then none else lookup network_slug watchers)
                      (eq_refl network_slug)),
        λ slug other.
            ap (lookup slug) kept
            ∙ (lookup-remove network_slug slug watchers
                ∙ ap (λ (b : Bool). if b then none else lookup slug watchers) other),
      )
