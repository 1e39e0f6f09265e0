-- ===== src/BlockWatcher/Watchers.antt =====
-- src/services/blockwatcher/service.rs: the watcher of a network, which is its scheduled jobs, and the
-- service that keeps one watcher for each active network. The job scheduler is the parameter
-- `JobScheduler`; what a job runs is `Service` and `Recovery`.
pub mod Active
use openzeppelin_monitor.Prelude.{
  ℕ, ◌≡◌, Bool, true, false, List, [], ◌∷◌, Option, none, some, String, if◌then◌else◌,
}
use openzeppelin_monitor.Prelude.Dict.{lookup, insert, remove, contains_key}
use openzeppelin_monitor.Prelude.Result.{Result, ok, err, map_err}
use openzeppelin_monitor.Models.Network.{Network, BlockRecoveryConfig}
use openzeppelin_monitor.BlockWatcher.Client.{BlockWatcherError, scheduler_error, other}

pub data JobKind : Type 0 where
  main_watcher recovery_job : JobKind

-- A job of a network with its schedule.
pub record Job : Type 0 where
  pub kind : JobKind
  pub network : Network
  pub cron_schedule : String

-- The trait `JobSchedulerTrait`, and `Job::new_async`, which refuses a schedule that does not parse.
-- `J` is a scheduler; an error is its text. The calls change the schedulers' surroundings `W`.
pub record JobScheduler (J W : Type 0) : Type 0 where
  pub parses : String → Bool
  pub new : W → Result String J × W
  pub add : Job → J → W → Result String (Unit {0}) × W
  pub start : J → W → Result String (Unit {0}) × W
  pub shutdown : J → W → Result String (Unit {0}) × W

module _ {J W : Type 0} (scheduler : JobScheduler J W) where
  abbrev pub Op : Type 0
  Op = W → Result BlockWatcherError (Unit {0}) × W

  -- `map_err(scheduler_error)?`.
  abbrev pub scheduled : Result String (Unit {0}) × W → Result BlockWatcherError (Unit {0}) × W
  scheduled (r, w) = (map_err (λ e. scheduler_error e) r, w)

  abbrev pub and_then :
      Result BlockWatcherError (Unit {0}) × W → Op → Result BlockWatcherError (Unit {0}) × W
  and_then (ok _, w) k = k w
  and_then (err e, w) k = (err e, w)

  abbrev pub add_job : String → Job → J → Op
  add_job context job j w =
      if scheduler.parses job.cron_schedule
      then scheduled (scheduler.add job j w)
      else (err (other context), w)

  abbrev pub start_main_watcher : Network → J → Op
  start_main_watcher network j w =
      add_job "Failed to create main watcher job"
        (record { kind = main_watcher; network = network; cron_schedule = network.cron_schedule }) j
        w

  -- Only called with a configuration, so that its other arm is not reached.
  abbrev pub start_recovery_job : Network → BlockRecoveryConfig → J → Op
  start_recovery_job network config j w =
      add_job "Failed to create recovery job"
        (record { kind = recovery_job; network = network; cron_schedule = config.cron_schedule }) j
        w

  abbrev pub start_recovery : Option BlockRecoveryConfig → Network → J → Op
  start_recovery none network j w = (ok tt, w)
  start_recovery (some config) network j w =
      if config.enabled then start_recovery_job network config j w else (ok tt, w)

  -- `NetworkBlockWatcher::start`.
  unfoldable pub start : Network → J → Op
  start network j w = and_then (start_main_watcher network j w) λ w.
      and_then (start_recovery network.recovery_config network j w)
        λ w. scheduled (scheduler.start j w)

  -- The watchers of the active networks, by their slug.
  abbrev pub ActiveWatchers : Type 0
  ActiveWatchers = List (String × J)

  abbrev pub insert_started :
      Network
      → J
      → ActiveWatchers
      → Result BlockWatcherError (Unit {0}) × W
      → Result BlockWatcherError (Unit {0}) × (ActiveWatchers × W)
  insert_started network j watchers (ok _, w) = (ok tt, (insert network.slug j watchers, w))
  insert_started network j watchers (err e, w) = (err e, (watchers, w))

  abbrev pub start_new :
      Network
      → ActiveWatchers
      → Result String J × W
      → Result BlockWatcherError (Unit {0}) × (ActiveWatchers × W)
  start_new network watchers (ok j, w) = insert_started network j watchers (start network j w)
  start_new network watchers (err e, w) = (err (scheduler_error e), (watchers, w))

  -- A network that has a watcher keeps it.
  unfoldable pub start_network_watcher :
      Network → ActiveWatchers × W → Result BlockWatcherError (Unit {0}) × (ActiveWatchers × W)
  unfolding start insert
  start_network_watcher network (watchers, w) =
      if contains_key network.slug watchers
      then (ok tt, (watchers, w))
      else start_new network watchers (scheduler.new w)

  -- The watcher is removed before it is stopped, so that it is gone if that fails.
  abbrev pub stop_watcher :
      Option J → ActiveWatchers → W → Result BlockWatcherError (Unit {0}) × (ActiveWatchers × W)
  stop_watcher none watchers w = (ok tt, (watchers, w))
  stop_watcher (some j) watchers w =
      let stopped = scheduled (scheduler.shutdown j w) in (stopped.0, (watchers, stopped.1))

  unfoldable pub stop_network_watcher :
      String → ActiveWatchers × W → Result BlockWatcherError (Unit {0}) × (ActiveWatchers × W)
  unfolding remove
  stop_network_watcher network_slug (watchers, w) =
      stop_watcher (lookup network_slug watchers) (remove network_slug watchers) w
