-- ===== src/Behavior.antt =====
-- lib.rs, `SimpleLogBehavior`, `AsynchronousSingletonBehavior` and `behavior_equiv`: runs of the two
-- state machines, the last step outermost, and when a client cannot tell them apart.
use verified_node_replicatio.Prelude.{◌≡◌}
use verified_node_replicatio.Dispatch.{Dispatch, AsyncLabel}
use verified_node_replicatio.SimpleLog
use verified_node_replicatio.AsyncSingleton

module _ (dt : Dispatch) where
  pub data SimpleLogBehavior : Type 0 where
    stepped : SimpleLog.State dt → AsyncLabel dt → SimpleLogBehavior → SimpleLogBehavior
    inited : SimpleLog.State dt → SimpleLogBehavior

  pub data AsynchronousSingletonBehavior : Type 0 where
    stepped :
        AsyncSingleton.State dt
        → AsyncLabel dt
        → AsynchronousSingletonBehavior
        → AsynchronousSingletonBehavior
    inited : AsyncSingleton.State dt → AsynchronousSingletonBehavior

module _ {dt : Dispatch} where
  abbrev pub log_last : SimpleLogBehavior dt → SimpleLog.State dt
  log_last (SimpleLogBehavior.stepped post op tail) = post
  log_last (SimpleLogBehavior.inited post) = post

  abbrev pub LogWf : SimpleLogBehavior dt → Type 0
  LogWf (SimpleLogBehavior.stepped post op tail) =
      LogWf tail × SimpleLog.Next (log_last tail) op post
  LogWf (SimpleLogBehavior.inited post) = post ≡ SimpleLog.initialize dt

  abbrev pub singleton_last : AsynchronousSingletonBehavior dt → AsyncSingleton.State dt
  singleton_last (AsynchronousSingletonBehavior.stepped post op tail) = post
  singleton_last (AsynchronousSingletonBehavior.inited post) = post

  abbrev pub SingletonWf : AsynchronousSingletonBehavior dt → Type 0
  SingletonWf (AsynchronousSingletonBehavior.stepped post op tail) =
      SingletonWf tail × AsyncSingleton.Next (singleton_last tail) op post
  SingletonWf (AsynchronousSingletonBehavior.inited post) = post ≡ AsyncSingleton.initialize dt

  -- `behavior_equiv`: the two runs agree on their labels, but for the internal ones.
  pub data Equiv : SimpleLogBehavior dt → AsynchronousSingletonBehavior dt → Type 0 where
    both_inited :
        {s : SimpleLog.State dt} {t : AsyncSingleton.State dt}
        → Equiv (SimpleLogBehavior.inited s) (AsynchronousSingletonBehavior.inited t)
    skip_log :
        {s : SimpleLog.State dt} {a : SimpleLogBehavior dt} {b : AsynchronousSingletonBehavior dt}
        → Equiv a b
        → Equiv (SimpleLogBehavior.stepped s AsyncLabel.internal a) b
    skip_singleton :
        {t : AsyncSingleton.State dt} {a : SimpleLogBehavior dt}
        {b : AsynchronousSingletonBehavior dt}
        → Equiv a b
        → Equiv a (AsynchronousSingletonBehavior.stepped t AsyncLabel.internal b)
    same :
        {s : SimpleLog.State dt} {t : AsyncSingleton.State dt} {l : AsyncLabel dt}
        {a : SimpleLogBehavior dt} {b : AsynchronousSingletonBehavior dt}
        → Equiv a b
        → Equiv (SimpleLogBehavior.stepped s l a) (AsynchronousSingletonBehavior.stepped t l b)
