-- ===== src/LogRefinement/Runs.antt =====
-- lib.rs, the two refinements together: what a client sees of a run of the unbounded log, it sees of
-- a run of the atomic data structure.
use verified_node_replicatio.Prelude.{ℕ, ◌≡◌, refl, ap, sym, ◌∙◌, List, []}
use verified_node_replicatio.Dispatch.{Dispatch, AsyncLabel}
use verified_node_replicatio.SimpleLog
use verified_node_replicatio.UnboundedLog
use verified_node_replicatio.UnboundedLog.Preserve.Reachable.{see, Run, inited, stepped, Run-Inv}
use verified_node_replicatio.Behavior.{
  SimpleLogBehavior, AsynchronousSingletonBehavior, log_last, LogWf, SingletonWf, Equiv,
  both_inited, skip_log, skip_singleton, same,
}
use verified_node_replicatio.Linearization.Refinement.{exists_Equiv_behavior}
use verified_node_replicatio.LogRefinement.{interp}
use verified_node_replicatio.LogRefinement.Simulation.{initialize-refines, Next-refines}

module _ {dt : Dispatch} where
  abbrev pub seen_of_log : SimpleLogBehavior dt → List (AsyncLabel dt)
  seen_of_log (SimpleLogBehavior.stepped post op tail) = see op (seen_of_log tail)
  seen_of_log (SimpleLogBehavior.inited post) = []

  abbrev pub seen_of_singleton : AsynchronousSingletonBehavior dt → List (AsyncLabel dt)
  seen_of_singleton (AsynchronousSingletonBehavior.stepped post op tail) =
      see op (seen_of_singleton tail)
  seen_of_singleton (AsynchronousSingletonBehavior.inited post) = []

  Equiv-seen :
      {a : SimpleLogBehavior dt} {b : AsynchronousSingletonBehavior dt}
      → Equiv a b
      → seen_of_log a ≡ seen_of_singleton b
  Equiv-seen both_inited = refl
  Equiv-seen (skip_log e) = Equiv-seen e
  Equiv-seen (skip_singleton e) = Equiv-seen e
  Equiv-seen (same {l} e) = ap (see l) (Equiv-seen e)

  -- A run of the simple log that ends where the run of the unbounded log does, and looks like it.
  record Shadow (seen : List (AsyncLabel dt)) (s : UnboundedLog.State dt) : Type 0 where
    a : SimpleLogBehavior dt
    wf : LogWf a
    last : log_last a ≡ interp s
    looks : seen_of_log a ≡ seen

  Run-Shadow :
      {number_of_nodes : ℕ} {seen : List (AsyncLabel dt)} {s : UnboundedLog.State dt}
      → Run number_of_nodes seen s
      → Shadow seen s
  Run-Shadow {number_of_nodes} inited = record {
    a = SimpleLogBehavior.inited (SimpleLog.initialize dt);
    wf = refl;
    last = sym (initialize-refines dt number_of_nodes);
    looks = refl;
  }
  Run-Shadow (stepped {s} {t} {l} r n) =
      let sh = Run-Shadow r in
      record {
        a = SimpleLogBehavior.stepped (interp t) l (sh.a);
        wf = (sh.wf, rw (sh.last) (Next-refines (Run-Inv r) n));
        last = refl;
        looks = ap (see l) (sh.looks);
      }

  -- For every run of the unbounded log, on any number of nodes, there is a run of the atomic data
  -- structure of which a client sees the same: the same requests and answers in the same order.
  pub linearizable :
      {number_of_nodes : ℕ} {seen : List (AsyncLabel dt)} {s : UnboundedLog.State dt}
      → Run number_of_nodes seen s
      → (b : AsynchronousSingletonBehavior dt) × SingletonWf b × (seen_of_singleton b ≡ seen)
  linearizable r =
      let sh = Run-Shadow r in
      let (b, wf, e) = exists_Equiv_behavior (sh.a) (sh.wf) in
      (b, wf, sym (Equiv-seen e) ∙ sh.looks)
