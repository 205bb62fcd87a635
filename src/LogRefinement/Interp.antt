-- ===== src/LogRefinement/Interp.antt =====
-- spec/unbounded_log_refines_simplelog.rs: the log that an unbounded log stands for.
use verified_node_replicatio.Prelude.{
  ℕ, zero, suc, ◌≤◌, ◌<◌, ◌≡◌, refl, ◌∙◌, some, length, get_elem?, push, length-push,
  get_elem?-push_lt, get_elem?-push_self, Map, insert, insert_self, arith,
}
use native.Mathlib.Decide.{dec_lt}
use verified_node_replicatio.Dispatch.{Dispatch}
use verified_node_replicatio.SimpleLog
use verified_node_replicatio.SimpleLog.Version
use verified_node_replicatio.UnboundedLog
use verified_node_replicatio.UnboundedLog.{LogEntry}
use verified_node_replicatio.UnboundedLog.LogRange.{compute-suc}
use verified_node_replicatio.LogRefinement.{interp_log}

module _ {dt : Dispatch} where
  -- `version_in_log`: every index below the version has an entry.
  abbrev pub VersionInLog : Map (LogEntry dt) → ℕ → Type 0
  VersionInLog log version = (i : ℕ) → i < version → (e : LogEntry dt) × (log i ≡ some e)

  pub interp_log-agree :
      {log log' : Map (LogEntry dt)} (k : ℕ)
      → ((i : ℕ) → i < k → log' i ≡ log i)
      → interp_log k log' ≡ interp_log k log
  unfolding interp_log
  interp_log-agree zero h = refl
  interp_log-agree (suc k) h =
      ground (arith, interp_log-agree k (λ i lt. h i (omega arith)), h k (omega arith))

  interp_log-suc :
      (log : Map (LogEntry dt)) (k : ℕ) (e : LogEntry dt)
      → log k ≡ some e
      → interp_log (suc k) log ≡ push (interp_log k log) (e.op)
  unfolding interp_log
  interp_log-suc log k e h = ground arith

  -- A placed entry is a pushed operation.
  pub interp_log-insert :
      (log : Map (LogEntry dt)) (k : ℕ) (e : LogEntry dt)
      → interp_log (suc k) (insert log k e) ≡ push (interp_log k log) (e.op)
  interp_log-insert log k e =
      let below : interp_log k (insert log k e) ≡ interp_log k log =
        interp_log-agree k (λ i lt. ground arith) in
      interp_log-suc (insert log k e) k e (insert_self log k e) ∙ rw below refl

  pub length-interp_log :
      (log : Map (LogEntry dt)) (k : ℕ) → VersionInLog log k → length (interp_log k log) ≡ k
  unfolding interp_log
  length-interp_log log zero full = refl
  length-interp_log log (suc k) full =
      let (e, h) = full k (omega arith) in
      ground (
        arith,
        interp_log-suc log k e h,
        length-push (interp_log k log) (e.op),
        length-interp_log log k (λ i lt. full i (omega arith)),
      )

  pub get_elem?-interp_log :
      (log : Map (LogEntry dt)) (k i : ℕ) {e : LogEntry dt}
      → VersionInLog log k
      → i < k
      → log i ≡ some e
      → get_elem? (interp_log k log) i ≡ some (e.op)
  get_elem?-interp_log log zero i full lt h = absurd (omega arith)
  get_elem?-interp_log log (suc k) i {e} full lt h =
      let (f, g) = full k (omega arith) in
      let full' : VersionInLog log k = (λ j l. full j (omega arith)) in
      let len = length-interp_log log k full' in
      rw (interp_log-suc log k f g) (elim (dec_lt i k) [
        | yes below ↦
            get_elem?-push_lt (interp_log k log) (f.op) i (omega arith)
            ∙ get_elem?-interp_log log k i full' below h
        | no at ↦
            let last : i ≡ length (interp_log k log) = omega arith in
            ground (arith, get_elem?-push_self (interp_log k log) (f.op))
      ])

  -- `state_at_version_refines`
  pub compute-interp_log :
      (log : Map (LogEntry dt)) (k v : ℕ)
      → VersionInLog log k
      → v ≤ k
      → SimpleLog.compute_nrstate_at_version dt (interp_log k log) v
        ≡ UnboundedLog.compute_nrstate_at_version dt log v
  unfolding SimpleLog.compute_nrstate_at_version UnboundedLog.compute_nrstate_at_version
  compute-interp_log log k zero full le = refl
  compute-interp_log log k (suc v) full le =
      let (e, h) = full v le in
      ground (
        arith,
        compute-suc log v h,
        Version.compute-suc dt (interp_log k log) v (get_elem?-interp_log log k v full le h),
        compute-interp_log log k v full (omega arith),
      )
