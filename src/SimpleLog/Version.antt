-- ===== src/SimpleLog/Version.antt =====
-- The state at a version depends on the operations below it alone.
use verified_node_replicatio.Prelude.{
  ℕ, zero, suc, ◌≤◌, ◌≡◌, refl, some, List, length, get_elem?, push, get_elem?-push_lt, arith,
}
use verified_node_replicatio.Dispatch.{Dispatch}
use verified_node_replicatio.SimpleLog.{compute_nrstate_at_version}

module _ (dt : Dispatch) where
  -- `state_at_version_preserves` of spec/linearization.rs
  pub compute-push :
      (log : List (dt.WriteOperation)) (x : dt.WriteOperation) (v : ℕ)
      → v ≤ length log
      → compute_nrstate_at_version dt (push log x) v ≡ compute_nrstate_at_version dt log v
  unfolding compute_nrstate_at_version
  compute-push log x zero h = refl
  compute-push log x (suc v) h =
      ground (arith, compute-push log x v (omega arith), get_elem?-push_lt log x v h)

  pub compute-suc :
      (log : List (dt.WriteOperation)) (v : ℕ) {o : dt.WriteOperation}
      → get_elem? log v ≡ some o
      → compute_nrstate_at_version dt log (suc v)
        ≡ (dt.dispatch_mut_spec (compute_nrstate_at_version dt log v) o).0
  unfolding compute_nrstate_at_version
  compute-suc log v e = ground arith
