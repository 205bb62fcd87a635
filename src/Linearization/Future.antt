-- ===== src/Linearization/Future.antt =====
-- spec/linearization.rs, `future_points_ok`: points that fit the state after a transition give points
-- that fit the state before it.
use verified_node_replicatio.Prelude.{ℕ, suc, ◌+◌, ◌≤◌, ◌≡◌, some, Map, insert, remove, arith}
use verified_node_replicatio.Dispatch.{Dispatch}
use verified_node_replicatio.SimpleLog
use verified_node_replicatio.SimpleLog.{
  ReadReq, readonly_start, readonly_read_version, readonly_finish,
}
use verified_node_replicatio.SimpleLog.Enabled.{
  readonly_start_lem, readonly_read_version_lem, readonly_finish_lem,
}
use verified_node_replicatio.Linearization.Relation.{FuturePointsOk}

module _ {dt : Dispatch} where
  pub future_of_same :
      {s s2 : SimpleLog.State dt} {pts : Map ℕ}
      → ((r : ℕ) → s2.readonly_reqs r ≡ s.readonly_reqs r)
      → s.version ≤ s2.version
      → FuturePointsOk s2 pts
      → FuturePointsOk s pts
  future_of_same {s} {s2} same le f = record {
    bound = f.bound;
    bounded = f.bounded;
    future = λ r v q h e. ground (arith, f.future r v q, same r);
  }

  pub future_start :
      (rid : ℕ) (o : dt.ReadOperation) {s s2 : SimpleLog.State dt} {pts : Map ℕ}
      → readonly_start rid o s ≡ some s2
      → FuturePointsOk s2 pts
      → FuturePointsOk s (remove pts rid)
  future_start rid o {s} {s2} {pts} e f =
      let (fresh, eq) = readonly_start_lem rid o s e in
      record {
        bound = f.bound;
        bounded = λ r v h. ground (arith, f.bounded r v);
        future = λ r v q h k. ground (arith, f.future r v q);
      }

  pub future_read_version :
      (rid : ℕ) {s s2 : SimpleLog.State dt} {pts : Map ℕ}
      → readonly_read_version rid s ≡ some s2
      → FuturePointsOk s2 pts
      → FuturePointsOk s pts
  future_read_version rid {s} {s2} {pts} e f =
      let (o, h, eq) = readonly_read_version_lem rid s e in
      record {
        bound = f.bound;
        bounded = f.bounded;
        future =
            λ r v q h k. ground (arith, f.future r v q, f.future r v (ReadReq.req (s.version) o));
      }

  pub future_finish :
      (rid version : ℕ) {ret : dt.Response} {s s2 : SimpleLog.State dt} {pts : Map ℕ}
      → readonly_finish rid version s ≡ some (ret, s2)
      → FuturePointsOk s2 pts
      → FuturePointsOk s (insert pts rid version)
  future_finish rid version {ret} {s} {s2} {pts} e f =
      let (cur, o, h, lo, hi, _, eq) = readonly_finish_lem rid version s e in
      record {
        bound = f.bound + suc rid;
        bounded = λ r v k. ground (arith, f.bounded r v);
        future = λ r v q k g. ground (arith, f.future r v q);
      }
