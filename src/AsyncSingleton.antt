-- ===== src/AsyncSingleton.antt =====
-- lib.rs, `AsynchronousSingleton`: the data structure behind one atomic step for each operation,
-- which is what a client of node replication is promised.
use verified_node_replicatio.Prelude.{
  ℕ, ◌≡◌, Option, some, is_none, guard, ◌>>=◌, ◌>>◌, Map, empty, insert, remove,
}
use verified_node_replicatio.Dispatch.{Dispatch, InputOperation, OutputOperation, AsyncLabel}

pub record State (dt : Dispatch) : Type 0 where
  pub state : dt.View
  pub reqs : Map (InputOperation dt)
  pub resps : Map (OutputOperation dt)

unfoldable pub initialize : (dt : Dispatch) → State dt
initialize dt = record { state = dt.init_spec; reqs = empty; resps = empty }

module _ {dt : Dispatch} where
  -- The next state of the data structure, and the output.
  unfoldable pub apply : InputOperation dt → dt.View → dt.View × OutputOperation dt
  apply (InputOperation.read o) v = (v, OutputOperation.read (dt.dispatch_spec v o))
  apply (InputOperation.write o) v =
      let (next_state, out) = dt.dispatch_mut_spec v o in (next_state, OutputOperation.write out)

  unfoldable pub internal_next : ℕ → State dt → Option (State dt)
  unfolding apply
  internal_next rid s = do
    input ← s.reqs rid
    some (record {
      state = (apply input (s.state)).0;
      reqs = remove (s.reqs) rid;
      resps = insert (s.resps) rid (apply input (s.state)).1;
    })

  unfoldable pub start : ℕ → InputOperation dt → State dt → Option (State dt)
  start rid input s = do
    guard (is_none (s.reqs rid))
    some (record s { reqs = insert (s.reqs) rid input })

  unfoldable pub end : ℕ → State dt → Option (OutputOperation dt × State dt)
  end rid s = do output ← s.resps rid; some (output, record s { resps = remove (s.resps) rid })

  -- `AsynchronousSingleton::State::next`
  pub data Next (s : State dt) : AsyncLabel dt → State dt → Type 0 where
    internal_nexts :
        (rid : ℕ) {t : State dt} → internal_next rid s ≡ some t → Next s AsyncLabel.internal t
    no_op : Next s AsyncLabel.internal s
    starts :
        (rid : ℕ) (input : InputOperation dt) {t : State dt}
        → start rid input s ≡ some t
        → Next s (AsyncLabel.start rid input) t
    ends :
        (rid : ℕ) {output : OutputOperation dt} {t : State dt}
        → end rid s ≡ some (output, t)
        → Next s (AsyncLabel.end rid output) t
