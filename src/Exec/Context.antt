-- ===== src/Exec/Context.antt =====
-- exec/context.rs: the slot of a thread in its replica, and the thread's token. The ghost state of the
-- slot is FlatCombiner's.
use verified_node_replicatio.Prelude.{ℕ, ◌==◌, Option, none, some, if◌then◌else◌, ◌>>=◌}

pub record PendingOperation (Op Resp : Type 0) : Type 0 where
  pub op : Op
  pub resp : Option Resp

pub record ThreadToken : Type 0 where
  pub rid : ℕ
  pub tid : ℕ

-- `batch` is a cell, `none` where it is empty; `atomic` is the number of operations, 0 or 1.
pub record Context (Op Resp : Type 0) : Type 0 where
  pub batch : Option (PendingOperation Op Resp)
  pub atomic : ℕ

module _ {Op Resp : Type 0} where
  -- `PendingOperation::new`
  abbrev pub new_pending : Op → PendingOperation Op Resp
  new_pending op = record { op = op; resp = none }

  -- `PendingOperation::set_result`
  abbrev pub set_result : Resp → PendingOperation Op Resp → PendingOperation Op Resp
  set_result resp p = record p { resp = some resp }

  unfoldable pub new : Context Op Resp
  new = record { batch = none; atomic = 0 }

  -- `none` where the cell is full.
  unfoldable pub enqueue_op : Op → Context Op Resp → Option (Context Op Resp)
  enqueue_op op c = elim c.batch [
    | none ↦ some (record { batch = some (new_pending op); atomic = 1 })
    | some p ↦ none
  ]

  -- `none` where the cell is empty, or holds no response; the response is `none` where the operation is
  -- still pending.
  unfoldable pub dequeue_response : Context Op Resp → Option (Option Resp × Context Op Resp)
  dequeue_response c =
      if c.atomic == 0
      then (do op ← c.batch; resp ← op.resp; some (some resp, record c { batch = none }))
      else some (none, c)
