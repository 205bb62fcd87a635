-- ===== src/Dispatch.antt =====
-- lib.rs: the data structure behind the `Dispatch` trait, and the labels of its operations.
use verified_node_replicatio.Prelude.{ℕ}

-- The trait's types and specification functions. A client implements the trait, so they are
-- parameters of the model.
pub record Dispatch : Type 1 where
  pub View : Type 0
  pub ReadOperation : Type 0
  pub WriteOperation : Type 0
  pub Response : Type 0
  pub init_spec : View
  pub dispatch_spec : View → ReadOperation → Response
  pub dispatch_mut_spec : View → WriteOperation → View × Response

pub data InputOperation (dt : Dispatch) : Type 0 where
  read : dt.ReadOperation → InputOperation dt
  write : dt.WriteOperation → InputOperation dt

pub data OutputOperation (dt : Dispatch) : Type 0 where
  read : dt.Response → OutputOperation dt
  write : dt.Response → OutputOperation dt

pub data AsyncLabel (dt : Dispatch) : Type 0 where
  internal : AsyncLabel dt
  start : ℕ → InputOperation dt → AsyncLabel dt
  end : ℕ → OutputOperation dt → AsyncLabel dt
