-- ===== src/Counter.antt =====
-- examples/counter.rs: the counter that the example replicates, as an instance of `Dispatch`.
use verified_node_replicatio.Prelude.{ℕ, ◌+◌, if◌then◌else◌, ltb}
use verified_node_replicatio.Dispatch.{Dispatch}

pub data UpdateOp : Type 0 where
  reset inc : UpdateOp

pub data ReadonlyOp : Type 0 where
  get : ReadonlyOp

pub data OpResult : Type 0 where
  value : (v : ℕ) → OpResult
  ok : OpResult

pub record DataStructureType : Type 0 where
  pub val : ℕ

unfoldable pub init : DataStructureType
init = record { val = 0 }

-- `dispatch_mut`: the new state and the result.
unfoldable pub dispatch_mut : DataStructureType → UpdateOp → DataStructureType × OpResult
dispatch_mut s reset = (record { val = 0 }, ok)
dispatch_mut s inc =
    (record { val = if ltb (s.val) 0xffff_ffff_ffff_ffff then s.val + 1 else 0 }, ok)

unfoldable pub dispatch : DataStructureType → ReadonlyOp → OpResult
dispatch s get = value (s.val)

abbrev pub replicated_counter : Dispatch
replicated_counter = record {
  View = DataStructureType;
  ReadOperation = ReadonlyOp;
  WriteOperation = UpdateOp;
  Response = OpResult;
  init_spec = init;
  dispatch_spec = dispatch;
  dispatch_mut_spec = dispatch_mut;
}
