-- ===== src/Records.antt =====
-- libs/tqtk-common/src/tqtk_common/records.py: the `Tick` and `Bar` wire contract.
-- pydantic checks each annotated field and then runs the model validator: a construction is the
-- function `construct` of each record, from field values of the annotated Python types, where an
-- `int` may be negative. All that is kept of a `ValidationError` is that it is raised.
pub mod Floats
pub mod Fields
pub mod Timeframe
pub mod Tick
pub mod Bar
pub mod Wire
