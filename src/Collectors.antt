-- ===== src/Collectors.antt =====
-- What the collectors of src/sentinel/collectors/ share, from base.py, and the collectors themselves.
pub mod Clip
pub mod Snapshot
pub mod Emit
pub mod Procfs
pub mod Process
pub mod Netparse
pub mod Network
pub mod Integrity
pub mod AuthLog
