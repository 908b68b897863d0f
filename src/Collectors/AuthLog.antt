-- ===== src/Collectors/AuthLog.antt =====
-- src/sentinel/collectors/authlog.py. Its children model the lines cut out of the bytes read (Lines),
-- the open file and its rotation (Tail), the records of a line (Records), and the numbering of
-- identical records (Numbering); Poll puts them together.
pub mod Lines
pub mod Tail
pub mod Records
pub mod Numbering
pub mod Poll
