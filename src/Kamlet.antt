-- ===== src/Kamlet.antt =====
-- The kamlet's register bookkeeping: renaming, and the locks of a register file.
pub mod RenameTable
pub mod RegisterFile
pub mod RegisterSlot
