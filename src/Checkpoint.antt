-- ===== src/Checkpoint.antt =====
-- simulator/core/checkpointing.py: the time up to which the events have been processed. The file holds
-- one time or does not exist; its text and the folder are left out.
use daemon_supply_chain.Common.{ℕ, Option, some}

abbrev pub Checkpoint : Type 0
Checkpoint = Option ℕ

unfoldable pub read : Checkpoint → Option ℕ
read file = file

unfoldable pub write : ℕ → Checkpoint → Checkpoint
write value file = some value

unfoldable pub advance_to : ℕ → Checkpoint → Checkpoint
advance_to value file = write value file
