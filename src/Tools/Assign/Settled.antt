-- ===== src/Tools/Assign/Settled.antt =====
-- How a call of `_handle_assign_task` of backend/foreman/tools.py leaves the lock of its worker.
use pioneer_square.Shared.{
  ℕ, ◌≡◌, String, Bool, false, ◌&&◌, ◌==◌, string_eq, nat_eq, option_eq, sql_eq, any,
}
use pioneer_square.Locks
use pioneer_square.Locks.{Lock}
use pioneer_square.Tools.{Store, ToolContext}
use pioneer_square.Tools.Choice.{Checked}
use pioneer_square.Tools.Assign.{AssignInput, Plan}
use pioneer_square.Tools.Assign.Writes.{Ending, Fault, assign_key}
use pioneer_square.Tools.Assign.Ended.{Ended}

abbrev pub held_by : String → String → Lock → Bool
held_by key owner l = l.key == key && sql_eq l.owner owner

-- How the whole call ends, from a store where the owner's fresh id holds no such lock.
abbrev pub Settled :
    Checked Plan
    → Fault
    → ℕ
    → String
    → String
    → ToolContext
    → AssignInput
    → Store
    → Ending × Store
    → Type 0
Settled planned fault now owner fresh ctx inp store result =
    (any (held_by (assign_key inp.worker_id) owner) result.1.locks ≡ false)
    × Ended planned fault now fresh ctx inp store result
