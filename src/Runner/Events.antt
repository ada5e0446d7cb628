-- ===== src/Runner/Events.antt =====
-- The events of src/runner.rs: a loop that hears of none is the plain loop, and who asked for one is
-- told what came of it.
use kelinode_rs.Prelude.Text.{Text}
use kelinode_rs.Prelude.Result.{Result, ok}
use kelinode_rs.Runner.{RuntimeLoopOptions, RuntimeLoopCallbacks}

module _ {O C : Type 0} (callbacks : RuntimeLoopCallbacks O C)
    (options : RuntimeLoopOptions O) where
  -- The callbacks with a pause that does nothing.
  abbrev pub undisturbed : RuntimeLoopCallbacks O C
  undisturbed = record callbacks { sleep = λ duration c. (ok tt, c) }
