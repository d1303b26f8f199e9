-- ===== src/Server/Tasks.antt =====
-- internal/server/blockchainserver.go: `MineBlocks`, `StopMining` and the goroutines of the one, step by
-- step. No lock holds their reads and writes of `mining` and `cancelFunc` together, so each is a step of
-- its own. The rounds of a goroutine are in Turns; of them only the look at the context is here.
use nakamato_blockchain.Base.{ℕ, suc, ◌≡◌, true, false, none, some, List, [], ◌∷◌, ◌++◌}
use nakamato_blockchain.Server.{BlockchainServer}
use nakamato_blockchain.Server.Contexts.{Among}

-- A call or a goroutine, by what it has done: `MineBlocks` that has found the flag clear, or has then
-- set `cancelFunc`; a goroutine that mines under a context, or has cleared the flag and returns;
-- `StopMining` that has found the flag set, or has then called `cancelFunc`.
pub data Task : Type 0 where
  starting stopping cancelling leaving : Task
  armed worker : ℕ → Task

pub record Control : Type 0 where
  pub server : BlockchainServer
  pub tasks : List Task

abbrev pub arm : BlockchainServer → BlockchainServer
arm s = record s { cancel_func = some s.contexts; contexts = suc s.contexts }

abbrev pub cancel : ℕ → BlockchainServer → BlockchainServer
cancel i s = record s { cancelled = i ∷ s.cancelled }

-- What a call or a goroutine does next. The call of a nil `cancelFunc` is no step: it panics.
pub data Step : BlockchainServer → List Task → BlockchainServer → List Task → Type 0 where
  called_mine : (s : BlockchainServer) → s.mining ≡ false → Step s [] s (starting ∷ [])
  set_cancel : (s : BlockchainServer) → Step s (starting ∷ []) (arm s) (armed s.contexts ∷ [])
  launched :
      (s : BlockchainServer) (i : ℕ)
      → Step s (armed i ∷ []) (record s { mining = true }) (worker i ∷ [])
  called_stop : (s : BlockchainServer) → s.mining ≡ true → Step s [] s (stopping ∷ [])
  cancelled_one :
      (s : BlockchainServer) (i : ℕ)
      → s.cancel_func ≡ some i
      → Step s (stopping ∷ []) (cancel i s) (cancelling ∷ [])
  cleared : (s : BlockchainServer) → Step s (cancelling ∷ []) (record s { mining = false }) []
  found_cancelled :
      (s : BlockchainServer) (i : ℕ)
      → Among i s.cancelled
      → Step s (worker i ∷ []) (record s { mining = false }) (leaving ∷ [])
  returned : (s : BlockchainServer) → Step s (leaving ∷ []) (record s { cancel_func = none }) []

-- Any task may be the next to make a step.
pub data Steps (start : Control) : Control → Type 0 where
  still : Steps start start
  onward :
      (s t : BlockchainServer) (before old new after tasks : List Task)
      → Steps start (record { server = s; tasks = tasks })
      → tasks ≡ before ++ (old ++ after)
      → Step s old t new
      → Steps start (record { server = t; tasks = before ++ (new ++ after) })

-- A node that has not mined yet.
abbrev pub idle : BlockchainServer → Control
idle s = record {
  server = record s { mining = false; cancel_func = none; contexts = 0; cancelled = [] };
  tasks = [];
}
