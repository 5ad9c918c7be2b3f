-- ===== src/Dashboard/Mint.antt =====
-- dashboard/src/lib/useCameraStream.ts, lines 14-54: the page's gate on tickets being minted.
-- Calls of `withMintSlot` are told apart by numbers. A waiter that is woken takes its slot in a
-- later turn of the browser's queue, so other calls can come in between.
use project.Base.{List, [], eq_string, eq_ℕ, if◌then◌else◌, leb, ℕ, ◌++◌, ◌+◌, ◌-◌, ◌==◌, ◌∷◌}

abbrev pub mint_concurrency : ℕ
mint_concurrency = 2

-- `active` is activeMints and `queue` is mintQueue; `woken` are the calls whose wait is resolved
-- and which have not gone on, `working` those whose request is out.
pub record MintGate : Type 0 where
  pub active : ℕ
  pub queue : List ℕ
  pub woken : List ℕ
  pub working : List ℕ

abbrev pub idle_gate : MintGate
idle_gate = record { active = 0; queue = []; woken = []; working = [] }

abbrev pub take_slot : ℕ → MintGate → MintGate
take_slot id g = record g { active = g.active + 1; working = id ∷ g.working }

unfoldable pub enter : ℕ → MintGate → MintGate
enter id g =
    if leb mint_concurrency g.active
    then record g { queue = g.queue ++ id ∷ [] }
    else take_slot id g

-- mintQueue.shift()?.()
unfoldable pub wake : List ℕ → MintGate → MintGate
wake [] g = g
wake (id ∷ rest) g = record g { queue = rest; woken = g.woken ++ id ∷ [] }

unfoldable pub drop_call : ℕ → List ℕ → List ℕ
drop_call id [] = []
drop_call id (x ∷ xs) = let rest = drop_call id xs in if x == id then xs else x ∷ rest

-- The end of a request, whether it succeeded or threw.
unfoldable pub leave : ℕ → MintGate → MintGate
leave id g = wake g.queue (record g { active = g.active - 1; working = drop_call id g.working })

unfoldable pub go_on : List ℕ → MintGate → MintGate
go_on [] g = g
go_on (id ∷ rest) g = take_slot id (record g { woken = rest })
