-- ===== src/Dashboard/MintSlots.antt =====
-- The slots of the page's gate on minting.
use project.Base.{
  Bool, List, [], any, ap, arith, eq_string, eq_ℕ, if◌then◌else◌, inl, length, length-snoc, ltb,
  refl, suc, sym, true, ℕ, ◌+◌, ◌-◌, ◌∷◌, ◌≡◌, ◌≤◌, ◌⊎◌,
}
use project.Contracts.Auth.{includes}
use project.Dashboard.Mint.{MintGate, drop_call, enter, go_on, idle_gate, leave, wake}

abbrev is_overtaking : MintGate → Bool
is_overtaking g = ltb 0 (length g.woken)

-- The states that the gate reaches, with how many calls came in while a woken one had not gone on.
pub data MintReached : ℕ → MintGate → Type 0 where
  opens : MintReached 0 idle_gate
  enters :
      (n id : ℕ) (g : MintGate)
      → MintReached n g
      → MintReached (if is_overtaking g then suc n else n) (enter id g)
  leaves :
      (n id : ℕ) (g : MintGate)
      → MintReached n g
      → includes g.working id ≡ true
      → MintReached n (leave id g)
  resumes : (n : ℕ) (g : MintGate) → MintReached n g → MintReached n (go_on g.woken g)

-- Every slot is held by one request, the slots held or promised are at most two and the calls that
-- overtook, and a call waits only if two slots are held or promised.
pub record IsGated (n : ℕ) (g : MintGate) : Type 0 where
  pub tally : length g.working ≡ g.active
  pub few : g.active + length g.woken ≤ 2 + n
  pub busy : (length g.queue ≡ 0) ⊎ (2 ≤ g.active + length g.woken)

length-drop_call :
    (id : ℕ) (xs : List ℕ) → includes xs id ≡ true → length (drop_call id xs) + 1 ≡ length xs
unfolding drop_call includes any
length-drop_call id [] e = absurd (ground arith)
length-drop_call id (x ∷ xs) e = ground (arith, length-drop_call id xs)

enter-IsGated :
    (n id : ℕ) (g : MintGate)
    → IsGated n g
    → IsGated (if is_overtaking g then suc n else n) (enter id g)
unfolding enter
enter-IsGated n id g i = record {
  tally = ground (arith, i.tally);
  few = ground (arith, i.few);
  busy = ground (arith, i.busy);
}

wake-IsGated :
    (n : ℕ) (q : List ℕ) (g : MintGate)
    → length g.working ≡ g.active
    → g.active + length g.woken + 1 ≤ 2 + n
    → (length q ≡ 0) ⊎ (2 ≤ g.active + length g.woken + 1)
    → q ≡ g.queue
    → IsGated n (wake q g)
unfolding wake
wake-IsGated n [] g t f b e = record {
  tally = t;
  few = omega (arith, f);
  busy = inl (ap length (sym e));
}
wake-IsGated n (id ∷ rest) g t f b e = record {
  tally = t;
  few = ground (arith, f, length-snoc g.woken id);
  busy = ground (arith, b, length-snoc g.woken id);
}

leave-IsGated :
    (n id : ℕ) (g : MintGate) → includes g.working id ≡ true → IsGated n g → IsGated n (leave id g)
unfolding leave
leave-IsGated n id g e i =
    let one = length-drop_call id g.working e in
    wake-IsGated n g.queue (record g { active = g.active - 1; working = drop_call id g.working })
      (omega (arith, one, i.tally)) (omega (arith, one, i.tally, i.few))
      (ground (arith, one, i.tally, i.busy)) refl

go_on-IsGated :
    (n : ℕ) (g : MintGate) (w : List ℕ) → w ≡ g.woken → IsGated n g → IsGated n (go_on w g)
unfolding go_on
go_on-IsGated n g [] e i = i
go_on-IsGated n g (id ∷ rest) e i =
    let one : length g.woken ≡ suc (length rest) = ap length (sym e) in
    record {
      tally = omega (arith, i.tally);
      few = omega (arith, i.few, one);
      busy = ground (arith, i.busy, one);
    }

-- In every state that the page's gate on minting reaches, `activeMints` is the number of requests
-- that are out; with the calls that were woken and have not gone on these are at most two, and one
-- more for each call that came in while a woken one had not gone on; and a call waits in the queue
-- only while at least two slots are taken or promised, so that no call waits for a free slot.
pub minted-IsGated : (n : ℕ) (g : MintGate) → MintReached n g → IsGated n g
minted-IsGated n g opens = record { tally = refl; few = omega arith; busy = inl refl }
minted-IsGated n g (enters m id g0 r) = enter-IsGated m id g0 (minted-IsGated m g0 r)
minted-IsGated n g (leaves m id g0 r e) = leave-IsGated n id g0 e (minted-IsGated n g0 r)
minted-IsGated n g (resumes m g0 r) = go_on-IsGated n g0 g0.woken refl (minted-IsGated n g0 r)
