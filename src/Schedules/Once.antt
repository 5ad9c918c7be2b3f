-- ===== src/Schedules/Once.antt =====
-- The claim under every interleaving of its callers.
use project.Base.{
  ==_iff, ==_refl, Bool-cases, List, Option, String, [], all, any, any-update_closed,
  any-update_none, arith, count, count-eq-zero, eq_option, eq_string, eq_ℕ, false, if◌then◌else◌,
  inl, inr, ltb, map, not, refl, some, true, update_row, ℕ, ◌==◌, ◌||◌, ◌∷◌, ◌≡◌, ◌≤◌, ◌⊎◌,
}
use project.Db.{Prisma}
use project.Schedules.LocalTime.{ArmSchedule}
use project.Schedules.Runner.{claim, claimed_row, is_unclaimed}

-- One call of `claim`, by whichever tick, on whichever instance of the hub.
pub record Attempt : Type 0 where
  pub id : String
  pub date_key : String
  pub fired_at : Option ℕ

module _ (db : Prisma) where
  -- The attempts in the order in which the database serves them: the table at the end, and the
  -- attempts that won.
  unfoldable pub serve : List Attempt → List ArmSchedule → List ArmSchedule × List Attempt
  serve [] rows = (rows, [])
  serve (a ∷ attempts) rows =
      let c = claim db a.id a.date_key a.fired_at rows in
      let rest = serve attempts c.0 in (rest.0, if c.1 then a ∷ rest.1 else rest.1)

  claim_rows :
      (id date : String) (at : Option ℕ) (rows : List ArmSchedule)
      → (claim db id date at rows).0
        ≡ map (λ s. if is_unclaimed id date s then claimed_row date at s else s) rows
  unfolding claim
  claim_rows id date at rows = rw db.update_many_lem

  claim_won :
      (id date : String) (at : Option ℕ) (rows : List ArmSchedule)
      → (claim db id date at rows).1 ≡ ltb 0 (count (is_unclaimed id date) rows)
  unfolding claim
  claim_won id date at rows = rw db.update_many_lem

  -- After a claim no row of that schedule is unclaimed for that date.
  pub claim_closes :
      (id date : String) (at : Option ℕ) (rows : List ArmSchedule)
      → any (is_unclaimed id date) (claim db id date at rows).0 ≡ false
  claim_closes id date at rows = rw claim_rows (
      any-update_none (is_unclaimed id date) (is_unclaimed id date) (claimed_row date at) rows
        (closed id date at))
    where
      closed :
          (i d : String) (t : Option ℕ) (x : ArmSchedule)
          → is_unclaimed i d (update_row (is_unclaimed i d) (claimed_row d t) x) ≡ false
      closed i d t x = unfold is_unclaimed in ground (arith, ==_refl (some d))

  kept_row :
      (id date : String) (a : Attempt) (x : ArmSchedule)
      → (not (a.id == id) || a.date_key == date) ≡ true
      → is_unclaimed id date x ≡ false
      → is_unclaimed id date
          (update_row (is_unclaimed a.id a.date_key) (claimed_row a.date_key a.fired_at) x)
        ≡ false
  unfolding is_unclaimed
  kept_row id date a x same e = ground (
    arith,
    ==_iff a.date_key date,
    ==_iff x.id a.id,
    ==_iff x.id id,
    ==_iff a.id id,
    ==_refl (some date),
  )

  -- A claim for another schedule, or for the same date, reopens nothing.
  claim_keeps :
      (id date : String) (a : Attempt) (rows : List ArmSchedule)
      → (not (a.id == id) || a.date_key == date) ≡ true
      → any (is_unclaimed id date) rows ≡ false
      → any (is_unclaimed id date) (claim db a.id a.date_key a.fired_at rows).0 ≡ false
  claim_keeps id date a rows same e = rw claim_rows (
      any-update_closed (is_unclaimed id date) (is_unclaimed a.id a.date_key)
        (claimed_row a.date_key a.fired_at) rows (λ x. kept_row id date a x same) e)

  -- A claim on a closed schedule is lost.
  pub claim_lost :
      (id date : String) (at : Option ℕ) (rows : List ArmSchedule)
      → any (is_unclaimed id date) rows ≡ false
      → (claim db id date at rows).1 ≡ false
  claim_lost id date at rows e = rw (claim_won, count-eq-zero (is_unclaimed id date) rows e)

  lost_attempt :
      (id date : String) (a : Attempt) (rows : List ArmSchedule)
      → (not (a.id == id) || a.date_key == date) ≡ true
      → any (is_unclaimed id date) rows ≡ false
      → ((a.id == id) ≡ false) ⊎ ((claim db a.id a.date_key a.fired_at rows).1 ≡ false)
  lost_attempt id date a rows same e = elim (Bool-cases (a.id == id)) [
    | inl own ↦
        let is_id = (==_iff a.id id).0 own in
        let is_date : a.date_key ≡ date = ground (arith, ==_iff a.date_key date) in
        inr (rw (is_id, is_date) (claim_lost id date a.fired_at rows e))
    | inr differs ↦ inl differs
  ]

  -- Once closed, no later attempt on the schedule wins.
  none_after :
      (id date : String) (attempts : List Attempt) (rows : List ArmSchedule)
      → all (λ a. not (a.id == id) || a.date_key == date) attempts ≡ true
      → any (is_unclaimed id date) rows ≡ false
      → count (λ a. a.id == id) (serve attempts rows).1 ≡ 0
  unfolding serve all count
  none_after id date [] rows h e = refl
  none_after id date (a ∷ attempts) rows h e =
      let here : (not (a.id == id) || a.date_key == date) ≡ true = ground arith in
      ground (
        arith,
        lost_attempt id date a rows here e,
        none_after id date attempts (claim db a.id a.date_key a.fired_at rows).0 (ground arith)
            (claim_keeps id date a rows here e),
      )

  -- However the ticks of any number of hub instances interleave their claims on one schedule for one
  -- local date, with claims on other schedules in between, at most one of them wins.
  pub serve_once :
      (id date : String) (attempts : List Attempt) (rows : List ArmSchedule)
      → all (λ a. not (a.id == id) || a.date_key == date) attempts ≡ true
      → count (λ a. a.id == id) (serve attempts rows).1 ≤ 1
  unfolding serve all count
  serve_once id date [] rows h = omega arith
  serve_once id date (a ∷ attempts) rows h =
      let here : (not (a.id == id) || a.date_key == date) ≡ true = ground arith in
      let next = (claim db a.id a.date_key a.fired_at rows).0 in
      let later : all (λ b. not (b.id == id) || b.date_key == date) attempts ≡ true =
        ground arith in
      elim (Bool-cases (a.id == id)) [
        | inl own ↦
            let is_id = (==_iff a.id id).0 own in
            let is_date : a.date_key ≡ date = ground (arith, ==_iff a.date_key date) in
            let closed : any (is_unclaimed id date) next ≡ false =
              rw (is_id, is_date) (claim_closes id date a.fired_at rows) in
            ground (arith, none_after id date attempts next later closed)
        | inr differs ↦ ground (arith, serve_once id date attempts next later)
      ]
