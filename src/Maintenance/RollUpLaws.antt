-- ===== src/Maintenance/RollUpLaws.antt =====
-- The roll-up: what the buckets count after it.
use project.Base.{
  ==_iff, Bool, Bool-cases, List, [], any, ap, arith, count, eq_option, eq_string, eq_ℕ, false,
  if◌then◌else◌, inl, inr, leb, refl, sym, true, ℕ, ◌+◌, ◌||◌, ◌↔◌, ◌∙◌, ◌∷◌, ◌≡◌, ◌≤◌, ◌⊎◌,
}
use project.Contracts.Modes.{eq_event_type}
use project.Hub.{Event}
use project.Maintenance.RollUp.{
  Bucket, EventRollup, add_to_groups, bucket_eq, bucket_of, groups, hour_end, insert_all,
  insert_bucket, next_hour,
}

pub bucket_eq_iff : (a b : Bucket) → (bucket_eq a b ≡ true) ↔ (a ≡ b)
unfolding bucket_eq
bucket_eq_iff a b =
    ground (arith, ==_iff a.hour b.hour, ==_iff a.agent_id b.agent_id, ==_iff a.type b.type)

pub bucket_eq_refl : (a : Bucket) → bucket_eq a a ≡ true
bucket_eq_refl a = (bucket_eq_iff a a).1 refl

bucket_eq_right : (a b c : Bucket) → bucket_eq b c ≡ true → bucket_eq a c ≡ bucket_eq a b
bucket_eq_right a b c e = ap (bucket_eq a) (sym ((bucket_eq_iff b c).0 e))

bucket_eq_other :
    (a b c : Bucket) → bucket_eq b c ≡ false → bucket_eq a c ≡ true → bucket_eq a b ≡ false
bucket_eq_other a b c e f = ground (arith, bucket_eq_iff a b, bucket_eq_iff a c, bucket_eq_iff b c)

-- The events of a bucket, and what a table of buckets says that there are.
unfoldable pub is_in : Bucket → Event → Bool
unfolding bucket_eq bucket_of
is_in b e = bucket_eq b (bucket_of e)

unfoldable pub counted : Bucket → List EventRollup → ℕ
unfolding bucket_eq
counted b [] = 0
counted b (r ∷ rows) = if bucket_eq b r.bucket then r.count else counted b rows

-- Whether a table has the bucket.
unfoldable pub has : Bucket → List EventRollup → Bool
unfolding bucket_eq
has b [] = false
has b (r ∷ rows) = bucket_eq b r.bucket || has b rows

counted-add_to_groups :
    (b c : Bucket) (gs : List EventRollup)
    → counted b (add_to_groups c gs) ≡ (if bucket_eq b c then counted b gs + 1 else counted b gs)
unfolding counted add_to_groups
counted-add_to_groups b c [] = refl
counted-add_to_groups b c (g ∷ gs) = elim (Bool-cases (bucket_eq c g.bucket)) [
  | inl e ↦ rw (e, bucket_eq_right b c g.bucket e) (ground arith)
  | inr e ↦ elim (Bool-cases (bucket_eq b g.bucket)) [
    | inl f ↦ rw (e, f, bucket_eq_other b c g.bucket e f) refl
    | inr f ↦ rw (e, f) (counted-add_to_groups b c gs)
  ]
]

has-add_to_groups :
    (b c : Bucket) (gs : List EventRollup)
    → has b (add_to_groups c gs) ≡ (bucket_eq b c || has b gs)
unfolding has add_to_groups
has-add_to_groups b c [] = refl
has-add_to_groups b c (g ∷ gs) = elim (Bool-cases (bucket_eq c g.bucket)) [
  | inl e ↦ rw (e, bucket_eq_right b c g.bucket e) (ground arith)
  | inr e ↦ rw (e, has-add_to_groups b c gs) (ground arith)
]

pub counted-groups : (b : Bucket) (es : List Event) → counted b (groups es) ≡ count (is_in b) es
unfolding groups count is_in
counted-groups b [] = unfold counted in refl
counted-groups b (e ∷ es) =
    counted-add_to_groups b (bucket_of e) (groups es)
    ∙ elim (Bool-cases (bucket_eq b (bucket_of e))) [
      | inl f ↦ rw (f, counted-groups b es) (omega arith)
      | inr f ↦ rw (f, counted-groups b es) refl
    ]

pub has-groups : (b : Bucket) (es : List Event) → has b (groups es) ≡ any (is_in b) es
unfolding groups any is_in
has-groups b [] = unfold has in refl
has-groups b (e ∷ es) = has-add_to_groups b (bucket_of e) (groups es) ∙ rw (has-groups b es) refl

counted-insert_bucket :
    (b : Bucket) (g : EventRollup) (rows : List EventRollup)
    → counted b (insert_bucket g rows) ≡ (if bucket_eq b g.bucket then g.count else counted b rows)
unfolding counted insert_bucket
counted-insert_bucket b g [] = refl
counted-insert_bucket b g (r ∷ rows) = elim (Bool-cases (bucket_eq g.bucket r.bucket)) [
  | inl e ↦ rw (e, bucket_eq_right b g.bucket r.bucket e) (ground arith)
  | inr e ↦ elim (Bool-cases (bucket_eq b r.bucket)) [
    | inl f ↦ rw (e, f, bucket_eq_other b g.bucket r.bucket e f) refl
    | inr f ↦ rw (e, f) (counted-insert_bucket b g rows)
  ]
]

has-insert_bucket :
    (b : Bucket) (g : EventRollup) (rows : List EventRollup)
    → has b (insert_bucket g rows) ≡ (bucket_eq b g.bucket || has b rows)
unfolding has insert_bucket
has-insert_bucket b g [] = refl
has-insert_bucket b g (r ∷ rows) = elim (Bool-cases (bucket_eq g.bucket r.bucket)) [
  | inl e ↦ rw (e, bucket_eq_right b g.bucket r.bucket e) (ground arith)
  | inr e ↦ rw (e, has-insert_bucket b g rows) (ground arith)
]

-- The statement replaces the counts of the buckets that it found, and leaves the other rows.
pub counted-insert_all :
    (b : Bucket) (gs rows : List EventRollup)
    → counted b (insert_all gs rows) ≡ (if has b gs then counted b gs else counted b rows)
unfolding insert_all has counted
counted-insert_all b [] rows = refl
counted-insert_all b (g ∷ gs) rows =
    counted-insert_bucket b g (insert_all gs rows) ∙ elim (Bool-cases (bucket_eq b g.bucket)) [
      | inl e ↦ rw e refl
      | inr e ↦ rw (e, counted-insert_all b gs rows) refl
    ]

pub has-insert_all :
    (b : Bucket) (gs rows : List EventRollup)
    → has b (insert_all gs rows) ≡ (has b gs || has b rows)
unfolding insert_all has
has-insert_all b [] rows = refl
has-insert_all b (g ∷ gs) rows =
    has-insert_bucket b g (insert_all gs rows) ∙ rw (has-insert_all b gs rows) (ground arith)

-- A bucket that is not in the table counts nothing.
pub counted_none : (b : Bucket) (rows : List EventRollup) → has b rows ≡ false → counted b rows ≡ 0
unfolding has counted
counted_none b [] e = refl
counted_none b (r ∷ rows) e = ground (arith, counted_none b rows)

-- The watermark is past every bucket of the table.
pub has-next_hour :
    (b : Bucket) (rows : List EventRollup) → has b rows ≡ true → hour_end b ≤ next_hour rows
unfolding has next_hour
has-next_hour b [] e = absurd (ground arith)
has-next_hour b (r ∷ rows) e = elim (Bool-cases (bucket_eq b r.bucket)) [
  | inl f ↦ let same = ap (λ c. hour_end c) ((bucket_eq_iff b r.bucket).0 f) in omega arith
  | inr f ↦ let ih = has-next_hour b rows (sym (rw f refl) ∙ e) in omega arith
]

-- The watermark is 0, or the end of a bucket of the table.
pub next_hour-cases :
    (rows : List EventRollup)
    → (next_hour rows ≡ 0) ⊎ ((b : Bucket) × (has b rows ≡ true) × (next_hour rows ≡ hour_end b))
unfolding next_hour has
next_hour-cases [] = inl refl
next_hour-cases (r ∷ rows) = elim (Bool-cases (leb (next_hour rows) (hour_end r.bucket))) [
  | inl e ↦ inr (r.bucket, rw (bucket_eq_refl r.bucket) refl, ground arith)
  | inr e ↦ elim (next_hour-cases rows) [
    | inl z ↦ absurd (ground arith)
    | inr (b, h, same) ↦ inr (b, ground (arith, h), ground arith)
  ]
]

pub is_in-bucket_of : (e : Event) → is_in (bucket_of e) e ≡ true
unfolding is_in
is_in-bucket_of e = bucket_eq_refl (bucket_of e)
