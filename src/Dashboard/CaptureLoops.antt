-- ===== src/Dashboard/CaptureLoops.antt =====
-- The capture loop: one cycle at a time, of the present run.
use project.Base.{
  ==_iff, ==_refl, Bool, Bool-cases, List, Option, [], arith, count, eq_option, eq_string, eq_ℕ,
  false, find, if_holds, if◌then◌else◌, inl, inr, leb, none, not, refl, some, suc, true, ℕ, ◌+◌,
  ◌-◌, ◌<◌, ◌==◌, ◌∷◌, ◌≡◌, ◌≤◌,
}
use project.Dashboard.Capture.{
  settle, Capture, Loop, finish_cycle, publish_loop, release_camera, settle, settled,
}
use project.Dashboard.CapturePace.{jpeg_quality}

abbrev pub is_of : ℕ → Loop → Bool
is_of r l = l.run == r

abbrev pub is_due : ℕ → Option Loop → ℕ
is_due r none = 0
is_due r (some l) = if l.run == r then 1 else 0

-- The cycles of a run: a frame that is encoded or uploaded, or a timer that will start one.
abbrev pub cycles : ℕ → Capture → ℕ
cycles r c = count (is_of r) c.encoding + (count (is_of r) c.uploading + is_due r c.timer)

pub record IsPaced (c : Capture) : Type 0 where
  pub one : cycles c.run c ≤ 1
  pub past : (r : ℕ) → c.run < r → cycles r c ≡ 0
  pub low : 30 ≤ c.quality
  pub high : c.quality ≤ jpeg_quality

same_head :
    (x run r n : ℕ)
    → (x == run) ≡ true
    → n ≡ (if run == r then (if x == r then suc n else n) - 1 else (if x == r then suc n else n))
same_head x run r n e = ground (arith, (==_iff x run).0 e)

other_head :
    (x run r n m : ℕ)
    → (x == run) ≡ false
    → m ≡ (if run == r then n - 1 else n)
    → (if x == r then suc m else m)
      ≡ (if run == r then (if x == r then suc n else n) - 1 else (if x == r then suc n else n))
other_head x run r n m e h = ground (arith, e, h, ==_iff x r, ==_iff run r)

pub count-settle :
    (run r : ℕ) (ls : List Loop)
    → count (is_of r) (settle run ls)
      ≡ (if run == r then count (is_of r) ls - 1 else count (is_of r) ls)
unfolding count settle
count-settle run r [] = ground arith
count-settle run r (l ∷ ls) = elim (Bool-cases (l.run == run)) [
  | inl e ↦ rw e (same_head l.run run r (count (is_of r) ls) e)
  | inr e ↦ rw e (
      other_head l.run run r (count (is_of r) ls) (count (is_of r) (settle run ls)) e
        (count-settle run r ls))
]

pub count-found :
    (run : ℕ) (ls : List Loop) (l : Loop)
    → find (λ r. r.run == run) ls ≡ some l
    → 1 ≤ count (is_of run) ls
unfolding count find
count-found run [] l e = absurd (ground arith)
count-found run (r ∷ ls) l e = ground (arith, count-found run ls l)

-- A step that touches neither the loops nor the quality.
pub same-IsPaced :
    (c c' : Capture)
    → IsPaced c
    → c'.run ≡ c.run
    → c'.timer ≡ c.timer
    → c'.encoding ≡ c.encoding
    → c'.uploading ≡ c.uploading
    → c'.quality ≡ c.quality
    → IsPaced c'
same-IsPaced c c' i r t e u q = record {
  one = rw (r, t, e, u) i.one;
  past = λ n h. rw (t, e, u) (i.past n (rw (← r) h));
  low = rw q i.low;
  high = rw q i.high;
}

pub release_camera-IsPaced : (c : Capture) → IsPaced c → IsPaced (release_camera c)
unfolding release_camera
release_camera-IsPaced c i = record {
  one = ground (arith, i.past (c.run + 1) (omega arith));
  past = λ r h. ground (arith, i.past r (omega arith));
  low = i.low;
  high = i.high;
}

-- A loop begins where its run has no cycle.
pub publish_loop-IsPaced :
    (l : Loop) (c : Capture) → cycles c.run c ≡ 0 → IsPaced c → IsPaced (publish_loop l c)
unfolding publish_loop count
publish_loop-IsPaced l c clear i =
    if_holds IsPaced (not (c.run == l.run)) _ _ (λ e. i)
      (λ e.
        let same = (==_iff c.run l.run).0 (ground arith) in
        record {
          one = ground (arith, clear);
          past = λ r h. ground (arith, i.past r h, same);
          low = i.low;
          high = i.high;
        })

-- The end of a cycle that was the run's only one.
pub finish_cycle-IsPaced :
    (now : ℕ) (l : Loop) (c : Capture)
    → l.run ≡ c.run
    → count (is_of c.run) c.encoding + count (is_of c.run) c.uploading ≡ 0
    → IsPaced c
    → IsPaced (finish_cycle now l c)
unfolding finish_cycle
finish_cycle-IsPaced now l c own clear i =
    let next : IsPaced (record c { timer = some l }) = record {
      one = ground (arith, clear);
      past = λ r h. ground (arith, i.past r h, own);
      low = i.low;
      high = i.high;
    } in
    if_holds IsPaced (leb (c.sample.since + 1000) now) _ _
      (λ e. same-IsPaced (record c { timer = some l }) _ next refl refl refl refl refl) (λ e. next)

-- What is outstanding once a loop of the present run has its frame, or its upload is over.
pub encoding_over :
    (c : Capture) (l : Loop)
    → find (λ r. r.run == l.run) c.encoding ≡ some l
    → IsPaced c
    → IsPaced (record c { encoding = settle l.run c.encoding })
encoding_over c l e i = record {
  one = ground (arith, count-settle l.run c.run c.encoding, i.one);
  past = λ r h. ground (arith, count-settle l.run r c.encoding, i.past r h);
  low = i.low;
  high = i.high;
}

pub uploading_over :
    (c : Capture) (l : Loop)
    → find (λ r. r.run == l.run) c.uploading ≡ some l
    → IsPaced c
    → IsPaced (settled l c)
uploading_over c l e i = record {
  one = ground (arith, count-settle l.run c.run c.uploading, i.one);
  past = λ r h. ground (arith, count-settle l.run r c.uploading, i.past r h);
  low = i.low;
  high = i.high;
}

pub none_encoding :
    (c : Capture) (l : Loop)
    → find (λ r. r.run == l.run) c.encoding ≡ some l
    → c.run ≡ l.run
    → cycles c.run c ≤ 1
    → count (is_of c.run) (settle l.run c.encoding)
        + (count (is_of c.run) c.uploading + is_due c.run c.timer)
      ≡ 0
none_encoding c l e own one =
    let inside = count-found l.run c.encoding l e in
    rw own
      (ground (arith, count-settle l.run l.run c.encoding, inside, rw own at one, ==_refl l.run))

pub none_uploading :
    (c : Capture) (l : Loop)
    → find (λ r. r.run == l.run) c.uploading ≡ some l
    → c.run ≡ l.run
    → cycles c.run c ≤ 1
    → count (is_of c.run) c.encoding
        + (count (is_of c.run) (settle l.run c.uploading) + is_due c.run c.timer)
      ≡ 0
none_uploading c l e own one =
    let inside = count-found l.run c.uploading l e in
    rw own
      (ground (arith, count-settle l.run l.run c.uploading, inside, rw own at one, ==_refl l.run))
