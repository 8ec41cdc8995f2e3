-- ===== src/Limits/Counting.antt =====
-- A counter that starts afresh with each fixed window: at most `most` are admitted in a window, and
-- so at most twice as many in any span of a window's length.
use instant_grant_core.Prelude.{
  ℕ, suc, ◌+◌, ◌≤◌, ◌<◌, min, ◌≡◌, refl, inl, inr, ◌&&◌, List, [], ◌∷◌, ltb, leb, Bool-cases, All,
  if◌then◌else◌, arith,
}

-- How many of the times lie in [a, b).
abbrev pub between : ℕ → ℕ → List ℕ → ℕ
between a b [] = 0
between a b (d ∷ log) = if leb a d && ltb d b then suc (between a b log) else between a b log

between-none : (a b : ℕ) (log : List ℕ) → All (λ d. d < a) log → between a b log ≡ 0
between-none a b [] h = refl
between-none a b (d ∷ log) h = ground (arith, between-none a b log h.1)

-- Spans that cover one another.
between-le : (a b c d : ℕ) (log : List ℕ) → c ≤ a → b ≤ d → between a b log ≤ between c d log
between-le a b c d [] h k = omega arith
between-le a b c d (x ∷ log) h k = ground (arith, between-le a b c d log h k)

between-split : (a b c : ℕ) (log : List ℕ) → between a c log ≤ between a b log + between b c log
between-split a b c [] = omega arith
between-split a b c (x ∷ log) = ground (arith, between-split a b c log)

All-below : (a b : ℕ) (log : List ℕ) → a ≤ b → All (λ d. d < a) log → All (λ d. d < b) log
All-below a b [] le h = tt
All-below a b (d ∷ log) le h = (omega arith, All-below a b log le h.1)

-- Past the last time there is nothing to count.
between-cap : (a b c : ℕ) (log : List ℕ) → All (λ d. d < c) log → between a b log ≤ between a c log
between-cap a b c [] h = omega arith
between-cap a b c (x ∷ log) h = ground (arith, between-cap a b c log h.1)

-- The times admitted so far, with the current window's start and the requests counted in it.
pub record IsWindowed (window most start count : ℕ) (log : List ℕ) : Type 0 where
  pub current : between start (start + window) log ≡ min count most
  pub earlier : (a : ℕ) → start ≤ a + window → between a start log ≤ most
  pub spans : (a : ℕ) → between a (a + window) log ≤ most + most
  pub recent : All (λ d. d < start + window) log

pub IsWindowed-empty : (window most now : ℕ) → IsWindowed window most now 0 []
IsWindowed-empty window most now = record {
  current = omega arith;
  earlier = λ a h. omega arith;
  spans = λ a. omega arith;
  recent = tt;
}

module _ (window most : ℕ) where
  -- A new window starts when the old one is over.
  pub IsWindowed-restart :
      (start count now : ℕ) (log : List ℕ)
      → start + window ≤ now
      → IsWindowed window most start count log
      → IsWindowed window most now 0 log
  IsWindowed-restart start count now log h w = record {
    current = omega (
      arith,
      between-none now (now + window) log (All-below (start + window) now log h w.recent),
    );
    earlier = λ a k. omega (
      arith,
      between-cap a now (start + window) log w.recent,
      between-le a (start + window) start (start + window) log (omega arith) (omega arith),
      w.current,
    );
    spans = w.spans;
    recent = All-below (start + window) (now + window) log (omega arith) w.recent;
  }

  -- A request within the window is admitted while the budget lasts.
  pub IsWindowed-admit :
      (start count now : ℕ) (log : List ℕ)
      → start ≤ now
      → now < start + window
      → count < most
      → IsWindowed window most start count log
      → IsWindowed window most start (count + 1) (now ∷ log)
  IsWindowed-admit start count now log h k room w = record {
    current = ground (arith, w.current);
    earlier = λ a e. ground (arith, w.earlier a e);
    spans = λ a. admit-span a;
    recent = (k, w.recent);
  }
    where
      within : (a : ℕ) → start ≤ a → between a (a + window) log ≤ count
      within a le = omega (
        arith,
        between-cap a (a + window) (start + window) log w.recent,
        between-le a (start + window) start (start + window) log le (omega arith),
        w.current,
      )

      across : (a : ℕ) → a ≤ start → start ≤ a + window → between a (a + window) log ≤ most + count
      across a le e = omega (
        arith,
        between-split a start (a + window) log,
        w.earlier a e,
        between-le start (a + window) start (start + window) log (omega arith) (omega arith),
        w.current,
      )

      admit-span : (a : ℕ) → between a (a + window) (now ∷ log) ≤ most + most
      admit-span a = elim (Bool-cases (leb a now && ltb now (a + window))) [
        | inl inside ↦ elim (Bool-cases (leb start a)) [
          | inl after ↦ rw inside (ground (arith, within a (ground arith)))
          | inr before ↦ rw inside (ground (arith, across a (ground arith) (ground arith)))
        ]
        | inr outside ↦ rw outside (w.spans a)
      ]

  -- Once the budget is spent a request is counted and not admitted.
  pub IsWindowed-refuse :
      (start count : ℕ) (log : List ℕ)
      → most ≤ count
      → IsWindowed window most start count log
      → IsWindowed window most start (count + 1) log
  IsWindowed-refuse start count log full w = record {
    current = omega (arith, w.current);
    earlier = w.earlier;
    spans = w.spans;
    recent = w.recent;
  }
