-- ===== src/OrderTable/Cyclic.antt =====
-- Positions on a circle of `n` slots: the next one, and the number of steps from one to another.
use lob_project.Base.{ℕ, ◌+◌, ◌-◌, ◌<◌, ◌≤◌, ◌≡◌, ◌≢◌, leb, ◌==◌, if◌then◌else◌, arith}

unfoldable pub step : ℕ → ℕ → ℕ
step n i = if i + 1 == n then 0 else i + 1

unfoldable pub steps : ℕ → ℕ → ℕ → ℕ
steps n h j = if leb h j then j - h else j + n - h

module _ (n : ℕ) where
  pub step-lt : (i : ℕ) → i < n → step n i < n
  unfolding step
  step-lt i h = ground arith

  pub steps-lt : (h j : ℕ) → h < n → j < n → steps n h j < n
  unfolding steps
  steps-lt h j hn jn = ground arith

  pub steps_self : (i : ℕ) → steps n i i ≡ 0
  unfolding steps
  steps_self i = ground arith

  -- The number of steps determines where they lead.
  pub steps_inj : (h i j : ℕ) → h < n → i < n → j < n → steps n h i ≡ steps n h j → i ≡ j
  unfolding steps
  steps_inj h i j hn i_n jn e = ground arith

  -- Passing through `i`.
  pub steps_through :
      (h i j : ℕ)
      → h < n
      → i < n
      → j < n
      → steps n h i ≤ steps n h j
      → steps n h j ≡ steps n h i + steps n i j
  unfolding steps
  steps_through h i j hn i_n jn le = ground arith

  pub steps_from :
      (h i j : ℕ)
      → h < n
      → i < n
      → j < n
      → steps n i j ≤ steps n h j
      → steps n h j ≡ steps n h i + steps n i j
  unfolding steps
  steps_from h i j hn i_n jn le = ground arith

  -- One step further from a start that it does not come back to, and one step nearer to an end that
  -- is not reached.
  pub steps-step : (h i : ℕ) → h < n → i < n → step n i ≢ h → steps n h (step n i) ≡ steps n h i + 1
  unfolding steps step
  steps-step h i hn i_n other = ground arith

  pub step_nearer : (i e : ℕ) → i < n → e < n → i ≢ e → steps n i e ≡ steps n (step n i) e + 1
  unfolding steps step
  step_nearer i e i_n en other = ground arith

  pub steps_add :
      (h i j : ℕ)
      → h < n
      → i < n
      → j < n
      → steps n h i + steps n i j < n
      → steps n h j ≡ steps n h i + steps n i j
  unfolding steps
  steps_add h i j hn i_n jn lt = ground arith

  pub steps_pos : (i j : ℕ) → i < n → j < n → i ≢ j → 0 < steps n i j
  unfolding steps
  steps_pos i j i_n jn ne = ground arith

  -- The slot before a start is the farthest from it.
  pub steps_last : (i j x : ℕ) → i < n → j < n → x < n → step n j ≡ i → steps n i x ≤ steps n i j
  unfolding steps step
  steps_last i j x i_n jn x_n e = ground arith
