-- ===== src/Pomodoro/Timer.antt =====
-- The timer's view determines the time elapsed, and its text the countdown
-- (crates/viz/src/pomodoro.rs).
use entheai.Base.{
  ℕ, length, ◌+◌, ◌-◌, ◌*◌, ◌%◌, ◌≤◌, ◌<◌, ◌≡◌, refl, List, [], ◌∷◌, arith, ltb, if◌then◌else◌,
}
use entheai.Pomodoro.{PomoPhase, work, break, Pomodoro, at, fmt_mmss}
use native.Mathlib.Nat.{div-add-mod', mod-lt}

-- The seconds of the period that have gone by when a phase has `remaining` seconds left.
abbrev pub gone_by : Pomodoro → PomoPhase → ℕ → ℕ
gone_by p work remaining = p.work_secs - remaining
gone_by p break remaining = p.work_secs + p.break_secs - remaining

abbrev pub phase_secs : Pomodoro → PomoPhase → ℕ
phase_secs p work = p.work_secs
phase_secs p break = p.break_secs

-- For a timer whose period is not empty: the countdown is above 0 and at most the phase's length, and
-- the elapsed time is the full cycles plus what the phase and the countdown say has gone by.
pub at-elapsed :
    (p : Pomodoro) (elapsed : ℕ)
    → 0 < p.work_secs + p.break_secs
    → let v = at p elapsed in
      (0 < v.remaining_secs)
      × (v.remaining_secs ≤ phase_secs p v.phase)
      × (v.cycle * (p.work_secs + p.break_secs) + gone_by p v.phase v.remaining_secs ≡ elapsed)
unfolding at
at-elapsed p elapsed h =
    ground (arith, div-add-mod' elapsed (p.work_secs + p.break_secs), mod-lt elapsed h)

-- Reading `MM:SS` back.
abbrev pub read_mmss : List ℕ → ℕ
read_mmss (a ∷ b ∷ c ∷ d ∷ e ∷ []) = ((a - 48) * 10 + (b - 48)) * 60 + ((d - 48) * 10 + (e - 48))
read_mmss _ = 0

-- The label of a countdown reads back as the countdown when it is below 100 minutes, and as 99 minutes
-- and the same seconds from there on. It is five characters long.
pub read_mmss-fmt_mmss :
    (secs : ℕ)
    → (length (fmt_mmss secs) ≡ 5)
      × (read_mmss (fmt_mmss secs) ≡ (if ltb secs 6000 then secs else 5940 + secs % 60))
unfolding fmt_mmss
read_mmss-fmt_mmss secs = (refl, ground arith)
