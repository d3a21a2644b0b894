-- ===== src/Pomodoro.antt =====
-- crates/viz/src/pomodoro.rs: the timer as a function of the seconds elapsed, and its label. The sum
-- of the two durations is `u64` arithmetic, which is taken not to overflow.
pub mod Timer
use entheai.Base.{
  ℕ, ◌+◌, ◌-◌, ◌*◌, ◌/◌, ◌%◌, Bool, List, [], ◌∷◌, ◌++◌, min, ltb, ◌==◌, if◌then◌else◌,
}
use entheai.Base.Text.{codes}

pub data PomoPhase : Type 0 where
  work break : PomoPhase

pub record PomodoroView : Type 0 where
  pub phase : PomoPhase
  pub remaining_secs : ℕ
  pub cycle : ℕ

pub record Pomodoro : Type 0 where
  pub work_secs : ℕ
  pub break_secs : ℕ

abbrev pub default : Pomodoro
default = record { work_secs = 25 * 60; break_secs = 5 * 60 }

unfoldable pub at : Pomodoro → ℕ → PomodoroView
at p elapsed_secs =
    let period = p.work_secs + p.break_secs in
    let t = elapsed_secs % period in
    if period == 0
    then record { phase = work; remaining_secs = 0; cycle = 0 }
    else if ltb t p.work_secs
    then record { phase = work; remaining_secs = p.work_secs - t; cycle = elapsed_secs / period }
    else record { phase = break; remaining_secs = period - t; cycle = elapsed_secs / period }

-- `{:02}` of a number below 100.
abbrev pub two_digits : ℕ → List ℕ
two_digits n = (48 + n / 10) ∷ (48 + n % 10) ∷ []

unfoldable pub fmt_mmss : ℕ → List ℕ
fmt_mmss secs = two_digits (min (secs / 60) 99) ++ b':' ∷ two_digits (secs % 60)

abbrev pub phase_name : PomoPhase → List ℕ
phase_name work = codes "WORK"
phase_name break = codes "BREAK"

unfoldable pub label : PomodoroView → List ℕ
unfolding fmt_mmss
label view = phase_name view.phase ++ b' ' ∷ fmt_mmss view.remaining_secs
