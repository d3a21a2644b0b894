-- ===== src/Tools/Shell.antt =====
-- crates/tools/src/shell.rs: how much of a command's output `run_shell` reads and returns. What `select!` takes up is a
-- list: a chunk of one of the pipes, its end or its error, or the deadline, which comes in the end. The
-- reading of bytes as a text, and its loss, is a parameter; the answer ends with the code of the exit.
use entheai.Base.{
  ℕ, zero, suc, ◌+◌, ◌-◌, ◌≤◌, ◌<◌, ◌≡◌, ◌⊎◌, inl, inr, refl, ap, ◌∙◌, subst, Bool, true, false,
  not, ◌||◌, Option, none, some, List, [], ◌∷◌, ◌++◌, length, length-append, take, ltb, leb, min,
  max, if◌then◌else◌, arith, Bool-cases, ◌>>=◌, ltb→lt,
}
use entheai.Base.Text.{codes}
use entheai.Base.Decimal.{decimal}
use entheai.MemoryPp.Cap.{
  byte_len, boundary_below, slice_to, fitting, slice_to-fitting, fitting-Stops,
}

abbrev pub Text : Type 0
Text = List ℕ

abbrev pub read_chunk : ℕ
read_chunk = 8192

pub record RunShell : Type 0 where
  pub timeout_secs : ℕ
  pub output_cap : ℕ

abbrev pub new : RunShell
new = record { timeout_secs = 120; output_cap = 100000 }

abbrev pub with_limits : RunShell → ℕ → ℕ → RunShell
with_limits r timeout_secs output_cap = record {
  timeout_secs = max timeout_secs 1;
  output_cap = output_cap;
}

-- What is ready: a chunk has its first byte and the others.
pub data Ready : Type 0 where
  deadline : Ready
  stdout stderr : ℕ → List ℕ → Ready
  stdout_end stderr_end : Ready

pub record Pipes : Type 0 where
  pub stdout_buf : List ℕ
  pub stderr_buf : List ℕ
  pub stdout_open : Bool
  pub stderr_open : Bool

abbrev pub used : Pipes → ℕ
used p = length p.stdout_buf + length p.stderr_buf

-- The bytes that one read takes.
abbrev pub room : ℕ → Pipes → ℕ
room limit p = min (limit - used p) read_chunk

unfoldable pub take_up : ℕ → Pipes → Ready → Pipes
take_up limit p deadline = p
take_up limit p (stdout b bs) =
    if p.stdout_open
    then record p { stdout_buf = p.stdout_buf ++ take (room limit p) (b ∷ bs) }
    else p
take_up limit p (stderr b bs) =
    if p.stderr_open
    then record p { stderr_buf = p.stderr_buf ++ take (room limit p) (b ∷ bs) }
    else p
take_up limit p stdout_end = record p { stdout_open = false }
take_up limit p stderr_end = record p { stderr_open = false }

abbrev pub is_deadline : Ready → Bool
is_deadline deadline = true
is_deadline _ = false

abbrev pub ends : ℕ → Pipes → Bool
ends limit p = not (p.stdout_open || p.stderr_open) || leb limit (used p)

-- The loop: the pipes, or `none` where the deadline passes.
unfoldable pub read_loop : ℕ → Pipes → List Ready → Option Pipes
unfolding take_up
read_loop limit p [] = if ends limit p then some p else none
read_loop limit p (r ∷ rs) =
    let rest = read_loop limit (take_up limit p r) rs in
    if ends limit p then some p else if is_deadline r then none else rest

none-some : (q : Pipes) → none ≡ some q → ⊥
none-some q h = ground (arith, h)

length-take_le : (n : ℕ) (xs : List ℕ) → length (take n xs) ≤ n
length-take_le zero xs = omega arith
length-take_le (suc n) [] = omega arith
length-take_le (suc n) (x ∷ xs) = omega (arith, length-take_le n xs)

used-take_up :
    (limit : ℕ) (p : Pipes) (r : Ready) → used p ≤ limit → used (take_up limit p r) ≤ limit
unfolding take_up
used-take_up limit p deadline h = h
used-take_up limit p (stdout b bs) h =
    let n = length-append p.stdout_buf (take (room limit p) (b ∷ bs)) in
    let m = length-take_le (room limit p) (b ∷ bs) in ground (arith, h, n, m)
used-take_up limit p (stderr b bs) h =
    let n = length-append p.stderr_buf (take (room limit p) (b ∷ bs)) in
    let m = length-take_le (room limit p) (b ∷ bs) in ground (arith, h, n, m)
used-take_up limit p stdout_end h = h
used-take_up limit p stderr_end h = h

used-read_loop :
    (limit : ℕ) (p q : Pipes) (rs : List Ready)
    → used p ≤ limit
    → read_loop limit p rs ≡ some q
    → (used q ≤ limit) × (ends limit q ≡ true)
unfolding read_loop
used-read_loop limit p q [] h e = elim (Bool-cases (ends limit p)) [
  | inl f ↦
      let same : p ≡ q = ground (arith, e, f) in
      (
        subst (λ (x : Pipes). used x ≤ limit) same h,
        subst (λ (x : Pipes). ends limit x ≡ true) same f,
      )
  | inr f ↦ absurd (none-some q (ground (arith, e, f)))
]
used-read_loop limit p q (r ∷ rs) h e = elim (Bool-cases (ends limit p)) [
  | inl f ↦
      let same : p ≡ q = ground (arith, e, f) in
      (
        subst (λ (x : Pipes). used x ≤ limit) same h,
        subst (λ (x : Pipes). ends limit x ≡ true) same f,
      )
  | inr f ↦ elim (Bool-cases (is_deadline r)) [
    | inl g ↦ absurd (none-some q (ground (arith, e, f, g)))
    | inr g ↦
        used-read_loop limit (take_up limit p r) q rs (used-take_up limit p r h)
          (ground (arith, e, f, g))
  ]
]

module _ (from_utf8_lossy : List ℕ → Text) where
  -- `signed` is the exit code in decimal, with its sign.
  abbrev pub stderr_part : List ℕ → Text
  stderr_part [] = []
  stderr_part (b ∷ bs) = (10 ∷ codes "[stderr]") ++ (10 ∷ from_utf8_lossy (b ∷ bs))

  unfoldable pub output : Text → Pipes → Text
  output signed p =
      from_utf8_lossy p.stdout_buf
      ++ (stderr_part p.stderr_buf ++ ((10 ∷ codes "[exit: ") ++ (signed ++ codes "]")))

  abbrev pub marker : ℕ → Text
  marker limit =
      (10 ∷ codes "...[output truncated at ") ++ (codes (decimal limit) ++ codes " bytes]")

  -- `truncate`, behind the loop to a boundary; `none` were its panic.
  unfoldable pub truncated : ℕ → Text → Option Text
  truncated limit out =
      if ltb limit (byte_len out)
      then slice_to out (boundary_below out limit) >>= (λ t. some (t ++ marker limit))
      else some out

  abbrev pub start : Pipes
  start = record { stdout_buf = []; stderr_buf = []; stdout_open = true; stderr_open = true }

  -- `none` where the deadline passes or the wait for the exit fails, which is an error.
  abbrev pub finished : ℕ → Option Text → Option Pipes → Option Text
  finished limit status none = none
  finished limit none (some p) = none
  finished limit (some signed) (some p) = truncated limit (output signed p)

  unfoldable pub run_shell : RunShell → Option Text → List Ready → Option Text
  unfolding read_loop output truncated
  run_shell r status rs = finished r.output_cap status (read_loop r.output_cap start rs)

  truncated-bounded :
      (limit : ℕ) (out : Text)
      → (t : Text) × (truncated limit out ≡ some t)
        × (((t ≡ out) × (byte_len out ≤ limit))
            ⊎ ((body : Text) × (cut : Text) × (t ≡ body ++ marker limit)
                × (out ≡ body ++ cut)
                × (byte_len body ≤ limit)
                × (limit < byte_len out)))
  unfolding truncated
  truncated-bounded limit out = elim (Bool-cases (ltb limit (byte_len out))) [
    | inl e ↦
        let (cut, split, small, _) = fitting-Stops out limit in
        (
          fitting out limit ++ marker limit,
          rw (e, slice_to-fitting out limit) refl,
          inr (fitting out limit, cut, refl, split, small, ltb→lt limit (byte_len out) e),
        )
    | inr e ↦ (out, rw e refl, inl (refl, ground (arith, e)))
  ]

  -- A command that is not late and exits gives an answer, without a panic: of the pipes no more bytes
  -- were read than the cap, until both ended or the cap was reached, and of the text that
  -- they make the answer has all, or a beginning of at most so many bytes and a mark.
  pub run_shell-bounded :
      (r : RunShell) (signed : Text) (rs : List Ready) (p : Pipes)
      → read_loop r.output_cap start rs ≡ some p
      → (used p ≤ r.output_cap)
        × (ends r.output_cap p ≡ true)
        × ((t : Text) × (run_shell r (some signed) rs ≡ some t)
            × (((t ≡ output signed p) × (byte_len (output signed p) ≤ r.output_cap))
                ⊎ ((body : Text) × (cut : Text) × (t ≡ body ++ marker r.output_cap)
                    × (output signed p ≡ body ++ cut)
                    × (byte_len body ≤ r.output_cap)
                    × (r.output_cap < byte_len (output signed p)))))
  unfolding run_shell
  run_shell-bounded r signed rs p h =
      let (small, whole) = used-read_loop r.output_cap start p rs (omega arith) h in
      let (t, given, what) = truncated-bounded r.output_cap (output signed p) in
      (small, whole, (t, ap (finished r.output_cap (some signed)) h ∙ given, what))
