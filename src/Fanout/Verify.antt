-- ===== src/Fanout/Verify.antt =====
-- crates/orchestrator/src/lib.rs: the seal of a verified diff, and `verify_worktree`; and
-- `resolve_verify` of crates/config/src/lib.rs.
use entheai.Base.{
  ℕ, zero, suc, ◌-◌, ◌/◌, ◌%◌, String, Bool, true, false, Option, none, some, List, [], ◌∷◌, ◌++◌,
  length, leb, if◌then◌else◌,
}
use entheai.Base.Decimal.{◌+s+◌}
use entheai.Base.Text.{codes}
use Prim.Native.Char.{Char}
use entheai.Fanout.{
  Host, Config, MergeSeal, VerifyStatus, skipped, unverifiable, passed, failed, ShellOutput, output,
  spawn_error,
}
use entheai.Fanout.Decompose.{or_else}

abbrev char_at : ℕ → String → Char
char_at n String.[] = "0"
char_at zero (String.◌∷◌ c s) = c
char_at (suc n) (String.◌∷◌ c s) = char_at n s

abbrev hex_digit : ℕ → Char
hex_digit n = char_at n "0123456789abcdef"

-- `{b:02x}` of each byte.
abbrev pub hex : List ℕ → String
hex [] = String.[]
hex (b ∷ bs) = String.◌∷◌ (hex_digit (b / 16)) (String.◌∷◌ (hex_digit (b % 16)) (hex bs))

-- The characters from a place on.
abbrev drop_chars : ℕ → String → String
drop_chars zero s = s
drop_chars (suc n) String.[] = String.[]
drop_chars (suc n) (String.◌∷◌ c s) = drop_chars n s

unfoldable pub tail_chars : String → ℕ → String
tail_chars s n = let total = length (codes s) in if leb total n then s else drop_chars (total - n) s

module _ (H : Host) where
  open H use {git, sh, raw_diff, from_utf8_lossy, sha256, is_file}

  abbrev pub sha256_hex : List ℕ → String
  sha256_hex bytes = hex (sha256 bytes)

  unfoldable pub compute : List ℕ → List ℕ → String → MergeSeal
  compute diff log verify_cmd = record {
    diff_sha256 = sha256_hex diff;
    log_sha256 = sha256_hex log;
    seal = sha256_hex (codes (sha256_hex diff +s+ ":" +s+ sha256_hex log));
    verify_cmd = verify_cmd;
  }

  -- `resolve_verify`.
  unfoldable pub resolve_verify : Config → String → git.Repo → Option String
  resolve_verify config root r = elim config.verify [
    | some cmd ↦ some cmd
    | none ↦ if is_file (root +s+ "/scripts/check.sh") r then some "./scripts/check.sh" else none
  ]

  -- The command has run: what its output means.
  abbrev pub judge : String → String → String → ShellOutput → git.Repo → git.Repo × VerifyStatus
  judge path base cmd (spawn_error e) r =
      (r, failed ("failed to spawn verify command `" +s+ cmd +s+ "`: " +s+ e))
  judge path base cmd (output true stderr stdout) r =
      let (after, diff) = raw_diff path base r in
      (after, passed (compute (or_else [] diff) (stderr ++ stdout) cmd))
  judge path base cmd (output false stderr stdout) r =
      (r, failed (from_utf8_lossy stderr +s+ from_utf8_lossy stdout))

  unfoldable pub verify_worktree :
      String → String → Option String → Bool → git.Repo → git.Repo × VerifyStatus
  unfolding compute
  verify_worktree path base none required r = (r, if required then unverifiable else skipped)
  verify_worktree path base (some cmd) required r =
      let (after, ended) = sh path cmd r in judge path base cmd ended after
