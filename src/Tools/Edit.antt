-- ===== src/Tools/Edit.antt =====
-- crates/tools/src/fs.rs: the tools `edit_file`, `read_file` and `write_file`. The file system is a parameter on one state;
-- a text is a list of code points, and the text of an answer is left out.
use entheai.Base.{
  ℕ, zero, suc, ◌+◌, ◌-◌, ◌*◌, Bool, true, false, Option, none, some, List, [], ◌∷◌, ◌++◌, length,
  drop, ltb, ◌==◌, if◌then◌else◌,
}
use entheai.Base.Text.{starts_with}
use entheai.Base.Paths.{Component}
use entheai.Tools.{FileSystem, resolve_in_root, pop}

abbrev pub Text : Type 0
Text = List ℕ

-- What the tools ask of the system.
pub record Disk : Type 1 where
  pub State : Type 0
  pub view : State → FileSystem
  pub size : State → List Component → Option ℕ
  pub read_to_string : State → List Component → Option Text
  pub create_dir_all : State → List Component → Bool × State
  pub write : State → List Component → Text → Bool × State

pub data ToolError : Type 0 where
  path_escape missing_arg io not_found not_unique : ToolError

pub data Reply : Type 0 where
  done : Text → Reply
  error : ToolError → Reply

abbrev pub max_file_bytes : ℕ
max_file_bytes = 10 * 1024 * 1024

-- `content.matches(old_str).count()`: matches that do not overlap, from the left. The number is that of the
-- code points that the last match still covers.
unfoldable pub count_from : Text → ℕ → Text → ℕ
unfolding starts_with
count_from p skip [] = 0
count_from p (suc skip) (c ∷ s) = count_from p skip s
count_from p zero (c ∷ s) =
    let here = starts_with (c ∷ s) p in
    (if here then 1 else 0) + count_from p (if here then length p - 1 else 0) s

-- An empty text matches at each boundary of a code point.
unfoldable pub count_matches : Text → Text → ℕ
unfolding count_from
count_matches [] s = length s + 1
count_matches (c ∷ p) s = count_from (c ∷ p) 0 s

-- `content.replacen(old_str, new_str, 1)`.
unfoldable pub replace_first : Text → Text → Text → Text
unfolding starts_with
replace_first p q [] = if starts_with [] p then q else []
replace_first p q (c ∷ s) =
    let rest = replace_first p q s in
    if starts_with (c ∷ s) p then q ++ drop (length p) (c ∷ s) else c ∷ rest

module _ (d : Disk) where
  open d use {State, view, size, read_to_string, create_dir_all, write}

  abbrev pub written : Bool × State → Reply × State
  written (true, w) = (done [], w)
  written (false, w) = (error io, w)

  unfoldable pub edit_content : List Component → Text → Text → Option Text → State → Reply × State
  edit_content p old_str new_str none w = (error io, w)
  edit_content p old_str new_str (some content) w =
      let count = count_matches old_str content in
      if count == 0
      then (error not_found, w)
      else if ltb 1 count
      then (error not_unique, w)
      else written (write w p (replace_first old_str new_str content))

  abbrev pub edit_at : Option (List Component) → Text → Text → State → Reply × State
  edit_at none old_str new_str w = (error path_escape, w)
  edit_at (some p) old_str new_str w = edit_content p old_str new_str (read_to_string w p) w

  -- `EditFile::call`: the arguments that are texts.
  unfoldable pub edit_file :
      List Component → Option Text → Option Text → Option Text → State → Reply × State
  unfolding edit_content
  edit_file root (some path) (some old_str) (some new_str) w =
      edit_at (resolve_in_root (view w) root path) old_str new_str w
  edit_file root _ _ _ w = (error missing_arg, w)

  abbrev pub read_or : Option Text → Reply
  read_or none = error io
  read_or (some t) = done t

  abbrev pub read_within : Option ℕ → Option Text → Reply
  read_within none t = error io
  read_within (some n) t = if ltb max_file_bytes n then error io else read_or t

  abbrev pub read_at : Option (List Component) → State → Reply
  read_at none w = error path_escape
  read_at (some p) w = read_within (size w p) (read_to_string w p)

  unfoldable pub read_file : List Component → Option Text → State → Reply
  read_file root none w = error missing_arg
  read_file root (some path) w = read_at (resolve_in_root (view w) root path) w

  abbrev pub write_into : List Component → Text → Bool × State → Reply × State
  write_into p content (false, w) = (error io, w)
  write_into p content (true, w) = written (write w p content)

  abbrev pub write_at : Option (List Component) → Text → State → Reply × State
  write_at none content w = (error path_escape, w)
  write_at (some p) content w = write_into p content (create_dir_all w (pop p))

  unfoldable pub write_file : List Component → Option Text → Option Text → State → Reply × State
  write_file root (some path) (some content) w =
      write_at (resolve_in_root (view w) root path) content w
  write_file root _ _ w = (error missing_arg, w)
