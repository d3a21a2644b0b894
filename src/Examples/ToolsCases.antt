-- ===== src/Examples/ToolsCases.antt =====
-- Paths of the file tools at concrete inputs (crates/tools/src/fs.rs).
use entheai.Base.{
  ℕ, ◌≤◌, ◌<◌, ◌⊎◌, false, length, nat_eq, ◌≡◌, refl, true, some, none, List, [], ◌∷◌, ◌++◌, all,
}
use entheai.Base.Text.{codes}
use entheai.Base.Paths.{Component, root_dir, normal, is_normal, components, split}
use entheai.Tools.{FileSystem, starts_with, ancestor, normalize, resolve_in_root}
use entheai.Tools.Resolve.{resolve_in_root-inside}
use entheai.Tools.Edit.{Text, Disk, edit_file}
use entheai.Tools.Edited.{Outcome, edit_file-Outcome}
use entheai.Tools.Shell.{
  RunShell, Pipes, Ready, read_loop, start, used, ends, run_shell, output, marker,
  run_shell-bounded,
}
use entheai.Tools.Search.{search, limited, all_hits, search-limited}
use entheai.MemoryPp.Cap.{byte_len}

-- Everything exists, and there are no links.
abbrev plain_files : FileSystem
plain_files = record { exists = λ _. true; canonicalize = λ p. some p }

abbrev work : List Component
work = normal (codes "w") ∷ []

abbrev a_path : List Component
a_path = root_dir ∷ normal (codes "w") ∷ normal (codes "b") ∷ []

a_path-found : resolve_in_root plain_files (root_dir ∷ work) (codes "a/../b") ≡ some a_path
unfolding resolve_in_root normalize components split
a_path-found = refl

resolve_in_root-inside_example :
    ((below : List Component) × (a_path ≡ root_dir ∷ work ++ below) × (all is_normal below ≡ true))
    × ((c : List Component)
        → plain_files.canonicalize (ancestor plain_files a_path a_path) ≡ some c
        → starts_with c (root_dir ∷ work) ≡ true)
resolve_in_root-inside_example =
    resolve_in_root-inside plain_files work (codes "a/../b") a_path refl a_path-found

-- A path that leaves the root is refused, though it comes back.
back_again : resolve_in_root plain_files (root_dir ∷ work) (codes "a/../../w") ≡ none
unfolding resolve_in_root normalize components split
back_again = refl

-- A disk of one file.
abbrev one_file : Disk
one_file = record {
  State = Text;
  view = λ w. plain_files;
  size = λ w p. some (length w);
  read_to_string = λ w p. some w;
  create_dir_all = λ w p. (true, w);
  write = λ w p t. (true, t);
}

edit_file-Outcome_example :
    Outcome one_file
      (resolve_in_root plain_files (root_dir ∷ work) (codes "a/../b"))
      (codes "let x")
      (codes "let y")
      (codes "let x = 1")
      (edit_file one_file
        (root_dir ∷ work)
        (some (codes "a/../b"))
        (some (codes "let x"))
        (some (codes "let y"))
        (codes "let x = 1"))
edit_file-Outcome_example =
    edit_file-Outcome one_file (root_dir ∷ work) (codes "a/../b") (codes "let x") (codes "let y")
      (codes "let x = 1")

abbrev small_shell : RunShell
small_shell = record { timeout_secs = 1; output_cap = 4 }

abbrev as_text : List ℕ → Text
as_text bs = bs

abbrev some_output : List Ready
some_output =
    Ready.stdout 104 (105 ∷ [])
    ∷ Ready.stdout_end
    ∷ Ready.stderr 33 (33 ∷ 33 ∷ [])
    ∷ Ready.stderr_end
    ∷ []

abbrev some_pipes : Pipes
some_pipes = record {
  stdout_buf = 104 ∷ 105 ∷ [];
  stderr_buf = 33 ∷ 33 ∷ [];
  stdout_open = false;
  stderr_open = true;
}

some_output-read : read_loop 4 (start as_text) some_output ≡ some some_pipes
unfolding read_loop
some_output-read = refl

run_shell-bounded_example :
    (used some_pipes ≤ 4)
    × (ends 4 some_pipes ≡ true)
    × ((t : Text) × (run_shell as_text small_shell (some (codes "0")) some_output ≡ some t)
        × (((t ≡ output as_text (codes "0") some_pipes)
              × (byte_len (output as_text (codes "0") some_pipes) ≤ 4))
            ⊎ ((body : Text) × (cut : Text) × (t ≡ body ++ marker as_text 4)
                × (output as_text (codes "0") some_pipes ≡ body ++ cut)
                × (byte_len body ≤ 4)
                × (4 < byte_len (output as_text (codes "0") some_pipes)))))
run_shell-bounded_example =
    run_shell-bounded as_text small_shell (codes "0") some_output some_pipes some_output-read

abbrev some_files : List (Text × List Text)
some_files =
    (codes "a.rs", codes "fn main" ∷ codes "let x" ∷ [])
    ∷ (codes "b.rs", codes "  let y" ∷ codes "let z" ∷ [])
    ∷ []

search-limited_example :
    search (codes "let") 2 some_files
    ≡ limited (codes "let") 2 (all_hits (codes "let") 2 some_files)
search-limited_example = search-limited (codes "let") 2 some_files
