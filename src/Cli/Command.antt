-- ===== src/Cli/Command.antt =====
-- main.go of vmux-cli: what its arguments ask for.
use vmux.Base.{
  ℕ, zero, suc, ◌%◌, ◌^◌, Bool, List, [], ◌∷◌, Option, none, some, String, String-eq, ◌==◌,
  if◌then◌else◌,
}

-- How main goes on. `fails` is fatal, with exit status 1, and `shows_usage` ends with status 2.
pub data Action : Type 0 where
  shows_usage fails lists : Action
  opens attaches : String → Action
  spawns : String → List String → Action

unfoldable pub without_dashes : List String → List String
without_dashes [] = []
without_dashes (a ∷ args) = if a == "--" then args else a ∷ args

unfoldable pub split_command : List String → String × List String
split_command [] = ("", [])
split_command (cmd ∷ args) = (cmd, args)

-- parseSpawnArgs
unfoldable pub parse_spawn_args : List String → String × List String
unfolding without_dashes split_command
parse_spawn_args args = split_command (without_dashes args)

-- runSpawn up to its call
unfoldable pub run_spawn : List String → Action
unfolding parse_spawn_args
run_spawn args =
    let (cmd, rest) = parse_spawn_args args in if cmd == "" then fails else spawns cmd rest

unfoldable pub with_first : (String → Action) → List String → Action
with_first action [] = fails
with_first action (a ∷ args) = action a

-- The switch of main on the arguments behind the program's name.
unfoldable pub chosen : String → List String → Action
unfolding run_spawn with_first
chosen verb args =
    if verb == "ls"
    then lists
    else (if verb == "open"
        then with_first opens args
        else (if verb == "spawn"
            then run_spawn args
            else (if verb == "attach" then with_first attaches args else shows_usage)))

-- main, with whether the socket has a path and can be dialled
unfoldable pub main : Bool → List String → Action
unfolding chosen
main connects [] = shows_usage
main connects (verb ∷ args) = if connects then chosen verb args else fails

-- ttySize of attach.go on what Sscanf reads of the output of stty, as rows and columns of 16 bits
unfoldable pub tty_size : Option (ℕ × ℕ) → ℕ × ℕ
tty_size none = (24, 80)
tty_size (some (zero, c)) = (24, 80)
tty_size (some (suc r, c)) = (suc r % 2 ^ 16, c % 2 ^ 16)
