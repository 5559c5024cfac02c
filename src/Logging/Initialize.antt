-- ===== src/Logging/Initialize.antt =====
-- What `initialize` of src/logging/logging.cpp does to the level and to the contexts.
use mros_w24_solution.Common.{String, List, [], ◌∷◌, if◌then◌else◌, ◌==◌, ◌≡◌, refl, ◌∙◌, arith}
use mros_w24_solution.Containers.NameSet.{contains}
use mros_w24_solution.Logging.{Logger, Level, debug, level_of, level_for, initialize}

level_of_lem :
    (arguments : List String) (level : Level)
    → level_of arguments level ≡ (if contains "-v" arguments then debug else level)
unfolding level_of contains
level_of_lem [] level = refl
level_of_lem (argument ∷ arguments) level =
    level_of_lem arguments (if argument == "-v" then debug else level) ∙ ground arith

-- Once `-v` has stood behind the name of the program, in this call or an earlier one, debug messages
-- are on.
pub initialize-level :
    (program name : String) (arguments : List String) (l : Logger)
    → (initialize (program ∷ arguments) name l).level
      ≡ (if contains "-v" arguments then debug else l.level)
unfolding initialize level_for
initialize-level program name arguments l = level_of_lem arguments l.level

-- A second call keeps the contexts as they are: the first name stays in front of the messages.
pub initialize-initialize :
    (arguments arguments' : List String) (name name' : String) (l : Logger)
    → (initialize arguments' name' (initialize arguments name l)).contexts
      ≡ (initialize arguments name l).contexts
unfolding initialize
initialize-initialize arguments arguments' name name' l = refl
