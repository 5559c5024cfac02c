-- ===== src/Logging.antt =====
-- include/logging/logging.hpp and src/logging/logging.cpp: the level of the root logger, and the
-- contexts of a thread, which log4cxx keeps as a stack. `is_enabled` is the comparison of log4cxx
-- between the level of the root logger and that of a message.
pub mod Initialize
mod Tests
use mros_w24_solution.Common.{
  String, Bool, true, false, List, [], ◌∷◌, ◌++◌, Option, none, some, if◌then◌else◌, ◌==◌,
}

pub data Level : Type 0 where
  debug info warn : Level

-- A line of the output: its level, the contexts, the innermost first, and the message.
pub record Line : Type 0 where
  pub level : Level
  pub contexts : List String
  pub message : String

pub record Logger : Type 0 where
  pub level : Level
  -- `context_`
  pub context : Option String
  pub contexts : List String
  pub printed : List Line

-- The constructor
abbrev pub new_logger : Logger
new_logger = record { level = info; context = none; contexts = []; printed = [] }

-- The loop of `initialize` over the arguments behind the name of the program
unfoldable pub level_of : List String → Level → Level
level_of [] level = level
level_of (argument ∷ arguments) level =
    level_of arguments (if argument == "-v" then debug else level)

level_for : List String → Level → Level
unfolding level_of
level_for [] level = level
level_for (program ∷ arguments) level = level_of arguments level

-- The destructor of a `LogContext` drops the innermost context, whichever that is.
abbrev pub pop : List String → List String
pop [] = []
pop (name ∷ contexts) = contexts

-- The assignment to `context_`, which creates the new `LogContext` before it destroys the old one
abbrev replace : Option String → String → List String → List String
replace none name contexts = name ∷ contexts
replace (some old) name contexts = pop (name ∷ contexts)

-- `initialize`
pub initialize : List String → String → Logger → Logger
unfolding level_for
initialize arguments name l = record l {
  level = level_for arguments l.level;
  context = some name;
  contexts = replace l.context name l.contexts;
}

-- `debug`, `info` and `warn`
pub log : (Level → Level → Bool) → Level → String → Logger → Logger
log is_enabled level message l =
    if is_enabled l.level level
    then record l {
      printed =
          l.printed ++ record { level = level; contexts = l.contexts; message = message } ∷ [];
    }
    else l

-- A scope that begins with a `LogContext`
pub in_context : String → (Logger → Logger) → Logger → Logger
in_context name body l =
    let l' = body (record l { contexts = name ∷ l.contexts }) in
    record l' { contexts = pop l'.contexts }
