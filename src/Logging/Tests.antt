-- ===== src/Logging/Tests.antt =====
-- A program with `-v` that is set up twice.
use mros_w24_solution.Common.{Bool, true, [], ◌∷◌, ◌≡◌, refl}
use mros_w24_solution.Logging.{Level, Logger, info, new_logger, initialize, log, in_context}

abbrev all : Level → Level → Bool
all root level = true

abbrev twice : Logger
twice = initialize ("demo" ∷ "-v" ∷ []) "demo" (initialize ("demo" ∷ []) "MROS" new_logger)

first_name_stays :
    (in_context "inner" (log all info "hello") twice).printed
    ≡ record { level = info; contexts = "inner" ∷ "MROS" ∷ []; message = "hello" } ∷ []
unfolding initialize in_context log
first_name_stays = refl
