-- ===== src/Uri.antt =====
-- src/mros/utils/utils.cpp: the URI of a host and a port, under which the mediator keeps a node and
-- a subscriber keeps a publisher.
pub mod Injective
mod Tests
use Prim.Native.Char.{Char}
use Prim.Native.String
use Prim.Native.String.{◌++◌}
use mathlib.Core.Logic.{dite}
use mathlib.Core.WellFounded.{Acc, WellFounded}
use native.Mathlib.Decide.{dec_lt}
use mros_w24_solution.Common.{
  ℕ, zero, suc, ◌/◌, ◌%◌, ◌+◌, ◌<◌, String, ℤ, ◌≡◌, refl, arith, nat_eq, if◌then◌else◌,
}

pub acc_below : (k n : ℕ) → n < k → Acc ◌<◌ n
acc_below zero n h = absurd (omega arith)
acc_below (suc k) n h = Acc.intro n (λ m lt. acc_below k m (omega arith))

lt_wf : WellFounded ◌<◌
unfolding acc_below
lt_wf = record { apply = λ n. acc_below (suc n) n (omega arith) }

-- The digit of a number below ten.
digit : ℕ → Char
digit zero = "0"
digit (suc zero) = "1"
digit (suc (suc zero)) = "2"
digit (suc (suc (suc zero))) = "3"
digit (suc (suc (suc (suc zero)))) = "4"
digit (suc (suc (suc (suc (suc zero))))) = "5"
digit (suc (suc (suc (suc (suc (suc zero)))))) = "6"
digit (suc (suc (suc (suc (suc (suc (suc zero))))))) = "7"
digit (suc (suc (suc (suc (suc (suc (suc (suc zero)))))))) = "8"
digit _ = "9"

abbrev pub tenth_lt : {n : ℕ} → 0 < n → n / 10 < n
tenth_lt h = omega arith

-- The decimal digits of a number in front of a text; none for 0.
emit : (n : ℕ) → Acc ◌<◌ n → String → String
emit n (Acc.intro _ smaller) out =
    dite (dec_lt 0 n)
      (λ h. emit (n / 10) (smaller (n / 10) (tenth_lt h)) (String.◌∷◌ (digit (n % 10)) out))
      (λ _. out)

decimal : ℕ → String
unfolding emit lt_wf digit
decimal zero = "0"
decimal (suc n) = emit (suc n) (lt_wf.apply (suc n)) ""

-- `std::to_string` of an int
pub to_string : ℤ → String
unfolding decimal
to_string (ℤ.pos n) = decimal n
to_string (ℤ.negsuc n) = "-" ++ decimal (suc n)

-- `toURI`
unfoldable pub to_uri : String → ℤ → String
unfolding to_string
to_uri host port = "http://" ++ (host ++ (":" ++ to_string port))
