-- ===== src/Uri/Tests.antt =====
-- The theorems on URIs at concrete hosts and ports.
use native.Mathlib.Decide.{dec_lt}
use mros_w24_solution.Common.{String, ℤ, ◌≡◌, refl}
use mros_w24_solution.Uri.{to_uri}
use mros_w24_solution.Uri.Injective.{to_uri-injective}

negative_port : to_uri "a:1" (ℤ.negsuc 41) ≡ "http://a:1:-42"
unfolding to_uri dec_lt
negative_port = refl

to_uri-injective_example : (◌≡◌ {A = String} "a:1" "a:1") × (ℤ.pos 23 ≡ ℤ.pos 23)
to_uri-injective_example = to_uri-injective "a:1" "a:1" (ℤ.pos 23) (ℤ.pos 23) refl

mediator_uri : to_uri "127.0.0.1" (ℤ.pos 13331) ≡ "http://127.0.0.1:13331"
unfolding to_uri dec_lt
mediator_uri = refl
