-- ===== src/Uri/Injective.antt =====
-- The URI of src/mros/utils/utils.cpp determines its host and its port.
use Prim.Native.Char.{Char, code}
use Prim.Native.String.{◌++◌}
use Prim.Native.String.append
use mathlib.Core.Path.{ap₂}
use mathlib.Core.WellFounded.{Acc}
use mathlib.Core.Logic.{dif_pos, dif_neg}
use native.Mathlib.Decide.{dec_lt}
use native.Mathlib.Bridge.{le_prop}
use text.Mathlib.TextLemmas.{append_cancel_left, cons-eq-cons, nil≢cons}
use mros_w24_solution.Common.{
  ℕ, zero, suc, ◌+◌, ◌-◌, ◌*◌, ◌/◌, ◌%◌, ◌<◌, String, ℤ, ◌≡◌, ◌≢◌, refl, sym, ap, ◌∙◌, arith,
}
use mros_w24_solution.Uri.{digit, emit, tenth_lt, lt_wf, decimal, to_string, to_uri}

-- The number that a run of digits continues.
read : ℕ → String → ℕ
read acc String.[] = acc
read acc (String.◌∷◌ c s) = read (acc * 10 + (code c - 48)) s

-- A text of digits and no other characters.
abbrev IsDigits : String → Type 0
IsDigits String.[] = Unit {0}
IsDigits (String.◌∷◌ c s) = (48 + (code c - 48) ≡ code c) × (code c - 48 < 10) × IsDigits s

code-digit : (d : ℕ) → d < 10 → code (digit d) ≡ 48 + d
unfolding digit
code-digit zero h = refl
code-digit (suc zero) h = refl
code-digit (suc (suc zero)) h = refl
code-digit (suc (suc (suc zero))) h = refl
code-digit (suc (suc (suc (suc zero)))) h = refl
code-digit (suc (suc (suc (suc (suc zero))))) h = refl
code-digit (suc (suc (suc (suc (suc (suc zero)))))) h = refl
code-digit (suc (suc (suc (suc (suc (suc (suc zero))))))) h = refl
code-digit (suc (suc (suc (suc (suc (suc (suc (suc zero)))))))) h = refl
code-digit (suc (suc (suc (suc (suc (suc (suc (suc (suc zero))))))))) h = refl
code-digit (suc (suc (suc (suc (suc (suc (suc (suc (suc (suc n)))))))))) h = absurd (omega arith)

emit_zero : (n : ℕ) (w : Acc ◌<◌ n) (out : String) → ¬ (0 < n) → emit n w out ≡ out
unfolding emit
emit_zero n (Acc.intro _ smaller) out h = dif_neg (dec_lt 0 n) h _ _

emit_pos :
    (n : ℕ) (w : Acc ◌<◌ n) (out : String)
    → (h : 0 < n)
    → (v : Acc ◌<◌ (n / 10)) × (emit n w out ≡ emit (n / 10) v (String.◌∷◌ (digit (n % 10)) out))
unfolding emit
emit_pos n (Acc.intro _ smaller) out h =
    (smaller (n / 10) (tenth_lt h), dif_pos (dec_lt 0 n) le_prop h _ _)

-- Reading what `emit` wrote gives the number back, and then the text behind it.
read-emit : (k n : ℕ) (w : Acc ◌<◌ n) (out : String) → n < k → read 0 (emit n w out) ≡ read n out
read-emit zero n w out lt = absurd (omega arith)
read-emit (suc k) n w out lt = elim (dec_lt 0 n) [
  | yes h ↦
      let (v, e) = emit_pos n w out h in
      rw e (
        read-emit k (n / 10) v _ (omega arith)
        ∙ unfold read in
          rw (code-digit (n % 10) (omega arith)) (ap (λ (x : ℕ). read x out) (omega arith)))
  | no h ↦ rw (emit_zero n w out h) (ap (λ (x : ℕ). read x out) (omega arith))
]

IsDigits-emit :
    (k n : ℕ) (w : Acc ◌<◌ n) (out : String) → n < k → IsDigits out → IsDigits (emit n w out)
IsDigits-emit zero n w out lt d = absurd (omega arith)
IsDigits-emit (suc k) n w out lt d = elim (dec_lt 0 n) [
  | yes h ↦
      let (v, e) = emit_pos n w out h in
      rw e (
        IsDigits-emit k (n / 10) v _ (omega arith)
          (omega (arith, code-digit (n % 10)), omega (arith, code-digit (n % 10)), d))
  | no h ↦ rw (emit_zero n w out h) d
]

read-decimal : (n : ℕ) → read 0 (decimal n) ≡ n
unfolding decimal read
read-decimal zero = refl
read-decimal (suc n) = read-emit (suc (suc n)) (suc n) (lt_wf.apply (suc n)) "" (omega arith)

IsDigits-decimal : (n : ℕ) → IsDigits (decimal n)
unfolding decimal
IsDigits-decimal zero = omega arith
IsDigits-decimal (suc n) =
    IsDigits-emit (suc (suc n)) (suc n) (lt_wf.apply (suc n)) "" (omega arith) tt

-- A text without a colon.
abbrev NoColon : String → Type 0
NoColon String.[] = Unit {0}
NoColon (String.◌∷◌ c s) = (code c ≢ 58) × NoColon s

NoColon-digits : (s : String) → IsDigits s → NoColon s
NoColon-digits String.[] d = tt
NoColon-digits (String.◌∷◌ c s) d = (λ e. omega arith, NoColon-digits s d.2)

abbrev minus : Char
minus = "-"

to_string-pos : (n : ℕ) → to_string (ℤ.pos n) ≡ decimal n
unfolding to_string
to_string-pos n = refl

to_string-negsuc : (n : ℕ) → to_string (ℤ.negsuc n) ≡ String.◌∷◌ minus (decimal (suc n))
unfolding to_string
to_string-negsuc n =
    append.cons minus "" (decimal (suc n)) ∙ ap (String.◌∷◌ minus) (append.nil (decimal (suc n)))

NoColon-to_string : (port : ℤ) → NoColon (to_string port)
NoColon-to_string (ℤ.pos n) = unfold to_string in NoColon-digits (decimal n) (IsDigits-decimal n)
NoColon-to_string (ℤ.negsuc n) =
    rw (to_string-negsuc n) (λ e. omega arith, NoColon-digits _ (IsDigits-decimal (suc n)))

minus_not_digit : (s t : String) → IsDigits s → s ≢ String.◌∷◌ minus t
minus_not_digit String.[] t d e = nil≢cons e
minus_not_digit (String.◌∷◌ c s) t d e = absurd (omega (arith, d.0, ap code (cons-eq-cons.0 e).0))

to_string-injective : (p q : ℤ) → to_string p ≡ to_string q → p ≡ q
to_string-injective (ℤ.pos n) (ℤ.pos k) e = ap ℤ.pos (
    sym (read-decimal n)
    ∙ ap (read 0) (sym (to_string-pos n) ∙ e ∙ to_string-pos k)
    ∙ read-decimal k)
to_string-injective (ℤ.pos n) (ℤ.negsuc k) e = absurd (
    minus_not_digit (decimal n) _ (IsDigits-decimal n)
      (sym (to_string-pos n) ∙ e ∙ to_string-negsuc k))
to_string-injective (ℤ.negsuc n) (ℤ.pos k) e = absurd (
    minus_not_digit (decimal k) _ (IsDigits-decimal k)
      (sym (to_string-pos k) ∙ sym e ∙ to_string-negsuc n))
to_string-injective (ℤ.negsuc n) (ℤ.negsuc k) e =
    let same = (cons-eq-cons.0 (sym (to_string-negsuc n) ∙ e ∙ to_string-negsuc k)).1 in
    ap ℤ.negsuc
      (omega (arith, sym (read-decimal (suc n)) ∙ ap (read 0) same ∙ read-decimal (suc k)))

abbrev colon : Char
colon = ":"

-- `:` in front of a text
abbrev after_colon : String → String
after_colon s = ":" ++ s

after_colon_lem : (s : String) → after_colon s ≡ String.◌∷◌ colon s
after_colon_lem s = append.cons colon "" s ∙ ap (String.◌∷◌ colon) (append.nil s)

colon_later :
    (c : Char) (s p q : String) → NoColon q → String.◌∷◌ colon q ≢ String.◌∷◌ c (s ++ after_colon p)
colon_later c s p q n e = no_colon_inside s q n (cons-eq-cons.0 e).1
  where
    no_colon_inside : (s q : String) → NoColon q → q ≢ s ++ after_colon p
    no_colon_inside String.[] String.[] n e = nil≢cons (e ∙ append.nil _ ∙ after_colon_lem p)
    no_colon_inside String.[] (String.◌∷◌ d q) n e =
        n.0 (ap code (cons-eq-cons.0 (e ∙ append.nil _ ∙ after_colon_lem p)).0)
    no_colon_inside (String.◌∷◌ c s) String.[] n e = nil≢cons (e ∙ append.cons c s _)
    no_colon_inside (String.◌∷◌ c s) (String.◌∷◌ d q) n e =
        no_colon_inside s q n.1 (cons-eq-cons.0 (e ∙ append.cons c s _)).1

-- The last colon of a text splits it in one way.
split_at_colon :
    (s t p q : String)
    → NoColon p
    → NoColon q
    → s ++ after_colon p ≡ t ++ after_colon q
    → (s ≡ t) × (p ≡ q)
split_at_colon String.[] String.[] p q m n e = (
  refl,
  (cons-eq-cons.0
      (sym (after_colon_lem p) ∙ sym (append.nil _) ∙ e ∙ append.nil _ ∙ after_colon_lem q)).1,
)
split_at_colon String.[] (String.◌∷◌ d t) p q m n e =
    absurd
      (colon_later d t q p m (sym (after_colon_lem p) ∙ sym (append.nil _) ∙ e ∙ append.cons d t _))
split_at_colon (String.◌∷◌ c s) String.[] p q m n e = absurd (
    colon_later c s p q n
      (sym (after_colon_lem q) ∙ sym (append.nil _) ∙ sym e ∙ append.cons c s _))
split_at_colon (String.◌∷◌ c s) (String.◌∷◌ d t) p q m n e =
    let (head, tail) = cons-eq-cons.0 (sym (append.cons c s _) ∙ e ∙ append.cons d t _) in
    let (same, rest) = split_at_colon s t p q m n tail in (ap₂ String.◌∷◌ head same, rest)

-- Two pairs of a host and a port with one URI are the same pair, whatever the hosts hold and
-- also for ports that no socket has.
pub to_uri-injective :
    (host host' : String) (port port' : ℤ)
    → to_uri host port ≡ to_uri host' port'
    → (host ≡ host') × (port ≡ port')
unfolding to_uri
to_uri-injective host host' port port' e =
    let (same, ports) =
      split_at_colon host host' (to_string port) (to_string port') (NoColon-to_string port)
        (NoColon-to_string port') (append_cancel_left "http://" _ _ e) in
    (same, to_string-injective port port' ports)
