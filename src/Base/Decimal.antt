-- ===== src/Base/Decimal.antt =====
-- Decimal numerals in templates, and texts that a colon takes apart.
use Prim.Native.Nat.{ℕ, zero, suc, ◌+◌, ◌*◌, ◌/◌, ◌%◌, ◌<◌}
use Prim.Native.Char.{Char, code}
use Prim.Native.String.{String, [], ◌∷◌, ◌++◌}
use mathlib.Core.Path.{◌≡◌, refl, sym, ap, ◌∙◌}
use mathlib.Core.Bool.{Bool, true, false, ◌||◌}
use native.Mathlib.Omega.{arith}
use text.Mathlib.TextLemmas.{cons-eq-cons, nil-append, cons-append, append_cancel_left}
use codexport.Base.Tests.{ltb, nat_beq, if◌then◌else◌}

digit : ℕ → Char
digit zero = "0"
digit (suc zero) = "1"
digit (suc (suc zero)) = "2"
digit (suc (suc (suc zero))) = "3"
digit (suc (suc (suc (suc zero)))) = "4"
digit (suc (suc (suc (suc (suc zero))))) = "5"
digit (suc (suc (suc (suc (suc (suc zero)))))) = "6"
digit (suc (suc (suc (suc (suc (suc (suc zero))))))) = "7"
digit (suc (suc (suc (suc (suc (suc (suc (suc zero)))))))) = "8"
digit _ = "9"

-- The digits of `n` before `rest`. A number has no more digits than its value plus one.
digits_from : ℕ → ℕ → String → String
unfolding digit
digits_from zero n rest = rest
digits_from (suc f) n rest =
    let here = digit (n % 10) ∷ rest in
    let more = digits_from f (n / 10) here in if ltb n 10 then here else more

-- A number in a template.
unfoldable pub decimal : ℕ → String
unfolding digits_from
decimal n = digits_from (suc n) n ""

decimal_year : decimal 2026 ≡ "2026"
unfolding decimal
decimal_year = refl

-- The number that digits write after the digits of `acc`.
value_from : ℕ → String → ℕ
value_from acc [] = acc
value_from acc (c ∷ s) = value_from (acc * 10 + (code c % 48)) s

value-digit : (n : ℕ) → n < 10 → code (digit n) % 48 ≡ n
unfolding digit
value-digit zero h = refl
value-digit (suc zero) h = refl
value-digit (suc (suc zero)) h = refl
value-digit (suc (suc (suc zero))) h = refl
value-digit (suc (suc (suc (suc zero)))) h = refl
value-digit (suc (suc (suc (suc (suc zero))))) h = refl
value-digit (suc (suc (suc (suc (suc (suc zero)))))) h = refl
value-digit (suc (suc (suc (suc (suc (suc (suc zero))))))) h = refl
value-digit (suc (suc (suc (suc (suc (suc (suc (suc zero)))))))) h = refl
value-digit (suc (suc (suc (suc (suc (suc (suc (suc (suc zero))))))))) h = refl
value-digit (suc (suc (suc (suc (suc (suc (suc (suc (suc (suc n)))))))))) h = absurd (omega arith)

value-digits_from :
    (f n : ℕ) (rest : String) → n < f → value_from 0 (digits_from f n rest) ≡ value_from n rest
unfolding digits_from value_from
value-digits_from zero n rest h = absurd (omega arith)
value-digits_from (suc f) n rest h =
    ground (arith, value-digits_from f (n / 10) (digit (n % 10) ∷ rest), value-digit (n % 10))

-- Numerals tell numbers apart.
pub eq_of_decimal : (m n : ℕ) → decimal m ≡ decimal n → m ≡ n
unfolding decimal value_from
eq_of_decimal m n e =
    sym (value-digits_from (suc m) m "" (omega arith))
    ∙ ap (value_from 0) e
    ∙ value-digits_from (suc n) n "" (omega arith)

-- A colon stands in a text.
unfoldable pub has_colon : String → Bool
has_colon [] = false
has_colon (c ∷ s) = nat_beq (code c) 58 || has_colon s

digit-no_colon : (n : ℕ) → nat_beq (code (digit n)) 58 ≡ false
unfolding digit
digit-no_colon zero = refl
digit-no_colon (suc zero) = refl
digit-no_colon (suc (suc zero)) = refl
digit-no_colon (suc (suc (suc zero))) = refl
digit-no_colon (suc (suc (suc (suc zero)))) = refl
digit-no_colon (suc (suc (suc (suc (suc zero))))) = refl
digit-no_colon (suc (suc (suc (suc (suc (suc zero)))))) = refl
digit-no_colon (suc (suc (suc (suc (suc (suc (suc zero))))))) = refl
digit-no_colon (suc (suc (suc (suc (suc (suc (suc (suc zero)))))))) = refl
digit-no_colon (suc (suc (suc (suc (suc (suc (suc (suc (suc n))))))))) = refl

digits_from-no_colon :
    (f n : ℕ) (rest : String) → has_colon rest ≡ false → has_colon (digits_from f n rest) ≡ false
unfolding digits_from has_colon
digits_from-no_colon zero n rest h = h
digits_from-no_colon (suc f) n rest h =
    ground
      (arith, digits_from-no_colon f (n / 10) (digit (n % 10) ∷ rest), digit-no_colon (n % 10), h)

pub decimal-no_colon : (n : ℕ) → has_colon (decimal n) ≡ false
unfolding decimal has_colon
decimal-no_colon n = digits_from-no_colon (suc n) n "" refl

has_colon-append : (s t : String) → has_colon (s ++ (":" ++ t)) ≡ true
unfolding has_colon
has_colon-append [] t = rw (nil-append, cons-append) refl
has_colon-append (c ∷ s) t = rw cons-append (ground (arith, has_colon-append s t))

colon_first :
    (c : Char) (s t t' : String) → [] ++ (":" ++ t) ≡ (c ∷ s) ++ (":" ++ t') → t ≡ s ++ (":" ++ t')
colon_first c s t t' e =
    (cons-eq-cons.0 (
      sym (nil-append (":" ++ t) ∙ cons-append ":" "" t ∙ ap (λ x. ":" ∷ x) (nil-append t))
      ∙ e
      ∙ cons-append c s (":" ++ t'))).1

-- The last colon of a text takes it apart.
pub split_at_colon :
    (s s' t t' : String)
    → has_colon t ≡ false
    → has_colon t' ≡ false
    → s ++ (":" ++ t) ≡ s' ++ (":" ++ t')
    → (s ≡ s') × (t ≡ t')
split_at_colon [] [] t t' h h' e =
    (refl, append_cancel_left ":" t t' (append_cancel_left "" (":" ++ t) (":" ++ t') e))
split_at_colon [] (c ∷ s') t t' h h' e =
    absurd (cc (sym h ∙ ap has_colon (colon_first c s' t t' e) ∙ has_colon-append s' t'))
split_at_colon (c ∷ s) [] t t' h h' e =
    absurd (cc (sym h' ∙ ap has_colon (colon_first c s t' t (sym e)) ∙ has_colon-append s t))
split_at_colon (c ∷ s) (d ∷ s') t t' h h' e =
    let (head, tail) =
      cons-eq-cons.0 (sym (cons-append c s (":" ++ t)) ∙ e ∙ cons-append d s' (":" ++ t')) in
    let (same, rest) = split_at_colon s s' t t' h h' tail in (cc (head, same), rest)
