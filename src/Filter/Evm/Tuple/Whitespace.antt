-- ===== src/Filter/Evm/Tuple/Whitespace.antt =====
-- `normalize_tuple_whitespace` (src/services/filter/filters/evm/evaluator.rs).
use Prim.Native.Char.{Char, code}
use Prim.Native.String.{[], ◌∷◌}
use openzeppelin_monitor.Prelude.{◌≡◌, refl, ap, Option, none, some, String, Bool-cases, inl, inr}
use openzeppelin_monitor.Prelude.Chars.{is_char}
use openzeppelin_monitor.Filter.Evm.{Platform}
use openzeppelin_monitor.Filter.Evm.Tuple.{normalize, normalize_tuple_whitespace, is_quote}

module _ (platform : Platform) where
  normalize-normalize :
      (quote : Option Char) (s : String)
      → normalize platform quote (normalize platform quote s) ≡ normalize platform quote s
  unfolding normalize
  normalize-normalize none [] = refl
  normalize-normalize (some q) [] = refl
  normalize-normalize none (c ∷ s) = elim (Bool-cases (is_quote c)) [
    | inl e ↦ rw (e, e) (ap (λ t. c ∷ t) (normalize-normalize (some c) s))
    | inr e ↦ elim (Bool-cases (platform.is_whitespace c)) [
      | inl w ↦ rw (e, w) (normalize-normalize none s)
      | inr w ↦ rw (e, w) (rw (e, w) (ap (λ t. c ∷ t) (normalize-normalize none s)))
    ]
  ]
  normalize-normalize (some q) (c ∷ s) = elim (Bool-cases (is_char (code q) c)) [
    | inl e ↦ rw e (rw e (ap (λ t. c ∷ t) (normalize-normalize none s)))
    | inr e ↦ rw e (rw e (ap (λ t. c ∷ t) (normalize-normalize (some q) s)))
  ]

  -- Normalising the white space of a tuple's text twice is normalising it once.
  pub normalize_tuple_whitespace-idempotent :
      (s : String)
      → normalize_tuple_whitespace platform (normalize_tuple_whitespace platform s)
        ≡ normalize_tuple_whitespace platform s
  unfolding normalize_tuple_whitespace
  normalize_tuple_whitespace-idempotent s = normalize-normalize none s
