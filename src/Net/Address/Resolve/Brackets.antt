-- ===== src/Net/Address/Resolve/Brackets.antt =====
-- src/net/address.rs: `v6` takes the brackets off as long as there are any.
use cl_async.Base.{
  ℕ, zero, suc, ◌-◌, ◌≤◌, ◌≡◌, refl, false, Bool-cases, inl, inr, [], ◌∷◌, length, take, arith,
}
use cl_async.Net.Address.Text.{Text, starts_with}
use cl_async.Net.Address.Resolve.{is_bracketed, unbracketed}

length-take : (n : ℕ) (s : Text) → length (take n s) ≤ n
length-take zero s = omega arith
length-take (suc n) [] = omega arith
length-take (suc n) (x ∷ s) = omega (arith, length-take n s)

-- On fuel for each character, no bracketed text is left.
unbracketed-not_bracketed :
    (n : ℕ) (s : Text) → length s ≤ n → is_bracketed (unbracketed n s) ≡ false
unfolding unbracketed starts_with
unbracketed-not_bracketed zero [] h = unfold is_bracketed in refl
unbracketed-not_bracketed zero (x ∷ s) h = absurd (omega arith)
unbracketed-not_bracketed (suc n) [] h = unfold is_bracketed in refl
unbracketed-not_bracketed (suc n) (x ∷ s) h = elim (Bool-cases (is_bracketed (x ∷ s))) [
  | inl bracketed ↦
      rw (bracketed, unbracketed)
        (unbracketed-not_bracketed n (take (length (x ∷ s) - 2) s)
          (omega (arith, length-take (length (x ∷ s) - 2) s)))
  | inr plain ↦ rw (plain, unbracketed) plain
]
