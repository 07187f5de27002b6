-- ===== src/Net/Address/Compress/Gap.antt =====
-- src/net/address.rs: the two shapes of the text that `compress_v6` makes of eight words, with a gap for a
-- run of zeros or without one.
use cl_async.Base.{
  ℕ, zero, suc, ◌+◌, ◌-◌, ◌≤◌, ◌<◌, ◌≡◌, ◌≢◌, refl, sym, ap, ◌∙◌, ◌==◌, ltb, Bool, true, false, ◌⊎◌,
  Bool-cases, inl, inr, Option, some, none, List, [], ◌∷◌, ◌++◌, map, take, drop, get_elem?, All,
  length, length-append, arith,
}
use mathlib.Core.List.{append_assoc}
use cl_async.Net.Address.Text.{Text, join, colon}
use cl_async.Net.Address.Text.Search.{IsFilled}
use cl_async.Net.Address.Compress.{removed, recombined}
use cl_async.Net.Address.Compress.Runs.{longest, leading, IsLongest, scan-IsLongest}
use cl_async.Net.Address.Compress.Groups.{short, short-IsFilled}
use cl_async.Net.Address.Compress.Written.{AreWords, All-map, zeros, found_in, length-map}

-- `n` zeros, then the others.
abbrev pub zero_words : ℕ → List ℕ → List ℕ
zero_words zero ws = ws
zero_words (suc n) ws = 0 ∷ zero_words n ws

zeros_at_front : (m : ℕ) (ws : List ℕ) → m ≤ leading (zeros ws) → ws ≡ zero_words m (drop m ws)
zeros_at_front zero ws h = refl
zeros_at_front (suc m) [] h = absurd (omega arith)
zeros_at_front (suc m) (zero ∷ ws) h = ap (λ l. 0 ∷ l) (zeros_at_front m ws (omega arith))
zeros_at_front (suc m) (suc w ∷ ws) h = absurd (ground arith)

-- A run of `m` zeros from the index `s` on.
zero_run :
    (s m : ℕ) (ws : List ℕ)
    → 0 < m
    → m ≤ leading (drop s (zeros ws))
    → (ws ≡ take s ws ++ zero_words m (drop (s + m) ws)) × (length (take s ws) ≡ s)
zero_run zero m ws p h =
    (zeros_at_front m ws h ∙ ap (λ k. zero_words m (drop k ws)) {y = 0 + m} (omega arith), refl)
zero_run (suc s) m [] p h = absurd (omega arith)
zero_run (suc s) m (w ∷ ws) p h =
    let (here, long) = zero_run s m ws p h in
    let next : suc s + m ≡ suc (s + m) = omega arith in
    (
      ap (λ l. w ∷ l) here ∙ ap (λ k. w ∷ take s ws ++ zero_words m (drop k (w ∷ ws))) (sym next),
      ap suc long,
    )

map-take : (f : ℕ → Text) (s : ℕ) (ws : List ℕ) → take s (map f ws) ≡ map f (take s ws)
map-take f zero ws = refl
map-take f (suc s) [] = refl
map-take f (suc s) (w ∷ ws) = ap (λ l. f w ∷ l) (map-take f s ws)

map-drop : (f : ℕ → Text) (s : ℕ) (ws : List ℕ) → drop s (map f ws) ≡ map f (drop s ws)
map-drop f zero ws = refl
map-drop f (suc s) [] = refl
map-drop f (suc s) (w ∷ ws) = map-drop f s ws

-- An empty part stands for no part at an end.
abbrev pub ends : List Text → List Text
ends [] = [] ∷ []
ends (part ∷ parts) = part ∷ parts

recombined-gap :
    (before behind : List Text)
    → All IsFilled before
    → recombined (some (length before)) (before ++ [] ∷ behind)
      ≡ join colon (ends before ++ [] ∷ ends behind)
unfolding recombined join
recombined-gap [] [] h = refl
recombined-gap [] (q ∷ behind) h = refl
recombined-gap ([] ∷ before) behind h = elim h.0 [ ]
recombined-gap ((x ∷ p) ∷ before) [] h =
    let last : (suc (length before) == suc (length (before ++ [] ∷ [])) - 1) ≡ true =
      ground (arith, length-append before ([] ∷ [])) in
    let first : (suc (length before) == 0) ≡ false = ground arith in
    rw (first, last) (ap (join colon) (append_assoc ((x ∷ p) ∷ before) ([] ∷ []) ([] ∷ [])))
recombined-gap ((x ∷ p) ∷ before) (q ∷ behind) h =
    let inside : (suc (length before) == suc (length (before ++ [] ∷ q ∷ behind)) - 1) ≡ false =
      ground (arith, length-append before ([] ∷ q ∷ behind)) in
    let first : (suc (length before) == 0) ≡ false = ground arith in rw (first, inside) refl

recombined-none :
    (p q : Text) (ps : List Text)
    → IsFilled p
    → recombined none (p ∷ q ∷ ps) ≡ join colon (p ∷ q ∷ ps)
unfolding recombined
recombined-none [] q ps h = elim h [ ]
recombined-none (x ∷ p) q ps h = refl

recombined-inside :
    (s : ℕ) (p q : Text) (ps : List Text)
    → IsFilled p
    → s ≢ 0
    → s ≢ suc (length ps)
    → recombined (some s) (p ∷ q ∷ ps) ≡ join colon (p ∷ q ∷ ps)
unfolding recombined
recombined-inside s [] q ps h first last = elim h [ ]
recombined-inside s (x ∷ p) q ps h first last =
    let not_first : (s == 0) ≡ false = ground arith in
    let not_last : (s == suc (suc (length ps)) - 1) ≡ false = ground arith in
    rw (not_first, not_last) refl

leading-get_elem? : (s : ℕ) (bs : List Bool) → get_elem? bs s ≡ some false → leading (drop s bs) ≡ 0
leading-get_elem? s [] e = cc
leading-get_elem? zero (true ∷ bs) e = cc
leading-get_elem? zero (false ∷ bs) e = refl
leading-get_elem? (suc s) (b ∷ bs) e = leading-get_elem? s bs e

-- A run of zeros does not start where there is none.
run-ne : (bs : List Bool) (s k : ℕ) → 0 < leading (drop s bs) → get_elem? bs k ≡ some false → s ≢ k
run-ne bs s k long none_there e =
    absurd (omega (arith, leading-get_elem? k bs none_there, ap (λ j. leading (drop j bs)) e))

-- The words hold two zeros side by side, or neither the first nor the last of them is zero.
abbrev pub NoLoneEnd : List ℕ → Type 0
NoLoneEnd ws =
    (2 ≤ longest (zeros ws))
    ⊎ ((get_elem? (zeros ws) 0 ≡ some false) × (get_elem? (zeros ws) 7 ≡ some false))

-- The text of the groups, with the groups of a run of zeros left out or with all of them.
abbrev pub IsGap : List ℕ → Text → Type 0
IsGap ws t =
    (before : List ℕ) × (m : ℕ) × (behind : List ℕ) × (2 ≤ m)
    × (ws ≡ before ++ zero_words m behind)
    × (t ≡ join colon (ends (map short before) ++ [] ∷ ends (map short behind)))

abbrev pub IsWritten : List ℕ → Text → Type 0
IsWritten ws t = IsGap ws t ⊎ (t ≡ join colon (map short ws))

All-take : (P : ℕ → Type 0) (s : ℕ) (ws : List ℕ) → All P ws → All P (take s ws)
All-take P zero ws h = tt
All-take P (suc s) [] h = tt
All-take P (suc s) (w ∷ ws) h = (h.0, All-take P s ws h.1)

shorts-AreFilled : (ws : List ℕ) → AreWords ws → All IsFilled (map short ws)
shorts-AreFilled ws = All-map IsFilled short ws short-IsFilled

module _ (w v : ℕ) (ws : List ℕ) (six : length ws ≡ 6) (h : AreWords (w ∷ v ∷ ws)) where
  by_index :
      (index : Option ℕ) (most : ℕ)
      → IsLongest (zeros (w ∷ v ∷ ws)) index most
      → NoLoneEnd (w ∷ v ∷ ws)
      → IsWritten (w ∷ v ∷ ws) (
          recombined index (
            removed
              (record { most_zeroes = most; double_colon_index = index })
              (map short (w ∷ v ∷ ws))))
  unfolding removed
  by_index none most run ends_ok =
      inr (recombined-none (short w) (short v) (map short ws) (short-IsFilled w h.0))
  by_index (some s) most run ends_ok = elim (Bool-cases (ltb 1 most)) [
    | inl long ↦
        let two : 2 ≤ most = ground arith in
        let all = w ∷ v ∷ ws in
        let (here, at) = zero_run s most all run.0 (omega arith) in
        inl (
          take s all,
          most,
          drop (s + most) all,
          two,
          here,
          rw (long, map-take short s all, map-drop short (s + most) all)
              (ap
                  (λ k.
                    recombined (some k)
                      (map short (take s all) ++ [] ∷ map short (drop (s + most) all)))
                  (sym at ∙ sym (length-map short (take s all)))
                ∙ recombined-gap (map short (take s all)) (map short (drop (s + most) all))
                    (shorts-AreFilled (take s all) (All-take _ s all h))),
        )
    | inr lone ↦ elim ends_ok [
      | inl two ↦ absurd (ground arith)
      | inr (no_first, no_last) ↦
          let bs = zeros (w ∷ v ∷ ws) in
          let long : 0 < leading (drop s bs) = omega arith in
          let first : s ≢ 0 = run-ne bs s 0 long no_first in
          let last : s ≢ suc (length (map short ws)) =
            λ e. run-ne bs s 7 long no_last (omega (arith, e, length-map short ws)) in
          rw lone (
            inr (
              recombined-inside s (short w) (short v) (map short ws) (short-IsFilled w h.0) first
                last))
    ]
  ]

  pub IsWritten-words :
      NoLoneEnd (w ∷ v ∷ ws)
      → IsWritten (w ∷ v ∷ ws) (
          recombined
            (found_in (w ∷ v ∷ ws)).double_colon_index
            (removed (found_in (w ∷ v ∷ ws)) (map short (w ∷ v ∷ ws))))
  IsWritten-words =
      by_index (found_in (w ∷ v ∷ ws)).double_colon_index (found_in (w ∷ v ∷ ws)).most_zeroes
        (scan-IsLongest (zeros (w ∷ v ∷ ws)))
