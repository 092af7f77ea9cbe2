-- ===== src/Base/Slices.antt =====
-- Byte ranges of lists.
use music_fs.Base.{
  ℕ, zero, suc, ◌+◌, min, ◌-◌, ◌≤◌, ◌≡◌, refl, List, [], ◌∷◌, ◌++◌, arith, length, take, drop, ap,
  length-take, length-drop, ◌∙◌, sym,
}

module _ {ℓ} {A : Type ℓ} where
  -- `xs[start..end]`, for `start <= end <= xs.len()`
  abbrev pub range : ℕ → ℕ → List A → List A
  range start end xs = drop start (take end xs)

  pub drop-nil : (n : ℕ) → drop {A = A} n [] ≡ []
  drop-nil zero = refl
  drop-nil (suc n) = refl

  pub take-nil : (n : ℕ) → take {A = A} n [] ≡ []
  take-nil zero = refl
  take-nil (suc n) = refl

  pub take_all : (n : ℕ) (xs : List A) → length xs ≤ n → take n xs ≡ xs
  take_all zero [] h = refl
  take_all zero (x ∷ xs) h = absurd (omega arith)
  take_all (suc n) [] h = refl
  take_all (suc n) (x ∷ xs) h = ap (◌∷◌ x) (take_all n xs (omega arith))

  pub drop_all : (n : ℕ) (xs : List A) → length xs ≤ n → drop n xs ≡ []
  drop_all zero [] h = refl
  drop_all zero (x ∷ xs) h = absurd (omega arith)
  drop_all (suc n) [] h = refl
  drop_all (suc n) (x ∷ xs) h = drop_all n xs (omega arith)

  pub range_empty : (a b : ℕ) (xs : List A) → b ≤ a → range a b xs ≡ []
  range_empty a b xs h = drop_all a (take b xs) (omega (arith, length-take {ℓ} b xs))

  pub range_past : (a b : ℕ) (xs : List A) → length xs ≤ a → range a b xs ≡ []
  range_past a b xs h = drop_all a (take b xs) (omega (arith, length-take {ℓ} b xs))

  pub range_clip : (a b : ℕ) (xs : List A) → length xs ≤ b → range a b xs ≡ range a (length xs) xs
  range_clip a b xs h = ap (drop a) (take_all b xs h ∙ sym (take_all (length xs) xs (omega arith)))

  pub length-range : (a b : ℕ) (xs : List A) → b ≤ length xs → length (range a b xs) ≡ b - a
  length-range a b xs h = omega (arith, length-drop {ℓ} a (take b xs), length-take {ℓ} b xs)

  -- A range of a concatenation is the range of the first part and then that of the second.
  pub range-append :
      (a b : ℕ) (xs ys : List A)
      → range a b (xs ++ ys) ≡ range a b xs ++ range (a - length xs) (b - length xs) ys
  range-append a b [] ys = ground (arith, drop-nil a, take-nil b)
  range-append a zero (x ∷ xs) ys = ground (arith, drop-nil a, drop-nil (a - length (x ∷ xs)))
  range-append zero (suc b) (x ∷ xs) ys = ground (arith, range-append zero b xs ys)
  range-append (suc a) (suc b) (x ∷ xs) ys = ground (arith, range-append a b xs ys)

  pub take-append-drop : (n : ℕ) (xs : List A) → xs ≡ take n xs ++ drop n xs
  take-append-drop zero xs = refl
  take-append-drop (suc n) [] = refl
  take-append-drop (suc n) (x ∷ xs) = ap (◌∷◌ x) (take-append-drop n xs)

  pub drop-range : (s e : ℕ) (xs : List A) → s ≤ e → drop s xs ≡ range s e xs ++ drop e xs
  drop-range zero e xs h = take-append-drop e xs
  drop-range (suc s) zero xs h = absurd (omega arith)
  drop-range (suc s) (suc e) [] h = refl
  drop-range (suc s) (suc e) (x ∷ xs) h = drop-range s e xs (omega arith)

  take-take : (a b : ℕ) (xs : List A) → take a (take b xs) ≡ take (min a b) xs
  take-take zero b xs = let e : 0 ≡ min 0 b = omega arith in ap (λ (n : ℕ). take n xs) e
  take-take (suc a) zero xs = let e : 0 ≡ min (suc a) 0 = omega arith in ap (λ (n : ℕ). take n xs) e
  take-take (suc a) (suc b) [] = sym (take-nil (min (suc a) (suc b)))
  take-take (suc a) (suc b) (x ∷ xs) =
      let e : suc (min a b) ≡ min (suc a) (suc b) = omega arith in
      ap (◌∷◌ x) (take-take a b xs) ∙ ap (λ (n : ℕ). take n (x ∷ xs)) e

  pub range-nil : (a b : ℕ) → range a b [] ≡ []
  range-nil a b = ap (drop a) (take-nil b) ∙ drop-nil a

  -- A range of a range.
  pub range-range :
      (a b s e : ℕ) (xs : List A) → range a b (range s e xs) ≡ range (s + a) (min (s + b) e) xs
  range-range a b zero e xs =
      ap (drop a) (take-take b e xs)
      ∙ (ap (λ (n : ℕ). drop a (take n xs)) (zero_min b e)
          ∙ ap (λ (n : ℕ). drop n (take (min (0 + b) e) xs)) (zero_add a))
    where
      zero_min : (b e : ℕ) → min b e ≡ min (0 + b) e
      zero_min b e = omega arith

      zero_add : (a : ℕ) → a ≡ 0 + a
      zero_add a = omega arith
  range-range a b (suc s) zero xs =
      range-nil a b ∙ sym (range_empty (suc s + a) (min (suc s + b) 0) xs (omega arith))
  range-range a b (suc s) (suc e) [] =
      range-nil a b ∙ sym (range-nil (suc s + a) (min (suc s + b) (suc e)))
  range-range a b (suc s) (suc e) (x ∷ xs) =
      range-range a b s e xs
      ∙ (ap (λ (n : ℕ). drop n (take (suc (min (s + b) e)) (x ∷ xs))) (suc_add s a)
          ∙ ap (λ (n : ℕ). drop (suc s + a) (take n (x ∷ xs))) (suc_min s b e))
    where
      suc_add : (s a : ℕ) → suc (s + a) ≡ suc s + a
      suc_add s a = omega arith

      suc_min : (s b e : ℕ) → suc (min (s + b) e) ≡ min (suc s + b) (suc e)
      suc_min s b e = omega arith
