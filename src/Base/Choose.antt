-- ===== src/Base/Choose.antt =====
-- `Iterator::min_by_key` and `slice::sort_by_key`, by a Boolean order on the elements.
use music_fs.Base.{
  keep, ◌↔◌, ◌≡◌, refl, Bool, true, false, Option, none, some, List, [], ◌∷◌, if◌then◌else◌, All,
  inl, inr, Bool-cases,
}

module _ {ℓ} {A : Type ℓ} where
  -- The least of a list and of one element that stands before it: among equals the first.
  unfoldable pub min_from : (A → A → Bool) → A → List A → A
  min_from less best [] = best
  min_from less best (x ∷ xs) = min_from less (if less x best then x else best) xs

  unfoldable pub min_by : (A → A → Bool) → List A → Option A
  unfolding min_from
  min_by less [] = none
  min_by less (x ∷ xs) = some (min_from less x xs)

  -- A stable sort: an element goes behind those that are less.
  unfoldable pub insert_by : (A → A → Bool) → A → List A → List A
  insert_by less x [] = x ∷ []
  insert_by less x (y ∷ ys) =
      let rest = insert_by less x ys in if less y x then y ∷ rest else x ∷ y ∷ ys

  unfoldable pub sort_by : (A → A → Bool) → List A → List A
  unfolding insert_by
  sort_by less [] = []
  sort_by less (x ∷ xs) = insert_by less x (sort_by less xs)

  -- What a minimum by an order needs of it: `le` follows from not being less.
  pub record IsTotal (less : A → A → Bool) : Type ℓ where
    pub asym : (a b : A) → less a b ≡ true → less b a ≡ false
    pub trans : (a b c : A) → less b a ≡ false → less c b ≡ false → less c a ≡ false

  irreflexive : (less : A → A → Bool) (a : A) → IsTotal less → less a a ≡ false
  irreflexive less a t = elim (Bool-cases (less a a)) [ inl e ↦ t.asym a a e | inr e ↦ e ]

  min_from-le :
      (less : A → A → Bool) (best : A) (xs : List A)
      → IsTotal less
      → (less best (min_from less best xs) ≡ false)
        × All (λ x. less x (min_from less best xs) ≡ false) xs
  unfolding min_from
  min_from-le less best [] t = (irreflexive less best t, tt)
  min_from-le less best (x ∷ xs) t =
      go (less x best) refl (min_from-le less x xs t) (min_from-le less best xs t)
    where
      go :
          (b : Bool)
          → less x best ≡ b
          → (less x (min_from less x xs) ≡ false)
            × All (λ y. less y (min_from less x xs) ≡ false) xs
          → (less best (min_from less best xs) ≡ false)
            × All (λ y. less y (min_from less best xs) ≡ false) xs
          → (less best (min_from less (if b then x else best) xs) ≡ false)
            × ((less x (min_from less (if b then x else best) xs) ≡ false)
                × All (λ y. less y (min_from less (if b then x else best) xs) ≡ false) xs)
      go true e (h, hs) _ = (t.trans (min_from less x xs) x best h (t.asym x best e), (h, hs))
      go false e _ (h, hs) = (h, (t.trans (min_from less best xs) best x h e, hs))

  -- The chosen element is not greater than any.
  pub min_by-le :
      (less : A → A → Bool) (xs : List A) {m : A}
      → IsTotal less
      → min_by less xs ≡ some m
      → All (λ x. less x m ≡ false) xs
  unfolding min_by
  min_by-le less [] t e = tt
  min_by-le less (x ∷ xs) {m} t e =
      let p : min_from less x xs ≡ m = cc in rw p at (min_from-le less x xs t)

  pub min_by-eq-none_iff : (less : A → A → Bool) (xs : List A) → (min_by less xs ≡ none) ↔ (xs ≡ [])
  unfolding min_by
  min_by-eq-none_iff less [] = (λ e. refl, λ e. refl)
  min_by-eq-none_iff less (x ∷ xs) = (λ e. cc, λ e. cc)

  module _ {κ} (P : A → Type κ) where
    -- A property of all elements holds of the least one.
    min_from-All :
        (less : A → A → Bool) (best : A) (xs : List A)
        → P best
        → All P xs
        → P (min_from less best xs)
    unfolding min_from
    min_from-All less best [] h hs = h
    min_from-All less best (x ∷ xs) h hs = elim (Bool-cases (less x best)) [
      | inl e ↦ rw e (min_from-All less x xs hs.0 hs.1)
      | inr e ↦ rw e (min_from-All less best xs h hs.1)
    ]

    pub min_by-All :
        (less : A → A → Bool) (xs : List A) {m : A} → All P xs → min_by less xs ≡ some m → P m
    unfolding min_by
    min_by-All less [] h e = cc
    min_by-All less (x ∷ xs) {m} h e =
        let p : min_from less x xs ≡ m = cc in rw p at (min_from-All less x xs h.0 h.1)

    insert_by-All :
        (less : A → A → Bool) (x : A) (xs : List A) → P x → All P xs → All P (insert_by less x xs)
    unfolding insert_by
    insert_by-All less x [] h hs = (h, tt)
    insert_by-All less x (y ∷ ys) h hs = elim (Bool-cases (less y x)) [
      | inl e ↦ rw e (hs.0, insert_by-All less x ys h hs.1)
      | inr e ↦ rw e (h, hs)
    ]

    pub sort_by-All : (less : A → A → Bool) (xs : List A) → All P xs → All P (sort_by less xs)
    unfolding sort_by
    sort_by-All less [] h = tt
    sort_by-All less (x ∷ xs) h =
        insert_by-All less x (sort_by less xs) h.0 (sort_by-All less xs h.1)

    pub keep-All : (p : A → Bool) (xs : List A) → All P xs → All P (keep p xs)
    keep-All p [] h = tt
    keep-All p (x ∷ xs) h = elim (p x) as (λ b. All P (if b then x ∷ keep p xs else keep p xs)) [
      | true ↦ (h.0, keep-All p xs h.1)
      | false ↦ keep-All p xs h.1
    ]

  -- What passes a test passes it.
  pub keep-passes : (p : A → Bool) (xs : List A) → All (λ x. p x ≡ true) (keep p xs)
  keep-passes p [] = tt
  keep-passes p (x ∷ xs) = go (p x) refl (keep-passes p xs)
    where
      go :
          (b : Bool)
          → p x ≡ b
          → All (λ y. p y ≡ true) (keep p xs)
          → All (λ y. p y ≡ true) (if b then x ∷ keep p xs else keep p xs)
      go true e hs = (e, hs)
      go false e hs = hs
