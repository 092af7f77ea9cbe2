-- ===== src/Cache/Tags/Slots.antt =====
-- What stands in the slots of a tag after a row of inserts.
use music_fs.Base.{
  ◌&&◌, Bool, true, ◌≡◌, refl, ap, ◌∙◌, Option, none, some, List, [], ◌∷◌, String, if◌then◌else◌,
  arith,
}
use music_fs.Cache.Tags.{if_some, or_else, insert_all}

pub or_else-none : (o : Option String) → or_else o none ≡ o
or_else-none none = refl
or_else-none (some s) = refl

pub if_some-eq :
    {T : Type 0} (f g : String → T → T)
    → ((s : String) (tag : T) → f s tag ≡ g s tag)
    → (o : Option String) (tag : T) → if_some f o tag ≡ if_some g o tag
if_some-eq f g e none tag = refl
if_some-eq f g e (some s) tag = e s tag

-- `hit` tells whether two keys stand for one slot, `good` which keys the tag takes.
module _ {K T : Type 0} (put : K → String → T → T) (at : T → K → Option String) (hit : K → K → Bool)
    (good : K → Bool) where
  -- What stands in a slot after inserts, from what stood there before.
  unfoldable pub found : K → List (K × Option String) → Option String → Option String
  found j [] before = before
  found j ((key, value) ∷ more) before =
      found j more (if hit key j then or_else value before else before)

  unfoldable pub all_good : List (K × Option String) → Bool
  all_good [] = true
  all_good ((key, value) ∷ more) = good key && all_good more

  pub at-insert_all :
      ((j key : K) (s : String) (tag : T)
        → good j ≡ true
        → good key ≡ true
        → at (put key s tag) j ≡ (if hit key j then some s else at tag j))
      → (j : K) (fs : List (K × Option String)) (tag : T) → good j ≡ true
      → all_good fs ≡ true
      → at (insert_all put fs tag) j ≡ found j fs (at tag j)
  unfolding insert_all found all_good
  at-insert_all law j [] tag h k = refl
  at-insert_all law j ((key, value) ∷ more) tag h k =
      at-insert_all law j more (if_some (put key) value tag) h (ground (arith, k))
      ∙ ap (found j more) (once value)
    where
      once :
          (o : Option String)
          → at (if_some (put key) o tag) j ≡ (if hit key j then or_else o (at tag j) else at tag j)
      once none = ground arith
      once (some s) = ground (arith, law j key s tag h (ground (arith, k)))
