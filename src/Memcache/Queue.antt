-- ===== src/Memcache/Queue.antt =====
-- What a client of lua/common/memcache.lua needs, that pushes at the back and pops in front.
use testcluster.Prelude.{◌≡◌, refl, ap, Option, none, some, List, [], ◌∷◌, ◌++◌}
use testcluster.Memcache.{
  Memcache, ctor, init, pop, push_back, popping, pushing, Out, got, did, run, insert_objects,
}
use testcluster.Memcache.Deque.{Acts, pop_first, push_last, IsQueue, keeps, init-IsQueue}

module _ {ℓ} {A : Type ℓ} where
  pushed_behind :
      {x : A} {xs ys : List A} {out : Out A} → Acts (pushing (some x)) xs out ys → ys ≡ xs ++ x ∷ []
  pushed_behind (push_last xs x) = refl

  popped_first :
      {x : A} {xs ys : List A} {out : Out A}
      → Acts popping (x ∷ xs) out ys
      → (out ≡ got (some x)) × (ys ≡ xs)
  popped_first (pop_first x xs) = (refl, refl)

  object_of : Out A → Option A
  object_of (got obj) = obj
  object_of (did is_pushed) = none

  pub new-IsQueue : IsQueue {A = A} ctor []
  unfolding init insert_objects
  new-IsQueue = init-IsQueue []

  pub push_back-IsQueue :
      (m : Memcache A) (xs : List A) (x : A)
      → IsQueue m xs
      → IsQueue ((push_back m (some x)).0) (xs ++ x ∷ [])
  unfolding run
  push_back-IsQueue m xs x q =
      let (ys, acts, r) = keeps m (pushing (some x)) xs q in
      let same = pushed_behind acts in rw same at r

  pub pop-IsQueue :
      (m : Memcache A) (x : A) (xs : List A)
      → IsQueue m (x ∷ xs)
      → ((pop m).1 ≡ some x) × IsQueue ((pop m).0) xs
  unfolding run object_of
  pop-IsQueue m x xs q =
      let (ys, acts, r) = keeps m popping (x ∷ xs) q in
      let (first, rest) = popped_first acts in (ap object_of first, rw rest at r)
