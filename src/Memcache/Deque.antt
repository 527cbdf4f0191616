-- ===== src/Memcache/Deque.antt =====
-- The queue of lua/common/memcache.lua is a list that is pushed at the back and popped at both ends.
use testcluster.Prelude.{
  ℕ, suc, ◌+◌, ◌-◌, ◌<◌, ◌≤◌, ◌≡◌, ◌≢◌, refl, ◌∙◌, sym, ap, none, some, List, [], ◌∷◌, ◌++◌, length,
  length-append, append_assoc, append-nil, get_elem?, true, false, ◌==◌, ==_refl, ==_of_ne, ==_iff,
  Bool-cases, inl, inr, if◌then◌else◌, arith,
}
use testcluster.Memcache.Entries.{shifted, get_elem?-past, get_elem?-last, Back, empty, last, back}
use testcluster.Memcache.{
  Memcache, set_at, ctor, init, insert_object, insert_objects, pop, pop_entry, pop_back,
  pop_back_entry, push_back, size, Op, popping, popping_back, pushing, Out, got, did, run, run_all,
}

-- What the operations do to a list, and what they return.
pub data Acts {ℓ} {A : Type ℓ} : Op A → List A → Out A → List A → Type ℓ where
  pop_nothing : Acts popping [] (got none) []
  pop_first : (x : A) (xs : List A) → Acts popping (x ∷ xs) (got (some x)) xs
  back_nothing : Acts popping_back [] (got none) []
  back_last : (xs : List A) (x : A) → Acts popping_back (xs ++ x ∷ []) (got (some x)) xs
  push_nil : (xs : List A) → Acts (pushing none) xs (did false) xs
  push_last : (xs : List A) (x : A) → Acts (pushing (some x)) xs (did true) (xs ++ x ∷ [])

pub data ActsAll {ℓ} {A : Type ℓ} : List (Op A) → List A → List (Out A) → List A → Type ℓ where
  finished : (xs : List A) → ActsAll [] xs [] xs
  first :
      {op : Op A} {ops : List (Op A)} {xs ys zs : List A} {out : Out A} {outs : List (Out A)}
      → Acts op xs out ys
      → ActsAll ops ys outs zs
      → ActsAll (op ∷ ops) xs (out ∷ outs) zs

module _ {ℓ} {A : Type ℓ} where
  -- The objects are between the head and the tail.
  pub record IsStarted (m : Memcache A) (xs : List A) : Type ℓ where
    objects : (i : ℕ) → m.cache (m.head + i) ≡ get_elem? xs i
    before : (j : ℕ) → j < m.head → m.cache j ≡ none
    ends : m.head + length xs ≡ m.tail + 1
    starts : 1 ≤ m.head

  -- What an operation does to a queue is what it does to the list.
  abbrev Follows : Memcache A → Op A → List A → Type ℓ
  Follows m op xs = (ys : List A) × Acts op xs ((run m op).1) ys × IsStarted ((run m op).0) ys

  follows :
      (m after : Memcache A) (op : Op A) (out : Out A) (xs ys : List A)
      → run m op ≡ (after, out)
      → Acts op xs out ys
      → IsStarted after ys
      → Follows m op xs
  follows m after op out xs ys e acts q = rw (e) (ys, acts, q)

  pop_started : (m : Memcache A) (xs : List A) → IsStarted m xs → Follows m popping xs
  unfolding run pop pop_entry set_at
  pop_started m [] q =
      let nothing : m.cache m.head ≡ none = ap (λ j. m.cache j) (omega arith) ∙ q.objects 0 in
      follows m m popping (got none) [] [] (rw (nothing) refl) pop_nothing q
  pop_started m (x ∷ xs) q =
      let there : m.cache m.head ≡ some x = ap (λ j. m.cache j) (omega arith) ∙ q.objects 0 in
      let after : Memcache A = record m { cache = set_at m.cache m.head none; head = m.head + 1 } in
      follows m after popping (got (some x)) (x ∷ xs) xs (rw (there) refl) (pop_first x xs)
        (record {
          objects = λ i.
              rw (==_of_ne m.head (m.head + 1 + i) (λ e. omega arith))
                (ap (λ j. m.cache j) (omega arith) ∙ q.objects (suc i));
          before = λ j lt. elim (Bool-cases (m.head == j)) [
            | inl same ↦ rw (same) refl
            | inr other ↦ rw (other) (
                q.before j (
                  let differs : m.head ≢ j = λ e. cc (other, (==_iff m.head j).1 e) in omega arith))
          ];
          ends = (let e = q.ends in omega arith);
          starts = omega arith;
        })

  pop_back_started :
      (m : Memcache A) (xs : List A) → Back xs → IsStarted m xs → Follows m popping_back xs
  unfolding run pop_back pop_back_entry set_at
  pop_back_started m [] empty q =
      let nothing : m.cache m.tail ≡ none = q.before m.tail (let e = q.ends in omega arith) in
      follows m m popping_back (got none) [] [] (rw (nothing) refl) back_nothing q
  pop_back_started m _ (last ys y) q =
      let size = length-append ys (y ∷ []) in
      let e = q.ends in
      let at_end : m.tail ≡ m.head + length ys = omega arith in
      let there : m.cache m.tail ≡ some y =
        ap (λ j. m.cache j) at_end
        ∙ q.objects (length ys)
        ∙ get_elem?-last ys y (length ys)
        ∙ rw (==_refl (length ys)) refl in
      let after : Memcache A = record m { cache = set_at m.cache m.tail none; tail = m.tail - 1 } in
      follows m after popping_back (got (some y)) (ys ++ y ∷ []) ys (rw (there) refl)
        (back_last ys y)
        (record {
          objects = λ i.
              rw (shifted m.tail m.head (length ys) i at_end) (elim (Bool-cases (length ys == i)) [
                | inl same ↦
                    let here : length ys ≡ i = (==_iff (length ys) i).0 same in
                    rw (same) (sym (get_elem?-past ys) ∙ ap (λ j. get_elem? ys j) here)
                | inr other ↦ rw (other) (q.objects i ∙ get_elem?-last ys y i ∙ rw (other) refl)
              ]);
          before = λ j lt. rw (==_of_ne m.tail j (λ d. omega arith)) (q.before j lt);
          ends = (let l = q.starts in omega arith);
          starts = q.starts;
        })

  pushed-IsStarted :
      (m : Memcache A) (xs : List A) (x : A)
      → IsStarted m xs
      → IsStarted
          (record {
            tail = m.tail + 1;
            head = m.head;
            cache = set_at m.cache (m.tail + 1) (some x);
          })
          (xs ++ x ∷ [])
  unfolding set_at
  pushed-IsStarted m xs x q =
      let size = length-append xs (x ∷ []) in
      let e = q.ends in
      record {
        objects = λ i. rw (shifted (m.tail + 1) m.head (length xs) i (omega arith)) (
            ap (λ old. if length xs == i then some x else old) (q.objects i)
            ∙ sym (get_elem?-last xs x i));
        before = λ j lt. rw (==_of_ne (m.tail + 1) j (λ d. omega arith)) (q.before j lt);
        ends = omega arith;
        starts = q.starts;
      }

  push_started :
      (m : Memcache A) (xs : List A) (x : A) → IsStarted m xs → Follows m (pushing (some x)) xs
  unfolding run push_back set_at
  push_started m xs x q =
      let l = q.starts in
      let after : Memcache A = record {
        tail = m.tail + 1;
        head = m.head;
        cache = set_at m.cache (m.tail + 1) (some x);
      } in
      follows m after (pushing (some x)) (did true) xs (xs ++ x ∷ [])
        (rw (==_of_ne m.head 0 (λ d. omega arith)) refl) (push_last xs x)
        (pushed-IsStarted m xs x q)

  -- A queue, before the first object is pushed and after that.
  pub data IsQueue (m : Memcache A) : List A → Type ℓ where
    fresh : m.head ≡ 0 → IsStarted (record m { head = 1 }) [] → IsQueue m []
    started : {xs : List A} → IsStarted m xs → IsQueue m xs

  abbrev pub Keeps : Memcache A → Op A → List A → Type ℓ
  Keeps m op xs = (ys : List A) × Acts op xs ((run m op).1) ys × IsQueue ((run m op).0) ys

  kept : (m : Memcache A) (op : Op A) (xs : List A) → Follows m op xs → Keeps m op xs
  kept m op xs (ys, acts, q) = (ys, acts, started q)

  stays :
      (m : Memcache A) (op : Op A) (out : Out A) (xs : List A)
      → run m op ≡ (m, out)
      → Acts op xs out xs
      → IsQueue m xs
      → Keeps m op xs
  stays m op out xs e acts q = rw (e) (xs, acts, q)

  as_ready :
      (m ready : Memcache A) (op : Op A) (xs : List A)
      → run m op ≡ run ready op
      → Keeps ready op xs
      → Keeps m op xs
  as_ready m ready op xs e k = rw (e) k

  pub keeps : (m : Memcache A) (op : Op A) (xs : List A) → IsQueue m xs → Keeps m op xs
  unfolding run pop pop_entry pop_back pop_back_entry push_back
  keeps m popping xs (started q) = kept m popping xs (pop_started m xs q)
  keeps m popping_back xs (started q) = kept m popping_back xs (pop_back_started m xs (back xs) q)
  keeps m (pushing (some x)) xs (started q) = kept m (pushing (some x)) xs (push_started m xs x q)
  keeps m (pushing none) xs (started q) = (xs, push_nil xs, started q)
  keeps m popping [] (fresh at_0 q) =
      let nothing : m.cache m.head ≡ none = ap (λ j. m.cache j) at_0 ∙ q.before 0 (omega arith) in
      stays m popping (got none) [] (rw (nothing) refl) pop_nothing (fresh at_0 q)
  keeps m popping_back [] (fresh at_0 q) =
      let end : m.tail ≡ 0 = (let e = q.ends in omega arith) in
      let nothing : m.cache m.tail ≡ none = ap (λ j. m.cache j) end ∙ q.before 0 (omega arith) in
      stays m popping_back (got none) [] (rw (nothing) refl) back_nothing (fresh at_0 q)
  keeps m (pushing none) [] (fresh at_0 q) = ([], push_nil [], fresh at_0 q)
  keeps m (pushing (some x)) [] (fresh at_0 q) =
      let ready : Memcache A = record m { head = 1 } in
      as_ready m ready (pushing (some x)) [] (rw (at_0) refl)
        (kept ready (pushing (some x)) [] (push_started ready [] x q))

  keeps_all :
      (m : Memcache A) (ops : List (Op A)) (xs : List A)
      → IsQueue m xs
      → (ys : List A) × ActsAll ops xs ((run_all m ops).1) ys × IsQueue ((run_all m ops).0) ys
  unfolding run_all
  keeps_all m [] xs q = (xs, finished xs, q)
  keeps_all m (op ∷ ops) xs q =
      let (ys, acts, r) = keeps m op xs q in
      let (zs, more, r') = keeps_all ((run m op).0) ops ys r in (zs, first acts more, r')

  pub size-IsQueue : (m : Memcache A) (xs : List A) → IsQueue m xs → size m ≡ length xs
  unfolding size
  size-IsQueue m [] (fresh at_0 q) =
      (let end : m.tail ≡ 0 = (let e = q.ends in omega arith) in rw (end) refl)
  size-IsQueue m xs (started q) = let e = q.ends in let l = q.starts in ground arith

  insert_objects-IsStarted :
      (m : Memcache A) (xs objs : List A)
      → m.head ≡ 1
      → IsStarted m xs
      → IsStarted (insert_objects m objs) (xs ++ objs)
  unfolding insert_objects insert_object
  insert_objects-IsStarted m xs [] at_1 q = rw (append-nil xs) q
  insert_objects-IsStarted m xs (v ∷ objs) at_1 q =
      let pushed = pushed-IsStarted m xs v q in
      let inserted : IsStarted (insert_object m v) (xs ++ v ∷ []) = rw at_1 at pushed in
      let rest = insert_objects-IsStarted (insert_object m v) (xs ++ v ∷ []) objs refl inserted in
      rw (append_assoc xs (v ∷ []) objs) at rest

  unused-IsStarted : IsStarted (record { tail = 0; head = 1; cache = λ i. none }) []
  unused-IsStarted = record {
    objects = λ i. refl;
    before = λ j lt. refl;
    ends = refl;
    starts = omega arith;
  }

  pub init-IsQueue : (objs : List A) → IsQueue (init objs) objs
  unfolding init ctor insert_objects insert_object
  init-IsQueue [] = fresh refl unused-IsStarted
  init-IsQueue (v ∷ objs) =
      let ready : Memcache A = record { tail = 0; head = 1; cache = λ i. none } in
      started (
        insert_objects-IsStarted (insert_object ready v) (v ∷ []) objs refl
          (pushed-IsStarted ready [] v unused-IsStarted))

  -- Any run of pop, pop_back and push_back on a queue that was made of some objects, or of none, returns what a list of these does
  -- that is taken from in front and at its end, and added to at its end (nil is refused), and size is then the length of that list.
  pub queue_is_list :
      (objs : List A) (ops : List (Op A))
      → (xs : List A) × ActsAll ops objs ((run_all (init objs) ops).1) xs
        × (size ((run_all (init objs) ops).0) ≡ length xs)
  queue_is_list objs ops =
      let (xs, acts, q) = keeps_all (init objs) ops objs (init-IsQueue objs) in
      (xs, acts, size-IsQueue ((run_all (init objs) ops).0) xs q)
