-- ===== src/Memcache.antt =====
-- lua/common/memcache.lua: a queue of objects that is pushed at the back and popped at both ends.
mod Entries
pub mod Deque
pub mod Queue
mod Tests
use testcluster.Prelude.{
  ℕ, suc, ◌+◌, ◌-◌, Option, none, some, List, [], ◌∷◌, Bool, true, false, ◌==◌, if◌then◌else◌,
}

module _ {ℓ} {A : Type ℓ} where
  -- _cache[i] = obj
  unfoldable pub set_at : (ℕ → Option A) → ℕ → Option A → ℕ → Option A
  set_at cache i obj j = if i == j then obj else cache j

pub record Memcache {ℓ} (A : Type ℓ) : Type ℓ where
  pub tail : ℕ
  pub head : ℕ
  pub cache : ℕ → Option A

module _ {ℓ} {A : Type ℓ} where
  unfoldable pub ctor : Memcache A
  ctor = record { tail = 0; head = 0; cache = λ i. none }

  -- An object is taken from an entry that is there.
  unfoldable pub pop_entry : Memcache A → Option A → Memcache A × Option A
  unfolding set_at
  pop_entry m none = (m, none)
  pop_entry m (some obj) =
      (record m { cache = set_at m.cache m.head none; head = m.head + 1 }, some obj)

  unfoldable pub pop : Memcache A → Memcache A × Option A
  unfolding pop_entry
  pop m = pop_entry m (m.cache m.head)

  -- The entry at the tail; _tail - 1 with an entry at 0 does not come up, since the first entry is at 1.
  unfoldable pub pop_back_entry : Memcache A → Option A → Memcache A × Option A
  unfolding set_at
  pop_back_entry m none = (m, none)
  pop_back_entry m (some obj) =
      (record m { cache = set_at m.cache m.tail none; tail = m.tail - 1 }, some obj)

  unfoldable pub pop_back : Memcache A → Memcache A × Option A
  unfolding pop_back_entry
  pop_back m = pop_back_entry m (m.cache m.tail)

  -- nil is not pushed.
  unfoldable pub push_back : Memcache A → Option A → Memcache A × Bool
  unfolding set_at
  push_back m none = (m, false)
  push_back m (some obj) = (
    record {
      tail = m.tail + 1;
      head = if m.head == 0 then 1 else m.head;
      cache = set_at m.cache (m.tail + 1) (some obj);
    },
    true,
  )

  unfoldable pub size : Memcache A → ℕ
  size m = if m.tail == 0 then 0 else m.tail + 1 - m.head

  -- One round of the loop of init: table.insert puts the object behind the others.
  unfoldable pub insert_object : Memcache A → A → Memcache A
  unfolding set_at
  insert_object m v = record {
    tail = m.tail + 1;
    head = 1;
    cache = set_at m.cache (m.tail + 1) (some v);
  }

  -- The objects in the order in which pairs gives them.
  unfoldable pub insert_objects : Memcache A → List A → Memcache A
  unfolding insert_object
  insert_objects m [] = m
  insert_objects m (v ∷ objs) = insert_objects (insert_object m v) objs

  unfoldable pub init : List A → Memcache A
  unfolding ctor insert_objects
  init objs = insert_objects ctor objs

-- The operations, and what they return.
pub data Op {ℓ} (A : Type ℓ) : Type ℓ where
  popping : Op A
  popping_back : Op A
  pushing : (obj : Option A) → Op A

pub data Out {ℓ} (A : Type ℓ) : Type ℓ where
  got : (obj : Option A) → Out A
  did : Bool → Out A

module _ {ℓ} {A : Type ℓ} where
  unfoldable pub run : Memcache A → Op A → Memcache A × Out A
  unfolding pop pop_back push_back
  run m popping = let (after, obj) = pop m in (after, got obj)
  run m popping_back = let (after, obj) = pop_back m in (after, got obj)
  run m (pushing obj) = let (after, is_pushed) = push_back m obj in (after, did is_pushed)

  unfoldable pub run_all : Memcache A → List (Op A) → Memcache A × List (Out A)
  unfolding run
  run_all m [] = (m, [])
  run_all m (op ∷ ops) =
      let (after, out) = run m op in let (last, outs) = run_all after ops in (last, out ∷ outs)
