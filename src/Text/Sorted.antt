-- ===== src/Text/Sorted.antt =====
-- std::map<std::string, std::string> as a list that is sorted by key, which is the order of its iterators.
use testcluster.Prelude.{
  ◌≡◌, ◌≢◌, refl, Bool, true, false, Option, none, some, List, [], ◌∷◌, ltb, if◌then◌else◌, arith,
}
use testcluster.Pack.Order.{Bytes}

-- operator< of strings, by bytes.
unfoldable pub name_less : Bytes → Bytes → Bool
name_less [] [] = false
name_less [] (b ∷ ys) = true
name_less (a ∷ xs) [] = false
name_less (a ∷ xs) (b ∷ ys) =
    let rest = name_less xs ys in if ltb a b then true else if ltb b a then false else rest

abbrev pub Entries : Type 0
Entries = List (Bytes × Bytes)

-- m[key] = value
unfoldable pub put : Bytes → Bytes → Entries → Entries
put key value [] = (key, value) ∷ []
put key value ((k, v) ∷ rest) =
    let others = put key value rest in
    if name_less key k
    then (key, value) ∷ (k, v) ∷ rest
    else if name_less k key
    then (k, v) ∷ others
    else (key, value) ∷ rest

unfoldable pub get_entry : Bytes → Entries → Option Bytes
get_entry key [] = none
get_entry key ((k, v) ∷ rest) =
    let found = get_entry key rest in
    if name_less key k then none else if name_less k key then found else some v

unfoldable pub erase_entry : Bytes → Entries → Entries
erase_entry key [] = []
erase_entry key ((k, v) ∷ rest) =
    let others = erase_entry key rest in
    if name_less key k then (k, v) ∷ rest else if name_less k key then (k, v) ∷ others else rest

-- Every key of the entries is behind the key.
abbrev pub Behind : Bytes → Entries → Type 0
Behind key [] = Unit
Behind key ((k, v) ∷ rest) = (name_less key k ≡ true) × Behind key rest

abbrev pub IsSorted : Entries → Type 0
IsSorted [] = Unit
IsSorted ((k, v) ∷ rest) = Behind k rest × IsSorted rest

pub less_irrefl : (k : Bytes) → name_less k k ≡ false
unfolding name_less
less_irrefl [] = refl
less_irrefl (a ∷ xs) = ground (arith, less_irrefl xs)

pub less_asym : (k l : Bytes) → name_less k l ≡ true → name_less l k ≡ false
unfolding name_less
less_asym [] [] h = refl
less_asym [] (b ∷ ys) h = refl
less_asym (a ∷ xs) [] h = ground arith
less_asym (a ∷ xs) (b ∷ ys) h = ground (arith, less_asym xs ys)

pub less_trans :
    (k l m : Bytes) → name_less k l ≡ true → name_less l m ≡ true → name_less k m ≡ true
unfolding name_less
less_trans k [] [] g h = ground arith
less_trans k (b ∷ ys) [] g h = ground arith
less_trans [] l (c ∷ zs) g h = refl
less_trans (a ∷ xs) [] (c ∷ zs) g h = ground arith
less_trans (a ∷ xs) (b ∷ ys) (c ∷ zs) g h = ground (arith, less_trans xs ys zs)

-- Neither of two keys is less: they are the same.
pub less_total : (k l : Bytes) → name_less k l ≡ false → name_less l k ≡ false → k ≡ l
unfolding name_less
less_total [] [] g h = refl
less_total [] (b ∷ ys) g h = ground arith
less_total (a ∷ xs) [] g h = ground arith
less_total (a ∷ xs) (b ∷ ys) g h = ground (arith, less_total xs ys)

Behind-trans : (k l : Bytes) (es : Entries) → name_less k l ≡ true → Behind l es → Behind k es
Behind-trans k l [] h b = tt
Behind-trans k l ((m, v) ∷ es) h b = (less_trans k l m h (b.0), Behind-trans k l es h (b.1))

put-Behind :
    (j key value : Bytes) (es : Entries)
    → name_less j key ≡ true
    → Behind j es
    → Behind j (put key value es)
unfolding put
put-Behind j key value [] h b = (h, tt)
put-Behind j key value ((k, v) ∷ es) h b = ground (arith, put-Behind j key value es)

-- An assignment keeps the order.
pub put-IsSorted : (key value : Bytes) (es : Entries) → IsSorted es → IsSorted (put key value es)
unfolding put
put-IsSorted key value [] s = (tt, tt)
put-IsSorted key value ((k, v) ∷ es) s = ground (
  arith,
  put-IsSorted key value es,
  put-Behind k key value es,
  Behind-trans key k es,
  less_total key k,
)

-- What is read of a key after an assignment to another or the same.
pub get_entry-put :
    (key value : Bytes) (es : Entries) → get_entry key (put key value es) ≡ some value
unfolding get_entry put
get_entry-put key value [] = ground (arith, less_irrefl key)
get_entry-put key value ((k, v) ∷ es) = ground (arith, less_irrefl key, get_entry-put key value es)

pub get_entry-put_other :
    (key other value : Bytes) (es : Entries)
    → key ≢ other
    → IsSorted es
    → get_entry other (put key value es) ≡ get_entry other es
unfolding get_entry put
get_entry-put_other key other value [] differ s = ground (arith, less_total other key)
get_entry-put_other key other value ((k, v) ∷ es) differ s = ground (
  arith,
  less_total other key,
  less_total key k,
  less_asym key k,
  less_trans other key k,
  less_trans key k other,
  less_asym other key,
  less_asym key other,
  get_entry-put_other key other value es,
)

Behind-erase : (j key : Bytes) (es : Entries) → Behind j es → Behind j (erase_entry key es)
unfolding erase_entry
Behind-erase j key [] b = tt
Behind-erase j key ((k, v) ∷ es) b = ground (arith, Behind-erase j key es)

pub erase_entry-IsSorted :
    (key : Bytes) (es : Entries) → IsSorted es → IsSorted (erase_entry key es)
unfolding erase_entry
erase_entry-IsSorted key [] s = tt
erase_entry-IsSorted key ((k, v) ∷ es) s =
    ground (arith, erase_entry-IsSorted key es, Behind-erase k key es)

get_entry-Behind : (key : Bytes) (es : Entries) → Behind key es → get_entry key es ≡ none
unfolding get_entry
get_entry-Behind key [] b = refl
get_entry-Behind key ((k, v) ∷ es) b = rw (b.0)

pub get_entry-erase :
    (key : Bytes) (es : Entries) → IsSorted es → get_entry key (erase_entry key es) ≡ none
unfolding get_entry erase_entry
get_entry-erase key [] s = refl
get_entry-erase key ((k, v) ∷ es) s = ground (
  arith,
  less_total key k,
  get_entry-erase key es,
  get_entry-Behind key es,
  get_entry-Behind k es,
)

pub get_entry-erase_other :
    (key other : Bytes) (es : Entries)
    → key ≢ other
    → IsSorted es
    → get_entry other (erase_entry key es) ≡ get_entry other es
unfolding get_entry erase_entry
get_entry-erase_other key other [] differ s = refl
get_entry-erase_other key other ((k, v) ∷ es) differ s = ground (
  arith,
  less_total other key,
  less_total key k,
  less_total k other,
  less_trans other k key,
  less_trans key k other,
  get_entry-Behind other es,
  Behind-trans other k es,
  get_entry-erase_other key other es,
)
