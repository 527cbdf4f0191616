-- ===== src/Cluster/Name/Clean.antt =====
-- What the node's name may contain.
use testcluster.Prelude.{ℕ, ◌<◌, ◌≡◌, refl, [], ◌∷◌, length, arith}
use testcluster.Cluster.Wire.{Bytes}
use testcluster.Cluster.Name.{clean_hostname}

abbrev pub All : (ℕ → Type 0) → Bytes → Type 0
All P [] = Unit
All P (c ∷ rest) = P c × All P rest

-- The host part of the node name is as long as the host name, and holds printable ASCII without
-- spaces; what is so already stays as it is.
pub clean_hostname_printable :
    (name : Bytes)
    → All (λ c. (b' ' < c) × (c < 128)) (clean_hostname name)
      × (length (clean_hostname name) ≡ length name)
      × (clean_hostname (clean_hostname name) ≡ clean_hostname name)
unfolding clean_hostname
clean_hostname_printable [] = (tt, refl, refl)
clean_hostname_printable (c ∷ rest) =
    let (printable, same_length, idem) = clean_hostname_printable rest in
    (ground arith, omega arith, ground arith)
