-- ===== src/Fat32/Links.antt =====
-- Chains of clusters: a file's clusters linked in the allocation table, and the bytes that they
-- hold.
use os_2024_operatingstress.Base.{
  ℕ, zero, suc, ◌+◌, ◌≡◌, refl, ap, ap₂, ◌∙◌, some, List, [], ◌∷◌, ◌++◌, arith, get_elem?, All,
}
use os_2024_operatingstress.Strings.{Memory}
use os_2024_operatingstress.Disk.{Storage}
use os_2024_operatingstress.Fat32.Driver.{read_clusters, load_bytes}

-- Each cluster's entry is the next cluster, and the last one's is the end of file.
abbrev pub Links : List ℕ → List ℕ → Type 0
Links fat [] = Unit
Links fat (c ∷ []) = get_elem? fat c ≡ some 0x0FFFFFFF
Links fat (c ∷ d ∷ cs) = (get_elem? fat c ≡ some d) × Links fat (d ∷ cs)

-- The bytes of the clusters, in order.
abbrev pub contents : Storage → List ℕ → List ℕ
contents d [] = []
contents d (c ∷ cs) = read_clusters d c ++ contents d cs

-- Clusters that two disks agree on have the same bytes on both.
pub contents_cong :
    (d e : Storage) (cs : List ℕ)
    → All (λ c. read_clusters d c ≡ read_clusters e c) cs
    → contents d cs ≡ contents e cs
contents_cong d e [] h = refl
contents_cong d e (c ∷ cs) h = ap₂ ◌++◌ h.0 (contents_cong d e cs h.1)

pub load_bytes-append :
    (a b : ℕ) (m : Memory) (p : ℕ)
    → load_bytes m p (a + b) ≡ load_bytes m p a ++ load_bytes m (p + a) b
unfolding load_bytes
load_bytes-append zero b m p =
    ap (λ k. load_bytes m p k) (omega arith) ∙ ap (λ q. load_bytes m q b) (omega arith)
load_bytes-append (suc a) b m p =
    let count : suc a + b ≡ suc (a + b) = omega arith in
    let at : p + 1 + a ≡ p + suc a = omega arith in
    ap (λ k. load_bytes m p k) count
    ∙ ap (λ l. m p ∷ l)
        (load_bytes-append a b m (p + 1) ∙ ap (λ q. load_bytes m (p + 1) a ++ load_bytes m q b) at)
