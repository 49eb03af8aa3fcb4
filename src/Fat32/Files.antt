-- ===== src/Fat32/Files.antt =====
-- An abstract view of a directory: the files that a disk holds in it, by name and extension, each
-- with its bytes and the clusters they are in. What `read`, `write` and `delete` do to the view is
-- in the children.
pub mod Read
pub mod Write
pub mod Delete
pub mod Deleted
pub mod Undo
mod Tests
use os_2024_operatingstress.Base.{
  ℕ, zero, suc, ◌+◌, ◌-◌, ◌*◌, ◌/◌, ◌%◌, ◌^◌, ◌≤◌, ◌<◌, bit_and, bit_or, ◌≡◌, refl, sym, ap, ap₂,
  ◌∙◌, fun_ext, subst, ◌≢◌, ◌↔◌, ◌⊎◌, inl, inr, Bool, true, false, not, ◌&&◌, ◌||◌, Option, none,
  some, List, [], ◌∷◌, ◌++◌, map, arith, ℤ, pos, negsuc, ltb, leb, ◌==◌, if◌then◌else◌, ltb→lt,
  lt→ltb, ==_iff, Bool-cases, Option-cases, Ends, Ends-some, Ends-bind, Ends-if, ◌>>=◌, length,
  get_elem?, get_or, set, take, drop, replicate, length-append, length-set, length-drop,
  length-take, length-replicate, take-append-drop, take-append, drop-append, take_all, eq-nil,
  get_elem?-set_self, get_elem?-set_ne, get_elem?-some, lt-length_of_some, All, All-set, All-get,
  All-append, All-get_or, All-front, All-back, All-take, All-drop, All-replicate, take-set_self,
  take-set_ge, take-append_le, All-map, set-set, split-set, split-get_elem?, All-below,
  get_elem?-set, get_elem?-ext,
}
use os_2024_operatingstress.Disk.{Storage}
use os_2024_operatingstress.Fat32.Codec.{decode_table, decode_fat}
use os_2024_operatingstress.Fat32.Types.{DirectoryEntry, DirectoryTable}
use os_2024_operatingstress.Fat32.Links.{Links, contents, contents_cong}
use os_2024_operatingstress.Fat32.Driver.{read_clusters, read_table, read_fat, is_used, divceil}

-- A file, with where it stands: its slot in the directory, and its clusters `first ∷ rest`.
pub record File : Type 0 where
  pub name : List ℕ
  pub ext : List ℕ
  pub bytes : List ℕ
  pub slot : ℕ
  pub first : ℕ
  pub rest : List ℕ

abbrev pub chain : File → List ℕ
chain f = f.first ∷ f.rest

abbrev pub Named : DirectoryEntry → File → Type 0
Named e f = (e.name ≡ f.name) × (e.ext ≡ f.ext)

-- A cluster that files of the directory `p` may use.
abbrev pub IsFree : ℕ → ℕ → Type 0
IsFree p k = (k < 512) × (k ≢ 0) × (k ≢ 1) × (k ≢ p)

-- The disk holds the file in the directory `p`, in the first entry with its name and extension.
pub record Holds (d : Storage) (p : ℕ) (f : File) : Type 0 where
  pub entry : DirectoryEntry
  pub held : get_elem? (read_table d p) f.slot ≡ some entry
  pub before :
      (j : ℕ) (x : DirectoryEntry)
      → j < f.slot
      → get_elem? (read_table d p) j ≡ some x
      → ¬ Named x f
  pub named : Named entry f
  pub used : is_used entry ≡ true
  pub is_file : entry.attribute ≡ 0
  pub at : entry.cluster_low ≡ f.first
  pub size : entry.filesize ≡ length f.bytes
  pub links : Links (read_fat d) (chain f)
  pub count : divceil (length f.bytes) 2048 % 2 ^ 16 ≡ suc (length f.rest)
  pub apart : All (IsFree p) (chain f)
  pub bytes : take (length f.bytes) (contents d (chain f)) ≡ f.bytes

abbrev pub Disjoint : List ℕ → List ℕ → Type 0
Disjoint xs ys = All (λ k. All (λ j. j ≢ k) ys) xs

-- No two files share a cluster.
abbrev pub Apart : List File → Type 0
Apart [] = Unit
Apart (f ∷ fs) = All (λ g. Disjoint (chain f) (chain g)) fs × Apart fs

-- The disk holds these files in the directory `p`. The list's order says nothing.
pub record Stores (d : Storage) (p : ℕ) (fs : List File) : Type 0 where
  pub files : All (Holds d p) fs
  pub disjoint : Apart fs

-- Every cluster of a linked chain without cluster 0 is in use.
pub chain_used :
    (p : ℕ) (fat cs : List ℕ)
    → Links fat cs
    → All (IsFree p) cs
    → All (λ k. get_elem? fat k ≢ some 0) cs
chain_used p fat [] h v = tt
chain_used p fat (c ∷ []) h v = (ground (arith, h), tt)
chain_used p fat (c ∷ d ∷ cs) h v =
    (let n = v.1.0.1 in ground (arith, h.0), chain_used p fat (d ∷ cs) h.1 v.1)

-- A chain whose entries are the same is linked in the other table too.
pub Links-cong :
    (fat fat' cs : List ℕ)
    → All (λ k. get_elem? fat' k ≡ get_elem? fat k) cs
    → Links fat cs
    → Links fat' cs
Links-cong fat fat' [] h v = tt
Links-cong fat fat' (c ∷ []) h v = h.0 ∙ v
Links-cong fat fat' (c ∷ d ∷ cs) h v = (h.0 ∙ v.0, Links-cong fat fat' (d ∷ cs) h.1 v.1)

-- Another disk holds the file as well, if its table differs in one other slot only, in front of the
-- file without its name, and its clusters and their entries are the same.
pub Holds-cong :
    (d d' : Storage) (p slot : ℕ) (e : DirectoryEntry) (f : File)
    → Holds d p f
    → read_table d' p ≡ set (read_table d p) slot e
    → slot ≢ f.slot
    → (slot < f.slot → ¬ Named e f)
    → All (λ k. get_elem? (read_fat d') k ≡ get_elem? (read_fat d) k) (chain f)
    → All (λ k. read_clusters d' k ≡ read_clusters d k) (chain f)
    → Holds d' p f
Holds-cong d d' p slot e f h table other front fat same = record {
  entry = h.entry;
  held =
      ap (λ t. get_elem? t f.slot) table
      ∙ (get_elem?-set_ne (read_table d p) slot f.slot e other ∙ h.held);
  before = λ j x lt got.
      elim (get_elem?-set (read_table d p) slot j e x (sym (ap (λ t. get_elem? t j) table) ∙ got)) [
        | inl (here, own) ↦ subst (λ y. ¬ Named y f) (sym own) (front (omega (arith, here)))
        | inr kept ↦ h.before j x lt kept
      ];
  named = h.named;
  used = h.used;
  is_file = h.is_file;
  at = h.at;
  size = h.size;
  links = Links-cong (read_fat d) (read_fat d') (chain f) fat h.links;
  count = h.count;
  apart = h.apart;
  bytes = ap (take (length f.bytes)) (contents_cong d' d (chain f) same) ∙ h.bytes;
}

-- A disk with the same clusters holds the same file.
pub Holds-same :
    (d d' : Storage) (p : ℕ) (f : File)
    → p < 512
    → ((c : ℕ) → c < 512 → read_clusters d' c ≡ read_clusters d c)
    → Holds d p f
    → Holds d' p f
unfolding read_table read_fat
Holds-same d d' p f lt same h =
    let table : read_table d' p ≡ read_table d p = ap (decode_table 64) (same p lt) in
    let fat : read_fat d' ≡ read_fat d = ap (decode_fat 512) (same 1 (omega arith)) in
    record {
      entry = h.entry;
      held = ap (λ t. get_elem? t f.slot) table ∙ h.held;
      before = λ j x below got. h.before j x below (sym (ap (λ t. get_elem? t j) table) ∙ got);
      named = h.named;
      used = h.used;
      is_file = h.is_file;
      at = h.at;
      size = h.size;
      links = subst (λ t. Links t (chain f)) (sym fat) h.links;
      count = h.count;
      apart = h.apart;
      bytes =
          ap (take (length f.bytes)) (
            contents_cong d' d (chain f) (
              All-map (IsFree p) (λ k. read_clusters d' k ≡ read_clusters d k) (chain f)
                (λ k a. same k a.0) h.apart))
          ∙ h.bytes;
    }
