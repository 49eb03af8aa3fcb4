-- ===== src/Fat32/Files/Delete.antt =====
-- `delete` of a file removes it from the files that the disk holds in the directory.
use os_2024_operatingstress.Base.{
  suc, ◌+◌, ◌%◌, ◌^◌, ◌<◌, ◌≡◌, refl, sym, ap, ◌∙◌, subst, ◌≢◌, true, some, [], ◌∷◌, ◌++◌, arith,
  length, get_elem?, All-get, All-map,
}
use os_2024_operatingstress.Fat32.Types.{
  DirectoryEntry, DirectoryTable, DriverRequest, IsEntry, IsRequest,
}
use os_2024_operatingstress.Fat32.Links.{Links}
use os_2024_operatingstress.Fat32.Driver.{DriverState, read_table, read_fat, is_used, divceil}
use os_2024_operatingstress.Fat32.Driver.Laws.{same_bytes_iff}
use os_2024_operatingstress.Fat32.Driver.Invariant.{IsState, read_table-IsTable}
use os_2024_operatingstress.Fat32.Delete.{matches_name}
use os_2024_operatingstress.Fat32.Delete.Laws.{Skips}
use os_2024_operatingstress.Fat32.Delete.File.{FileAt}
use os_2024_operatingstress.Fat32.Files.{File, chain, IsFree, Holds}

-- The loop of `delete` turns to the file: it passes over the entries between the first and the
-- file's, where the name matches, and the request has the file's extension.
pub record Chooses (r : DriverRequest) (s : DriverState) (f : File) : Type 0 where
  pub state : IsState s
  pub request : IsRequest r
  pub cached : s.fat_table ≡ read_fat s.disk
  pub parent_in : r.parent_cluster_number < 512
  pub parent_apart : r.parent_cluster_number ≢ 1
  pub own : DirectoryEntry
  pub xs : DirectoryTable
  pub e : DirectoryEntry
  pub ys : DirectoryTable
  pub table : read_table s.disk r.parent_cluster_number ≡ own ∷ (xs ++ e ∷ ys)
  pub slot : f.slot ≡ 1 + length xs
  pub passed : Skips r xs (e ∷ ys)
  pub named : matches_name r (e ∷ ys) ≡ some true
  pub ext : r.ext ≡ f.ext

middle :
    (xs ys : DirectoryTable) (e : DirectoryEntry) → get_elem? (xs ++ e ∷ ys) (length xs) ≡ some e
middle [] ys e = refl
middle (x ∷ xs) ys e = middle xs ys e

module _ {r : DriverRequest} {s : DriverState} {f : File} (h : Chooses r s f)
    (held : Holds s.disk r.parent_cluster_number f) where
  pub same_entry : held.entry ≡ h.e
  same_entry =
      let found =
        sym held.held
        ∙ (ap (λ t. get_elem? t f.slot) h.table
            ∙ (ap (get_elem? (h.own ∷ (h.xs ++ h.e ∷ h.ys))) h.slot
                ∙ ap (λ k. get_elem? (h.own ∷ (h.xs ++ h.e ∷ h.ys)) k) one
                ∙ middle h.xs h.ys h.e)) in
      cc
    where
      one : 1 + length h.xs ≡ suc (length h.xs)
      one = omega arith

  pub Chooses-FileAt : FileAt r s h.own h.xs h.e h.ys f.first f.rest
  Chooses-FileAt =
      let t = read_table-IsTable s.disk r.parent_cluster_number h.state.disk in
      let ve : IsEntry h.e =
        subst IsEntry same_entry (
          All-get IsEntry (read_table s.disk r.parent_cluster_number) f.slot t.entries held.held) in
      let exts = same_bytes_iff 3 h.e.ext r.ext ve.ext h.request.ext in
      record {
        state = h.state;
        parent_in = h.parent_in;
        parent_apart = h.parent_apart;
        table = h.table;
        passed = h.passed;
        used = subst (λ x. is_used x ≡ true) same_entry held.used;
        named = h.named;
        ext =
            exts.1
              (sym (ap (λ (x : DirectoryEntry). x.ext) same_entry) ∙ (held.named.1 ∙ sym h.ext));
        is_file = subst (λ (x : DirectoryEntry). x.attribute ≡ 0) same_entry held.is_file;
        first = subst (λ (x : DirectoryEntry). x.cluster_low ≡ f.first) same_entry held.at;
        links = subst (λ l. Links l (chain f)) (sym h.cached) held.links;
        inside =
            All-map (IsFree r.parent_cluster_number) (λ k. k < 512) (chain f) (λ k a. a.0)
              held.apart;
        count =
            subst (λ (x : DirectoryEntry). divceil x.filesize 2048 % 2 ^ 16 ≡ suc (length f.rest))
              same_entry (ap (λ k. divceil k 2048 % 2 ^ 16) held.size ∙ held.count);
      }
