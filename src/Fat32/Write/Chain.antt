-- ===== src/Fat32/Write/Chain.antt =====
-- The loop of `write` that writes a file: the clusters it takes form a chain that holds the buffer.
use os_2024_operatingstress.Base.{
  ℕ, zero, suc, ◌+◌, ◌-◌, ◌*◌, ◌^◌, ◌≤◌, ◌<◌, ◌≡◌, refl, sym, ap, ap₂, ◌∙◌, fun_ext, subst, ◌≢◌,
  true, false, some, List, [], ◌∷◌, ◌++◌, arith, ltb, lt→ltb, length, get_elem?, set, replicate,
  length-append, length-replicate, get_elem?-set_self, get_elem?-set_ne, lt-length_of_some, All,
  All-append, All-replicate, All-map,
}
use mathlib.Core.List.{append-nil, append_assoc}
use os_2024_operatingstress.Strings.{Memory}
use os_2024_operatingstress.Fat32.Types.{DriverRequest}
use os_2024_operatingstress.Fat32.Codec.Bounds.{Bytes}
use os_2024_operatingstress.Fat32.Links.{Links, contents, load_bytes-append}
use os_2024_operatingstress.Fat32.Driver.{DriverState, read_clusters, read_fat, load_bytes}
use os_2024_operatingstress.Fat32.Driver.Invariant.{IsState, load_bytes-Bytes}
use os_2024_operatingstress.Fat32.Write.{
  free_cluster, update_slot, grow, write_link, write_end, write_chain,
}
use os_2024_operatingstress.Fat32.Write.Search.{free_count, free_cluster_two}
use os_2024_operatingstress.Fat32.Write.Slot.{
  update_slot-update_slot, grow-grow, placed-IsState, placed_fat, placed_bytes, placed_others,
}

-- The rounds from `i` on, `n` of them, took the clusters `cs`.
pub record Chained (r : DriverRequest) (slot i n : ℕ) (s s' : DriverState) (cs : List ℕ)
    : Type 0 where
  pub memory : s'.memory ≡ s.memory
  pub table : s'.dir_table_buf ≡ update_slot s.dir_table_buf slot (grow (r.buffer_size - 2048 * i))
  pub count : length cs ≡ n
  pub links : Links s'.fat_table cs
  pub free : All (λ c. get_elem? s.fat_table c ≡ some 0) cs
  pub bytes :
      contents s'.disk cs
      ≡ load_bytes s.memory (r.buf + 2048 * i) (r.buffer_size - 2048 * i)
        ++ replicate (2048 * n - (r.buffer_size - 2048 * i)) 0
  pub kept_fat :
      (k : ℕ)
      → get_elem? s.fat_table k ≢ some 0
      → get_elem? s'.fat_table k ≡ get_elem? s.fat_table k
  pub rest_fat : (k : ℕ) → All (λ c. c ≢ k) cs → get_elem? s'.fat_table k ≡ get_elem? s.fat_table k
  pub kept :
      (k : ℕ)
      → k < 512
      → k ≢ 1
      → get_elem? s.fat_table k ≢ some 0
      → read_clusters s'.disk k ≡ read_clusters s.disk k
  pub fat : read_fat s'.disk ≡ s'.fat_table
  pub valid : IsState s'

-- The last cluster's bytes: what is left of the buffer, and zeros.
abbrev pub last_bytes : Memory → ℕ → ℕ → List ℕ
last_bytes m p left = load_bytes m p left ++ replicate (2048 - left) 0

pub last_bytes-Bytes :
    (m : Memory) (p left : ℕ)
    → ((a : ℕ) → m a < 256)
    → left ≤ 2048
    → (length (last_bytes m p left) ≡ 2048) × Bytes (last_bytes m p left)
last_bytes-Bytes m p left v h =
    let got = load_bytes-Bytes left m p v in
    (
      omega (
        arith,
        length-append (load_bytes m p left) (replicate (2048 - left) 0),
        length-replicate {A = ℕ} (2048 - left) 0,
        got.0,
      ),
      All-append (λ x. x < 256) _ (replicate (2048 - left) 0) got.1
          (All-replicate (λ x. x < 256) (2048 - left) (omega arith)),
    )

module _ (r : DriverRequest) (slot : ℕ) where
  -- The last round.
  end_lem :
      (i c : ℕ) (s : DriverState)
      → IsState s
      → get_elem? s.fat_table 1 ≢ some 0
      → get_elem? s.fat_table c ≡ some 0
      → 2048 * i < r.buffer_size
      → r.buffer_size ≤ 2048 * (i + 1)
      → Chained r slot i 1 s (write_end r slot i c s) (c ∷ [])
  unfolding write_end
  end_lem i c s v f1 fc lo hi =
      let left : ℕ = r.buffer_size - 2048 * i in
      let bs : List ℕ = last_bytes s.memory (r.buf + 2048 * i) left in
      let (size, b) = last_bytes-Bytes s.memory (r.buf + 2048 * i) left v.memory (omega arith) in
      let lt : c < 512 = omega (arith, lt-length_of_some s.fat_table c fc, v.fat.size) in
      let ne : c ≢ 1 = λ e. f1 (subst (λ k. get_elem? s.fat_table k ≡ some 0) e fc) in
      let big : 0x0FFFFFFF < 2 ^ 32 = omega arith in
      record {
        memory = refl;
        table = refl;
        count = refl;
        links = get_elem?-set_self s.fat_table c 0x0FFFFFFF (omega (arith, v.fat.size));
        free = (fc, tt);
        bytes = append-nil _ ∙ placed_bytes slot c 0x0FFFFFFF bs left s v size b big lt ne;
        kept_fat = λ k h.
            get_elem?-set_ne s.fat_table c k 0x0FFFFFFF
              (λ e. h (subst (λ j. get_elem? s.fat_table j ≡ some 0) e fc));
        rest_fat = λ k h. get_elem?-set_ne s.fat_table c k 0x0FFFFFFF h.0;
        kept = λ k lk n1 h.
            placed_others slot c 0x0FFFFFFF bs left s v size b big k lt lk n1
              (λ e. h (subst (λ j. get_elem? s.fat_table j ≡ some 0) (sym e) fc));
        fat = placed_fat slot c 0x0FFFFFFF bs left s v size b big;
        valid = placed-IsState slot c 0x0FFFFFFF bs left s v size b big;
      }

  -- A round that is not the last, with the rounds behind it.
  link_lem :
      (i n c d : ℕ) (s s' : DriverState) (cs : List ℕ)
      → IsState s
      → get_elem? s.fat_table 1 ≢ some 0
      → get_elem? s.fat_table c ≡ some 0
      → get_elem? s.fat_table d ≡ some 0
      → c < d
      → 2048 * (i + 1) < r.buffer_size
      → Chained r slot (i + 1) (suc n) (write_link r slot i c d s) s' (d ∷ cs)
      → Chained r slot i (suc (suc n)) s s' (c ∷ d ∷ cs)
  unfolding write_link
  link_lem i n c d s s' cs v f1 fc fd cd lo h =
      let rest : ℕ = r.buffer_size - 2048 * (i + 1) in
      let got = load_bytes-Bytes 2048 s.memory (r.buf + 2048 * i) v.memory in
      let bs : List ℕ = load_bytes s.memory (r.buf + 2048 * i) 2048 in
      let lt : c < 512 = omega (arith, lt-length_of_some s.fat_table c fc, v.fat.size) in
      let ld : d < 512 = omega (arith, lt-length_of_some s.fat_table d fd, v.fat.size) in
      let ne : c ≢ 1 = λ e. f1 (subst (λ k. get_elem? s.fat_table k ≡ some 0) e fc) in
      let big : d < 2 ^ 32 = omega arith in
      let here : get_elem? (set s.fat_table c d) c ≡ some d =
        get_elem?-set_self s.fat_table c d (omega (arith, v.fat.size)) in
      let apart : (k : ℕ) → get_elem? s.fat_table k ≢ some 0 → k ≢ c =
        λ k p e. p (subst (λ j. get_elem? s.fat_table j ≡ some 0) (sym e) fc) in
      let taken : get_elem? (set s.fat_table c d) c ≢ some 0 = ground (arith, here) in
      let same : (k : ℕ) → k ≢ c → get_elem? (set s.fat_table c d) k ≡ get_elem? s.fat_table k =
        λ k p. get_elem?-set_ne s.fat_table c k d (λ e. p (sym e)) in
      let used : (k : ℕ)
          → get_elem? s.fat_table k ≢ some 0
          → get_elem? (set s.fat_table c d) k ≢ some 0 =
        λ k p q. p (sym (same k (apart k p)) ∙ q) in
      let all : 2048 + rest ≡ r.buffer_size - 2048 * i = omega arith in
      let pad : 2048 * suc n - rest ≡ 2048 * suc (suc n) - (r.buffer_size - 2048 * i) =
        omega arith in
      let at : r.buf + 2048 * i + 2048 ≡ r.buf + 2048 * (i + 1) = omega arith in
      let whole : load_bytes s.memory (r.buf + 2048 * i) (r.buffer_size - 2048 * i)
          ≡ bs ++ load_bytes s.memory (r.buf + 2048 * (i + 1)) rest =
        ap (load_bytes s.memory (r.buf + 2048 * i)) (sym all)
        ∙ (load_bytes-append 2048 rest s.memory (r.buf + 2048 * i)
            ∙ ap (λ q. bs ++ load_bytes s.memory q rest) at) in
      record {
        memory = h.memory;
        table =
            h.table
            ∙ (update_slot-update_slot s.dir_table_buf slot (grow 2048) (grow rest)
                ∙ ap (update_slot s.dir_table_buf slot)
                    (fun_ext (λ e. grow-grow 2048 rest e ∙ ap (λ k. grow k e) all)));
        count = ap suc h.count;
        links = (h.kept_fat c taken ∙ here, h.links);
        free = (
          fc,
          All-map (λ k. get_elem? (set s.fat_table c d) k ≡ some 0)
              (λ k. get_elem? s.fat_table k ≡ some 0) (d ∷ cs)
              (λ k q.
                sym (
                  same k (λ e. taken (subst (λ j. get_elem? (set s.fat_table c d) j ≡ some 0) e q)))
                ∙ q)
              h.free,
        );
        bytes =
            ap₂ ◌++◌
              (h.kept c lt ne taken ∙ placed_bytes slot c d bs 2048 s v got.0 got.1 big lt ne)
              h.bytes
            ∙ (sym (append_assoc bs _ _) ∙ ap₂ ◌++◌ (sym whole) (ap (λ k. replicate k 0) pad));
        kept_fat = λ k p. h.kept_fat k (used k p) ∙ same k (apart k p);
        rest_fat = λ k p. h.rest_fat k p.1 ∙ get_elem?-set_ne s.fat_table c k d p.0;
        kept = λ k lk n1 p.
            h.kept k lk n1 (used k p)
            ∙ placed_others slot c d bs 2048 s v got.0 got.1 big k lt lk n1 (apart k p);
        fat = h.fat;
        valid = h.valid;
      }

  -- What such a round leaves for the next.
  link_ready :
      (i c d : ℕ) (s : DriverState)
      → IsState s
      → get_elem? s.fat_table 1 ≢ some 0
      → get_elem? s.fat_table c ≡ some 0
      → get_elem? s.fat_table d ≡ some 0
      → (free_cluster (set s.fat_table c d) 0 ≡ some d)
        × (free_count (set s.fat_table c d) + 1 ≡ free_count s.fat_table)
      → IsState (write_link r slot i c d s)
        × (get_elem? (write_link r slot i c d s).fat_table 1 ≢ some 0)
        × (free_cluster (write_link r slot i c d s).fat_table 0 ≡ some d)
        × (free_count (write_link r slot i c d s).fat_table + 1 ≡ free_count s.fat_table)
  unfolding write_link
  link_ready i c d s v f1 fc fd next =
      let got = load_bytes-Bytes 2048 s.memory (r.buf + 2048 * i) v.memory in
      let ld : d < 512 = omega (arith, lt-length_of_some s.fat_table d fd, v.fat.size) in
      let ne : c ≢ 1 = λ e. f1 (subst (λ k. get_elem? s.fat_table k ≡ some 0) e fc) in
      (
        placed-IsState slot c d (load_bytes s.memory (r.buf + 2048 * i) 2048) 2048 s v got.0 got.1
            (omega arith),
        λ q. f1 (sym (get_elem?-set_ne s.fat_table c 1 d ne) ∙ q),
        next.0,
        next.1,
      )

  -- Enough free clusters for the rounds and one more: the loop returns, and the clusters it took,
  -- from the first free one on, hold the bytes.
  pub chain_lem :
      (n i total : ℕ) (s : DriverState)
      → IsState s
      → get_elem? s.fat_table 1 ≢ some 0
      → suc n < free_count s.fat_table
      → total ≡ i + suc n
      → 2048 * (total - 1) < r.buffer_size
      → r.buffer_size ≤ 2048 * total
      → (s' : DriverState) × (c : ℕ) × (cs : List ℕ) × (free_cluster s.fat_table 0 ≡ some c)
        × (write_chain (suc n) r total slot i s ≡ some s')
        × Chained r slot i (suc n) s s' (c ∷ cs)
  unfolding write_chain
  chain_lem zero i total s v f1 room e lo hi =
      let (c, d, first, second, cd, fc, fd, taken) = free_cluster_two s.fat_table (omega arith) in
      let last : ltb i (total - 1) ≡ false = ground arith in
      (
        write_end r slot i c s,
        c,
        [],
        first,
        rw (first, second, last),
        end_lem i c s v f1 fc (omega arith) (omega arith),
      )
  chain_lem (suc n) i total s v f1 room e lo hi =
      let (c, d, first, second, cd, fc, fd, taken) = free_cluster_two s.fat_table (omega arith) in
      let more : ltb i (total - 1) ≡ true = lt→ltb i (total - 1) (omega arith) in
      let (v', f1', found', count) = link_ready i c d s v f1 fc fd (taken d (omega arith)) in
      let (s', d', cs, found, run, chained) =
        chain_lem n (i + 1) total (write_link r slot i c d s) v' f1' (omega (arith, count))
          (omega arith) lo hi in
      let same : d' ≡ d = let both = sym found ∙ found' in cc in
      (
        s',
        c,
        d ∷ cs,
        first,
        rw (first, second, more) run,
        link_lem i n c d s s' cs v f1 fc fd cd (omega arith) (
            subst (λ k. Chained r slot (i + 1) (suc n) (write_link r slot i c d s) s' (k ∷ cs)) same
              chained),
      )
