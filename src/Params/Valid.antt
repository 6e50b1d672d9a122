-- ===== src/Params/Valid.antt =====
-- The configurations and the checks of `__post_init__` of python/zamlet/params.py.
use zamlet.Common.{
  ℕ, zero, suc, ◌+◌, ◌*◌, ◌%◌, ◌^◌, ◌≤◌, ◌<◌, ◌≡◌, ◌↔◌, ok, arith, ltb→lt, lt→ltb, le→leb, eq→==,
  ==→eq, leb→le, assert_all-AllTrue, assert_all, refl, Bool, ltb, leb, ◌==◌, List, [], ◌∷◌,
}
use zamlet.Common.Int.{pos}
use native.Mathlib.Nat.{mul-mod_left, mod_self}
use zamlet.Params.{
  ZamletParams, j_in_k, k_in_l, j_in_l, cache_slot_words, cache_line_bytes, page_bytes, maxvl_bytes,
  vline_bytes, IntParams, post_init,
}

-- The integers of a configuration without negative numbers.
abbrev pub as_ints : ZamletParams → IntParams
as_ints p = record {
  k_cols = pos p.k_cols;
  k_rows = pos p.k_rows;
  j_cols = pos p.j_cols;
  j_rows = pos p.j_rows;
  cache_slot_words_per_jamlet = pos p.cache_slot_words_per_jamlet;
  word_bytes = pos p.word_bytes;
  page_words_per_jamlet = pos p.page_words_per_jamlet;
  scalar_memory_bytes = pos p.scalar_memory_bytes;
  kamlet_memory_bytes = pos p.kamlet_memory_bytes;
  max_response_tags = pos p.max_response_tags;
  sync_ident_width = pos p.sync_ident_width;
  sync_bus_width = pos p.sync_bus_width;
}

module _ (p : ZamletParams) where
  abbrev natural_checks : List Bool
  natural_checks =
      (ltb 0 (page_bytes p))
      ∷ (page_bytes p % maxvl_bytes p == 0)
      ∷ (ltb 0 (maxvl_bytes p))
      ∷ (maxvl_bytes p % (p.k_cols * p.k_rows * p.j_cols * p.j_rows * p.word_bytes) == 0)
      ∷ (ltb 0 (cache_line_bytes p))
      ∷ (cache_line_bytes p % (p.j_cols * p.j_rows * p.word_bytes) == 0)
      ∷ (leb (k_in_l p * cache_line_bytes p) (page_bytes p))
      ∷ (page_bytes p % (k_in_l p * cache_line_bytes p) == 0)
      ∷ (leb (1 + p.sync_ident_width) p.sync_bus_width)
      ∷ (ltb p.max_response_tags (2 ^ p.sync_ident_width))
      ∷ (ltb (cache_line_bytes p) p.scalar_memory_bytes)
      ∷ (p.scalar_memory_bytes % cache_line_bytes p == 0)
      ∷ (ltb (cache_line_bytes p) p.kamlet_memory_bytes)
      ∷ (p.kamlet_memory_bytes % cache_line_bytes p == 0)
      ∷ []

  post_init_natural : post_init (as_ints p) ≡ assert_all natural_checks
  unfolding post_init
  post_init_natural = refl

-- Every size that a vector line, a cache line and a page are made of is positive.
pub record Sizes (p : ZamletParams) : Type 0 where
  pub k_cols_pos : 0 < p.k_cols
  pub k_rows_pos : 0 < p.k_rows
  pub j_cols_pos : 0 < p.j_cols
  pub j_rows_pos : 0 < p.j_rows
  pub word_pos : 0 < p.word_bytes
  pub page_pos : 0 < p.page_words_per_jamlet
  pub slot_pos : 0 < p.cache_slot_words_per_jamlet

-- A factor of a positive product is positive.
factor_pos : (a b : ℕ) → 0 < a * b → (0 < a) × (0 < b)
factor_pos zero b h = absurd (omega arith)
factor_pos (suc a) zero h = absurd (omega arith)
factor_pos (suc a) (suc b) h = omega arith

-- What an accepted configuration satisfies besides.
pub record IsValid (p : ZamletParams) : Type 0 where
  pub sizes : Sizes p
  pub open sizes use *
  pub page_holds_lines : k_in_l p * cache_line_bytes p ≤ page_bytes p
  pub page_lines : page_bytes p % (k_in_l p * cache_line_bytes p) ≡ 0
  pub ident_fits_bus : p.sync_ident_width + 1 ≤ p.sync_bus_width
  pub tags_fit : p.max_response_tags < 2 ^ p.sync_ident_width
  pub scalar_holds_line : cache_line_bytes p < p.scalar_memory_bytes
  pub scalar_lines : p.scalar_memory_bytes % cache_line_bytes p ≡ 0
  pub kamlet_holds_line : cache_line_bytes p < p.kamlet_memory_bytes
  pub kamlet_lines : p.kamlet_memory_bytes % cache_line_bytes p ≡ 0

post_init_positive :
    (p : ZamletParams)
    → assert_all (natural_checks p) ≡ ok tt
    → (0 < page_bytes p) × (0 < cache_line_bytes p)
post_init_positive p h = ground arith

post_init-Sizes : (p : ZamletParams) → assert_all (natural_checks p) ≡ ok tt → Sizes p
post_init-Sizes p h =
    let both = post_init_positive p h in
    let page = factor_pos (p.page_words_per_jamlet * p.word_bytes) (j_in_l p) both.0 in
    let words = factor_pos p.page_words_per_jamlet p.word_bytes page.0 in
    let grid = factor_pos (j_in_k p) (k_in_l p) page.1 in
    let j = factor_pos p.j_cols p.j_rows grid.0 in
    let k = factor_pos p.k_cols p.k_rows grid.1 in
    let line = factor_pos (cache_slot_words p) p.word_bytes both.1 in
    let slot = factor_pos p.cache_slot_words_per_jamlet (j_in_k p) line.0 in
    record {
      k_cols_pos = k.0;
      k_rows_pos = k.1;
      j_cols_pos = j.0;
      j_rows_pos = j.1;
      word_pos = words.1;
      page_pos = words.0;
      slot_pos = slot.0;
    }

post_init_rest :
    (p : ZamletParams)
    → assert_all (natural_checks p) ≡ ok tt
    → (k_in_l p * cache_line_bytes p ≤ page_bytes p)
      × (page_bytes p % (k_in_l p * cache_line_bytes p) ≡ 0)
      × (p.sync_ident_width + 1 ≤ p.sync_bus_width)
      × (p.max_response_tags < 2 ^ p.sync_ident_width)
      × (cache_line_bytes p < p.scalar_memory_bytes)
      × (p.scalar_memory_bytes % cache_line_bytes p ≡ 0)
      × (cache_line_bytes p < p.kamlet_memory_bytes)
      × (p.kamlet_memory_bytes % cache_line_bytes p ≡ 0)
post_init_rest p h =
    let t = assert_all-AllTrue (natural_checks p) h in
    let u = t.1.1.1.1.1.1 in
    let v = u.1.1.1.1 in
    (
      leb→le _ _ u.0,
      ==→eq _ _ u.1.0,
      omega (arith, leb→le _ _ u.1.1.0),
      ltb→lt _ _ u.1.1.1.0,
      ltb→lt _ _ v.0,
      ==→eq _ _ v.1.0,
      ltb→lt _ _ v.1.1.0,
      ==→eq _ _ v.1.1.1.0,
    )

pub post_init-IsValid : (p : ZamletParams) → assert_all (natural_checks p) ≡ ok tt → IsValid p
post_init-IsValid p h =
    let r = post_init_rest p h in
    record {
      sizes = post_init-Sizes p h;
      page_holds_lines = r.0;
      page_lines = r.1;
      ident_fits_bus = r.2;
      tags_fit = r.3;
      scalar_holds_line = r.4;
      scalar_lines = r.5;
      kamlet_holds_line = r.6;
      kamlet_lines = r.7;
    }

-- The products that the first checks compare are positive, and multiples by their definition.
pub mul_pos : (a b : ℕ) → 0 < a → 0 < b → 0 < a * b
mul_pos a b h k = grind arith

pub j_in_k_pos : (p : ZamletParams) → Sizes p → 0 < j_in_k p
j_in_k_pos p s = mul_pos _ _ s.j_cols_pos s.j_rows_pos

pub k_in_l_pos : (p : ZamletParams) → Sizes p → 0 < k_in_l p
k_in_l_pos p s = mul_pos _ _ s.k_cols_pos s.k_rows_pos

pub j_in_l_pos : (p : ZamletParams) → Sizes p → 0 < j_in_l p
j_in_l_pos p s = mul_pos _ _ (j_in_k_pos p s) (k_in_l_pos p s)

pub vline_bytes_pos : (p : ZamletParams) → Sizes p → 0 < vline_bytes p
vline_bytes_pos p s = mul_pos _ _ (j_in_l_pos p s) s.word_pos

pub page_bytes_pos : (p : ZamletParams) → Sizes p → 0 < page_bytes p
page_bytes_pos p s = mul_pos _ _ (mul_pos _ _ s.page_pos s.word_pos) (j_in_l_pos p s)

pub cache_line_bytes_pos : (p : ZamletParams) → Sizes p → 0 < cache_line_bytes p
cache_line_bytes_pos p s = mul_pos _ _ (mul_pos _ _ s.slot_pos (j_in_k_pos p s)) s.word_pos

page-mod-vline : (p : ZamletParams) → page_bytes p % maxvl_bytes p ≡ 0
page-mod-vline p =
    let e : page_bytes p ≡ p.page_words_per_jamlet * maxvl_bytes p = omega arith in
    rw e (mul-mod_left p.page_words_per_jamlet (maxvl_bytes p))

vline-mod_self :
    (p : ZamletParams)
    → maxvl_bytes p % (p.k_cols * p.k_rows * p.j_cols * p.j_rows * p.word_bytes) ≡ 0
vline-mod_self p =
    let e : p.k_cols * p.k_rows * p.j_cols * p.j_rows * p.word_bytes ≡ maxvl_bytes p =
      omega arith in
    rw e (mod_self (maxvl_bytes p))

line-mod-words : (p : ZamletParams) → cache_line_bytes p % (p.j_cols * p.j_rows * p.word_bytes) ≡ 0
line-mod-words p =
    let e : cache_line_bytes p
        ≡ p.cache_slot_words_per_jamlet * (p.j_cols * p.j_rows * p.word_bytes) =
      omega arith in
    rw e (mul-mod_left p.cache_slot_words_per_jamlet (p.j_cols * p.j_rows * p.word_bytes))

IsValid-post_init : (p : ZamletParams) → IsValid p → assert_all (natural_checks p) ≡ ok tt
IsValid-post_init p v = simp (
  lt→ltb _ _ (page_bytes_pos p v.sizes),
  eq→== _ _ (page-mod-vline p),
  lt→ltb _ _ (vline_bytes_pos p v.sizes),
  eq→== _ _ (vline-mod_self p),
  lt→ltb _ _ (cache_line_bytes_pos p v.sizes),
  eq→== _ _ (line-mod-words p),
  le→leb _ _ v.page_holds_lines,
  eq→== _ _ v.page_lines,
  le→leb (1 + p.sync_ident_width) p.sync_bus_width (omega (arith, v.ident_fits_bus)),
  lt→ltb _ _ v.tags_fit,
  lt→ltb _ _ v.scalar_holds_line,
  eq→== _ _ v.scalar_lines,
  lt→ltb _ _ v.kamlet_holds_line,
  eq→== _ _ v.kamlet_lines,
)

-- Among the configurations without a negative number, `__post_init__`, which computes with
-- integers, accepts one exactly when every dimension is positive, a page is a whole number of cache
-- lines of all kamlets, the memories hold more than a line and are whole numbers of lines, and the
-- identifiers fit the bus and number the response tags.
pub post_init_iff : (p : ZamletParams) → (post_init (as_ints p) ≡ ok tt) ↔ IsValid p
post_init_iff p = rw (post_init_natural p) (post_init-IsValid p, IsValid-post_init p)
