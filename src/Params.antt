-- ===== src/Params.antt =====
-- python/zamlet/params.py: the sizes of the hardware, and the numbers that follow from them.
pub mod Valid
use zamlet.Common.{
  ℕ, ◌+◌, ◌-◌, ◌*◌, ◌/◌, ◌%◌, ◌^◌, Bool, Result, ok, err, value_error, assert, ◌>>=◌, ◌>>◌, List,
  [], ◌∷◌, ltb, leb, ◌==◌,
}
use zamlet.Common.Int.{ℤ, pos, negsuc, ◌*ℤ◌, lt_ℤ, le_ℤ, add_ℤ, divides_ℤ}

-- `ZamletParams`: the fields that the modelled code reads.
pub record ZamletParams : Type 0 where
  pub k_cols : ℕ
  pub k_rows : ℕ
  pub j_cols : ℕ
  pub j_rows : ℕ
  pub n_vregs : ℕ
  pub cache_slot_words_per_jamlet : ℕ
  pub word_bytes : ℕ
  pub page_words_per_jamlet : ℕ
  pub scalar_memory_bytes : ℕ
  pub kamlet_memory_bytes : ℕ
  pub sram_depth : ℕ
  pub router_output_buffer_length : ℕ
  pub router_input_buffer_length : ℕ
  pub n_ident_query_slots : ℕ
  pub max_response_tags : ℕ
  pub sync_ident_width : ℕ
  pub sync_bus_width : ℕ
  pub element_index_width : ℕ

-- The defaults of the class.
abbrev pub default_params : ZamletParams
default_params = record {
  k_cols = 2;
  k_rows = 1;
  j_cols = 1;
  j_rows = 1;
  n_vregs = 48;
  cache_slot_words_per_jamlet = 2;
  word_bytes = 8;
  page_words_per_jamlet = 64;
  scalar_memory_bytes = 8 * 2 ^ 20;
  kamlet_memory_bytes = 2 ^ 20;
  sram_depth = 128;
  router_output_buffer_length = 2;
  router_input_buffer_length = 2;
  n_ident_query_slots = 8;
  max_response_tags = 512;
  sync_ident_width = 10;
  sync_bus_width = 11;
  element_index_width = 22;
}

module _ (params : ZamletParams) where
  open params use {
    k_cols, k_rows, j_cols, j_rows, cache_slot_words_per_jamlet, word_bytes, page_words_per_jamlet,
    scalar_memory_bytes, kamlet_memory_bytes, sram_depth, max_response_tags, sync_ident_width,
    sync_bus_width,
  }

  abbrev pub j_in_k : ℕ
  j_in_k = j_cols * j_rows

  abbrev pub k_in_l : ℕ
  k_in_l = k_cols * k_rows

  abbrev pub j_in_l : ℕ
  j_in_l = j_in_k * k_in_l

  abbrev pub cache_slot_words : ℕ
  cache_slot_words = cache_slot_words_per_jamlet * j_in_k

  abbrev pub cache_line_bytes : ℕ
  cache_line_bytes = cache_slot_words * word_bytes

  abbrev pub k_vline_bytes : ℕ
  k_vline_bytes = j_in_k * word_bytes

  abbrev pub maxvl_bytes : ℕ
  maxvl_bytes = j_in_l * word_bytes

  abbrev pub vline_bytes : ℕ
  vline_bytes = j_in_l * word_bytes

  abbrev pub page_bytes : ℕ
  page_bytes = page_words_per_jamlet * word_bytes * j_in_l

  abbrev pub jamlet_sram_bytes : ℕ
  jamlet_sram_bytes = sram_depth * word_bytes

  abbrev pub n_cache_slots : ℕ
  n_cache_slots = sram_depth / cache_slot_words

  abbrev pub west_offset : ℕ
  west_offset =
      let n_left_cols = k_cols / 2 in
      let n_left_memlets = n_left_cols * k_rows in
      let edge_height = k_rows * j_rows in (n_left_memlets + edge_height - 1) / edge_height

  abbrev pub north_offset : ℕ
  north_offset = 1

  abbrev pub jamlet_to_routing : ℕ → ℕ → ℕ × ℕ
  jamlet_to_routing jx jy = (jx + west_offset, jy + north_offset)

  -- The routing coordinates are those of a jamlet, so the subtractions are exact.
  pub kamlet_monitor_coords : ℕ → ℕ → ℕ × ℕ
  kamlet_monitor_coords routing_x routing_y =
      let jx = routing_x - west_offset in
      let jy = routing_y - north_offset in
      (jx / j_cols * j_cols + west_offset, jy / j_rows * j_rows + north_offset)

-- The fields as `__post_init__` finds them: python's integers, which can be negative.
pub record IntParams : Type 0 where
  pub k_cols : ℤ
  pub k_rows : ℤ
  pub j_cols : ℤ
  pub j_rows : ℤ
  pub cache_slot_words_per_jamlet : ℤ
  pub word_bytes : ℤ
  pub page_words_per_jamlet : ℤ
  pub scalar_memory_bytes : ℤ
  pub kamlet_memory_bytes : ℤ
  pub max_response_tags : ℤ
  pub sync_ident_width : ℤ
  pub sync_bus_width : ℤ

-- `1 << width`
abbrev shifted_one : ℤ → Result ℕ
shifted_one (pos width) = ok (2 ^ width)
shifted_one (negsuc _) = err value_error

abbrev covers : ℤ → ℤ → Result Bool
covers width tags = shifted_one width >>= λ n. ok (lt_ℤ tags (pos n))

-- The assertions one after another; a test may raise itself.
abbrev pub assert_each : List (Result Bool) → Result (Unit {0})
assert_each [] = ok tt
assert_each (test ∷ tests) = test >>= λ b. assert b >> assert_each tests

module _ (params : IntParams) where
  open params use {
    k_cols, k_rows, j_cols, j_rows, cache_slot_words_per_jamlet, word_bytes, page_words_per_jamlet,
    scalar_memory_bytes, kamlet_memory_bytes, max_response_tags, sync_ident_width, sync_bus_width,
  }

  abbrev int_k_in_l : ℤ
  int_k_in_l = k_cols *ℤ k_rows

  abbrev int_j_in_l : ℤ
  int_j_in_l = (j_cols *ℤ j_rows) *ℤ int_k_in_l

  abbrev int_page_bytes : ℤ
  int_page_bytes = page_words_per_jamlet *ℤ word_bytes *ℤ int_j_in_l

  abbrev int_maxvl_bytes : ℤ
  int_maxvl_bytes = int_j_in_l *ℤ word_bytes

  abbrev int_cache_line_bytes : ℤ
  int_cache_line_bytes = cache_slot_words_per_jamlet *ℤ (j_cols *ℤ j_rows) *ℤ word_bytes

  -- The checks of `__post_init__`, in its order. The checks before a division make its divisor
  -- differ from zero.
  abbrev pub post_init_checks : List (Result Bool)
  post_init_checks =
      ok (lt_ℤ (pos 0) int_page_bytes)
      ∷ ok (divides_ℤ int_page_bytes int_maxvl_bytes)
      ∷ ok (lt_ℤ (pos 0) int_maxvl_bytes)
      ∷ ok (divides_ℤ int_maxvl_bytes (k_cols *ℤ k_rows *ℤ j_cols *ℤ j_rows *ℤ word_bytes))
      ∷ ok (lt_ℤ (pos 0) int_cache_line_bytes)
      ∷ ok (divides_ℤ int_cache_line_bytes (j_cols *ℤ j_rows *ℤ word_bytes))
      ∷ ok (le_ℤ (int_k_in_l *ℤ int_cache_line_bytes) int_page_bytes)
      ∷ ok (divides_ℤ int_page_bytes (int_k_in_l *ℤ int_cache_line_bytes))
      ∷ ok (le_ℤ (add_ℤ 1 sync_ident_width) sync_bus_width)
      ∷ covers sync_ident_width max_response_tags
      ∷ ok (lt_ℤ int_cache_line_bytes scalar_memory_bytes)
      ∷ ok (divides_ℤ scalar_memory_bytes int_cache_line_bytes)
      ∷ ok (lt_ℤ int_cache_line_bytes kamlet_memory_bytes)
      ∷ ok (divides_ℤ kamlet_memory_bytes int_cache_line_bytes)
      ∷ []

  unfoldable pub post_init : Result (Unit {0})
  post_init = assert_each post_init_checks
