-- ===== src/Addresses/Register.antt =====
-- `RegAddr` of python/zamlet/addresses.py: a byte in a vector register, and the jamlet that holds it.
-- The fields are not negative.
pub mod Place
mod Tests
use zamlet.Common.{
  ℕ, ◌+◌, ◌*◌, ◌/◌, ◌%◌, ltb, leb, ◌==◌, Bool, ◌&&◌, Result, ok, assert, ◌>>=◌, ◌>>◌,
}
use zamlet.Params.{ZamletParams, j_in_l, vline_bytes}
use zamlet.Addresses.Coords.{LineOrdering, vw_index_to_k_indices}

pub record RegAddr : Type 0 where
  pub reg : ℕ
  pub addr : ℕ
  pub ordering : LineOrdering

module _ (params : ZamletParams) where
  open params use {n_vregs}

  abbrev pub valid : RegAddr → Bool
  valid r = ltb r.addr (vline_bytes params) && ltb r.reg n_vregs && r.ordering.ew % 8 == 0

  abbrev pub eb : RegAddr → ℕ
  eb r = r.ordering.ew / 8

  pub element_index : RegAddr → Result ℕ
  element_index r = assert (valid r) >> ok (r.addr / eb r)

  pub offset_in_element : RegAddr → Result ℕ
  offset_in_element r = assert (valid r) >> ok (r.addr % eb r)

  pub vw_index : RegAddr → Result ℕ
  vw_index r = element_index r >>= λ e_index. ok (e_index % j_in_l params)

  pub k_index : RegAddr → Result ℕ
  k_index r = do
    assert (valid r)
    vw ← vw_index r
    indices ← vw_index_to_k_indices params r.ordering.word_order vw
    ok indices.0

  pub j_in_k_index : RegAddr → Result ℕ
  j_in_k_index r = do
    assert (valid r)
    vw ← vw_index r
    indices ← vw_index_to_k_indices params r.ordering.word_order vw
    ok indices.1

  pub offset_in_word : RegAddr → Result ℕ
  offset_in_word r = do
    assert (valid r)
    e_index ← element_index r
    ok (e_index / j_in_l params * eb r + r.addr % eb r)

  pub offset_bytes : RegAddr → ℕ → RegAddr
  offset_bytes r n_bytes =
      let new_addr = r.addr + n_bytes in
      record r { reg = r.reg + new_addr / vline_bytes params; addr = new_addr % vline_bytes params }
