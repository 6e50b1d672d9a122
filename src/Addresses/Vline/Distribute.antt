-- ===== src/Addresses/Vline/Distribute.antt =====
-- A vector line spread over the kamlets' memories, and put together again.
use native.Mathlib.Nat.{div-div-eq-div-mul}
use zamlet.Common.{ℕ, ◌+◌, ◌*◌, ◌/◌, ◌%◌, ◌<◌, ◌≡◌, refl, ap, ◌∙◌, arith, ok}
use zamlet.Params.{ZamletParams, j_in_k, k_in_l, j_in_l, vline_bytes}
use zamlet.Params.Valid.{Sizes, j_in_k_pos, mul_pos}
use zamlet.Addresses.Coords.Inverse.{Laid, k_indices_inverse}
use zamlet.Digits.{split_lt, join-mod, join-div, split-join}
use zamlet.Addresses.Vline.{
  LogicalVlineAddress, PhysicalVlineAddress, KmAddr, logical_to_physical_vline_addr,
  physical_to_k_maddr, logical_to_k_maddr, k_maddr_to_physical_vline_addr,
  k_maddr_to_logical_vline_addr, k_maddr_j_in_k_index,
}
use zamlet.Addresses.Vline.Reorder.{Divides, logical-physical}

-- Word `j` of line `i` in a memory of `c` words of `v` bytes to a line, at bit `r` of the word.
words_lem :
    (i j r c v : ℕ)
    → 0 < c
    → j < c
    → r < v * 8
    → let b = i * (v * 8 * c) + j * v * 8 + r in
      (b / (c * v * 8) ≡ i) × (b / (v * 8) % c ≡ j) × (b % (v * 8) ≡ r)
words_lem i j r c v hc hj hr =
    let w = v * 8 in
    let n = i * c + j in
    let word : i * (v * 8 * c) + j * v * 8 + r ≡ n * w + r = omega arith in
    let line : c * v * 8 ≡ w * c = omega arith in
    (
      rw (word, line, ← div-div-eq-div-mul (n * w + r) w c, join-div r n w hr) (join-div j i c hj),
      rw (word, join-div r n w hr) (join-mod j i c hj),
      rw (word, join-mod r n w hr) refl,
    )

pub physical-k_maddr :
    (p : ZamletParams) (a : PhysicalVlineAddress)
    → Sizes p
    → Laid p a.ordering.word_order
    → a.bit_addr < vline_bytes p * 8
    → (m : KmAddr) × (physical_to_k_maddr p a ≡ ok m)
      × (m.k_index < k_in_l p)
      × (k_maddr_j_in_k_index p m < j_in_k p)
      × (k_maddr_to_physical_vline_addr p m ≡ ok a)
unfolding physical_to_k_maddr k_maddr_j_in_k_index k_maddr_to_physical_vline_addr
physical-k_maddr p a s l h =
    let w = p.word_bytes * 8 in
    let c = j_in_k p in
    let b = a.bit_addr in
    let w_pos : 0 < w = mul_pos _ _ s.word_pos (omega arith) in
    let word : b / 8 / p.word_bytes ≡ b / w =
      div-div-eq-div-mul b 8 p.word_bytes ∙ ap (λ t. b / t) (omega arith) in
    let in_line = split_lt b w (j_in_l p) w_pos (omega arith) in
    let (k, j, found, k_in, j_in, back) =
      k_indices_inverse p s a.ordering.word_order (b / w) l in_line.1 in
    let place = words_lem a.index j (b % w) c p.word_bytes (j_in_k_pos p s) j_in in_line.0 in
    let m : KmAddr = record {
      k_index = k;
      ordering = a.ordering;
      bit_addr = a.index * (w * c) + j * p.word_bytes * 8 + b % w;
    } in
    let whole : b / w * p.word_bytes * 8 + b % w ≡ b = omega (arith, split-join b w) in
    (
      m,
      rw (word, found),
      k_in,
      rw place.1 j_in,
      rw (place.0, place.1, place.2, back) (ap (λ t. ok (record a { bit_addr = t })) whole),
    )

physical-Laid :
    (p : ZamletParams) (a : LogicalVlineAddress)
    → Laid p a.ordering.word_order
    → Laid p (logical_to_physical_vline_addr p a).ordering.word_order
unfolding logical_to_physical_vline_addr
physical-Laid p a l = l

-- A bit of a vector line in logical order, in the standard or the Moore word order (for Moore, on a
-- square grid whose side is a power of two from 2) and with an element width that divides the bits
-- of a word, has a place in the memory of one kamlet of the grid and one of its jamlets, and
-- `to_logical_vline_addr` leads from that place back to the bit.
pub logical-k_maddr :
    (p : ZamletParams) (a : LogicalVlineAddress)
    → Sizes p
    → Laid p a.ordering.word_order
    → Divides p a.ordering.ew
    → a.bit_addr < vline_bytes p * 8
    → (m : KmAddr) × (logical_to_k_maddr p a ≡ ok m)
      × (m.k_index < k_in_l p)
      × (k_maddr_j_in_k_index p m < j_in_k p)
      × (k_maddr_to_logical_vline_addr p m ≡ ok a)
unfolding logical_to_k_maddr k_maddr_to_logical_vline_addr
logical-k_maddr p a s l d h =
    let there = logical-physical p a s d h in
    let (m, found, k_in, j_in, back) =
      physical-k_maddr p (logical_to_physical_vline_addr p a) s (physical-Laid p a l) there.0 in
    (m, found, k_in, j_in, rw back there.1)
