-- ===== src/Addresses/Vline/Reorder.antt =====
-- Logical and physical element order of python/zamlet/addresses.py.
use native.Mathlib.Nat.{div-div-eq-div-mul, div-add-mod, mod-eq_of_lt, mod-lt}
use native.Mathlib.Decide.{dec_lt}
use zamlet.Common.{ℕ, ◌+◌, ◌*◌, ◌/◌, ◌%◌, ◌≤◌, ◌<◌, ◌≡◌, refl, ap, ◌∙◌, arith, le→leb, eq→==, ok}
use zamlet.Params.{ZamletParams, j_in_l, vline_bytes}
use zamlet.Params.Valid.{Sizes, j_in_l_pos, vline_bytes_pos, mul_pos}
use zamlet.Digits.{split_lt, join_lt, join-mod, join-div, split-join}
use zamlet.Addresses.Vline.{
  VpuAddress, LogicalVlineAddress, PhysicalVlineAddress, vpu_to_logical_vline_addr,
  logical_to_vpu_addr, logical_to_physical_vline_addr, physical_to_logical_vline_addr,
}

-- An element width that divides a word.
pub record Divides (p : ZamletParams) (ew : ℕ) : Type 0 where
  pub ew_pos : 0 < ew
  pub whole : p.word_bytes * 8 % ew ≡ 0

-- Bit `b` of a line of `a * c` elements of `w` bits, when element `n` moves from row `n / a`,
-- column `n % a` to the place of the transposed table.
module _ (a c w : ℕ) where
  pub moved : ℕ → ℕ
  moved b = (b / w % a * c + b / w / a) * w + b % w

  pub moved_lem :
      (b : ℕ)
      → 0 < a
      → 0 < w
      → b < a * c * w
      → (moved b % w ≡ b % w)
        × (moved b / w % c ≡ b / w / a)
        × (moved b / w / c ≡ b / w % a)
        × (moved b < a * c * w)
  unfolding moved
  moved_lem b ha hw h =
      let in_element = split_lt b w (a * c) hw (omega arith) in
      let n = b / w in
      let r = b % w in
      let place = split_lt n a c ha in_element.1 in
      let q = n % a * c + n / a in
      (
        join-mod r q w in_element.0,
        rw (join-div r q w in_element.0) (join-mod (n / a) (n % a) c place.1),
        rw (join-div r q w in_element.0) (join-div (n / a) (n % a) c place.1),
        join_lt r q w (a * c) in_element.0 (join_lt (n / a) (n % a) c a place.1 place.0),
      )

-- Transposing back.
moved_back :
    (a c w b : ℕ)
    → 0 < a
    → 0 < w
    → b < a * c * w
    → (moved a c w b / w / c + moved a c w b / w % c * a) * w + moved a c w b % w ≡ b
moved_back a c w b ha hw h =
    let m = moved_lem a c w b ha hw h in
    rw (m.0, m.1, m.2)
      (ap (λ t. t * w + b % w) (omega (arith, split-join (b / w) a)) ∙ split-join b w)

module _ (p : ZamletParams) (s : Sizes p) (ew : ℕ) (d : Divides p ew) where
  open p use {word_bytes}

  per_word : ℕ
  per_word = word_bytes * 8 / ew

  word_lem : per_word * ew ≡ word_bytes * 8
  unfolding per_word
  word_lem = omega (arith, div-add-mod (word_bytes * 8) ew, d.whole)

  vline_lem : vline_bytes p * 8 ≡ j_in_l p * per_word * ew
  vline_lem = omega (arith, ap (λ t. j_in_l p * t) word_lem)

  ew-le-word : ew ≤ word_bytes * 8
  ew-le-word = elim (dec_lt (word_bytes * 8) ew) [
    | yes short ↦ absurd (omega (arith, mod-eq_of_lt short, s.word_pos, d.whole))
    | no long ↦ omega arith
  ]

  per_word_pos : 0 < per_word
  per_word_pos = elim (dec_lt 0 per_word) [
    | yes some_room ↦ some_room
    | no none_left ↦
        let e : per_word ≡ 0 = omega arith in
        absurd (omega (arith, ap (λ t. t * ew) e, word_lem, s.word_pos))
  ]

  -- What `to_physical_vline_addr` computes is the transposition.
  physical_lem :
      (b : ℕ)
      → b / ew % j_in_l p * word_bytes * 8 + b / ew / j_in_l p * ew + b % ew
        ≡ moved (j_in_l p) per_word ew b
  unfolding moved
  physical_lem b = omega (arith, ap (λ t. b / ew % j_in_l p * t) word_lem)

  word_div : (b : ℕ) → b / (word_bytes * 8) ≡ b / ew / per_word
  word_div b =
      let e : word_bytes * 8 ≡ ew * per_word = omega (arith, word_lem) in
      rw (e, div-div-eq-div-mul b ew per_word)

  -- What `to_logical_vline_addr` computes is the transposition back, where its assertions hold.
  logical_of :
      (a : PhysicalVlineAddress)
      → a.ordering.ew ≡ ew
      → physical_to_logical_vline_addr p a
        ≡ ok (record {
          index = a.index;
          ordering = a.ordering;
          bit_addr =
              (a.bit_addr / ew / per_word + a.bit_addr / ew % per_word * j_in_l p) * ew
              + a.bit_addr % ew;
        })
  unfolding physical_to_logical_vline_addr per_word
  logical_of a e = rw (e, le→leb _ _ ew-le-word, eq→== _ _ d.whole, word_div a.bit_addr)

-- The address of a bit of a line in logical order, taken to the physical order and back.
pub logical-physical :
    (p : ZamletParams) (a : LogicalVlineAddress)
    → Sizes p
    → Divides p a.ordering.ew
    → a.bit_addr < vline_bytes p * 8
    → ((logical_to_physical_vline_addr p a).bit_addr < vline_bytes p * 8)
      × (physical_to_logical_vline_addr p (logical_to_physical_vline_addr p a) ≡ ok a)
unfolding logical_to_physical_vline_addr
logical-physical p a s d h =
    let ew = a.ordering.ew in
    let c = per_word p s ew d in
    let line = vline_lem p s ew d in
    let h' : a.bit_addr < j_in_l p * c * ew = rw (← line) h in
    let there = physical_lem p s ew d a.bit_addr in
    (
      rw (there, line) (moved_lem (j_in_l p) c ew a.bit_addr (j_in_l_pos p s) d.ew_pos h').3,
      logical_of p s ew d (logical_to_physical_vline_addr p a) refl
          ∙ rw (there, moved_back (j_in_l p) c ew a.bit_addr (j_in_l_pos p s) d.ew_pos h'),
    )

-- Where the element width divides the bits of a word, every bit of a line in physical order has a
-- logical address in the line, and the physical address of that is the bit again.
pub physical-logical :
    (p : ZamletParams) (a : PhysicalVlineAddress)
    → Sizes p
    → Divides p a.ordering.ew
    → a.bit_addr < vline_bytes p * 8
    → (l : LogicalVlineAddress) × (physical_to_logical_vline_addr p a ≡ ok l)
      × (l.bit_addr < vline_bytes p * 8)
      × (logical_to_physical_vline_addr p l ≡ a)
unfolding logical_to_physical_vline_addr moved
physical-logical p a s d h =
    let ew = a.ordering.ew in
    let c = per_word p s ew d in
    let n = a.bit_addr / ew in
    let line = vline_lem p s ew d in
    let h' : a.bit_addr < c * j_in_l p * ew = omega (arith, line, h) in
    let m = moved_lem c (j_in_l p) ew a.bit_addr (per_word_pos p s ew d) d.ew_pos h' in
    let swapped : (n / c + n % c * j_in_l p) * ew + a.bit_addr % ew
        ≡ moved c (j_in_l p) ew a.bit_addr =
      ap (λ t. t * ew + a.bit_addr % ew) (omega arith) in
    let l : LogicalVlineAddress = record {
      index = a.index;
      ordering = a.ordering;
      bit_addr = moved c (j_in_l p) ew a.bit_addr;
    } in
    let back : moved (j_in_l p) c ew l.bit_addr ≡ a.bit_addr =
      rw (m.0, m.1, m.2)
        (ap (λ t. t * ew + a.bit_addr % ew) (split-join n c) ∙ split-join a.bit_addr ew) in
    (
      l,
      logical_of p s ew d a refl ∙ rw (swapped),
      rw line (omega (arith, m.3)),
      rw (physical_lem p s ew d l.bit_addr, back),
    )

-- A vector line and a bit in it are one bit of VPU memory, and each bit lies in one line.
pub logical-vpu :
    (p : ZamletParams)
    → Sizes p
    → ((a : LogicalVlineAddress)
        → a.bit_addr < vline_bytes p * 8
        → vpu_to_logical_vline_addr p (logical_to_vpu_addr p a) ≡ a)
      × ((a : VpuAddress)
          → ((vpu_to_logical_vline_addr p a).bit_addr < vline_bytes p * 8)
            × (logical_to_vpu_addr p (vpu_to_logical_vline_addr p a) ≡ a))
unfolding vpu_to_logical_vline_addr logical_to_vpu_addr
logical-vpu p s = (
  (λ a h.
      rw (line_of, bits, join-div a.bit_addr a.index line h, join-mod a.bit_addr a.index line h)
        refl),
  λ a. (
    rw bits (mod-lt a.bit_addr (mul_pos _ _ (vline_bytes_pos p s) (omega arith))),
    rw (line_of, bits, split-join a.bit_addr line) refl,
  ),
)
  where
    line : ℕ
    line = vline_bytes p * 8

    bits : p.word_bytes * j_in_l p * 8 ≡ line
    bits = omega arith

    line_of : (b : ℕ) → b / 8 / (p.word_bytes * j_in_l p) ≡ b / line
    line_of b = div-div-eq-div-mul b 8 (p.word_bytes * j_in_l p) ∙ ap (λ t. b / t) (omega arith)
