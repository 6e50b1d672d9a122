-- ===== src/Network/Sync/Packing.antt =====
-- The values of the synchronization bus of python/zamlet/synchronization.py, packed and unpacked.
use native.Mathlib.Nat.{mod-eq_of_lt, pow-succ', div-lt_iff_lt-mul, le-div_iff_mul-le}
use zamlet.Common.{
  ℕ, zero, suc, ◌+◌, ◌-◌, ◌*◌, ◌/◌, ◌^◌, ◌≤◌, ◌<◌, ◌≡◌, refl, sym, subst, ap, ◌∙◌, arith, bit_and,
  bit_or, ltb, leb, ltb→lt, lt→ltb, leb→le, ◌==◌, if◌then◌else◌, Bool-cases, inl, inr, true, false,
  ◌&&◌, not, Option, none, some, List, length, ok, assert, ◌>>◌, >>=-eq-ok, assert-then, ok_unique,
}
use zamlet.Bits.{bit_or-shift, bit_and-mask}
use zamlet.Digits.{join-mod, join-div, join_lt}
use zamlet.Params.{ZamletParams}
use zamlet.Addresses.Tlb.{TlbFaultType, no_fault, page_fault, read_fault, write_fault, not_waited}
use zamlet.Utils.{log2ceil, list_of_uints_to_uint, uint_to_list_of_uints}
use zamlet.Utils.Words.{list_of_uints-uint_to_list, log2ceil_lem}
use zamlet.Network.Sync.{
  pack_min_pair, unpack_min_pair, VectorFaultInfo, pack_fault_info, unpack_fault_info,
  fault_type_value, fault_type_of, SyncPacket, n_value_bytes, combined_bits, to_words, from_words,
}

-- Two fields side by side are read back.
fields_lem :
    (w low high : ℕ)
    → low < 2 ^ w
    → (bit_and (bit_or low (high * 2 ^ w)) (2 ^ w - 1) ≡ low)
      × (bit_or low (high * 2 ^ w) / 2 ^ w ≡ high)
fields_lem w low high h =
    let side : bit_or low (high * 2 ^ w) ≡ high * 2 ^ w + low =
      bit_or-shift w low high h ∙ omega arith in
    rw (side, bit_and-mask w (high * 2 ^ w + low))
      (join-mod low high (2 ^ w) h, join-div low high (2 ^ w) h)

pair_lem :
    (low high : ℕ)
    → leb 2 high && leb high 8 ≡ true
    → leb low 511 ≡ true
    → (bit_and (bit_or low ((high - 1) * 512)) 511 ≡ low)
      × (bit_and (bit_or low ((high - 1) * 512) / 512) 7 + 1 ≡ high)
pair_lem low high range small =
    let low_small = leb→le low 511 small in
    let (low_read, high_read) = fields_lem 9 low (high - 1) (omega arith) in
    let bounds : (2 ≤ high) × (high ≤ 8) = ground (arith, range) in
    (
      low_read,
      rw (high_read, bit_and-mask 3 (high - 1), mod-eq_of_lt {n = high - 1} {m = 8} (omega arith))
          (omega arith),
    )

-- `unpack_min_pair` reads back every pair that `pack_min_pair` accepts.
pub unpack_min_pair-pack :
    (low : Option ℕ) (high value : ℕ)
    → pack_min_pair low high ≡ ok value
    → unpack_min_pair value ≡ (low, high)
unfolding pack_min_pair unpack_min_pair
unpack_min_pair-pack none high value e =
    let (range, e₁) = assert-then (leb 2 high && leb high 8) _ e in
    let (low_read, high_read) = pair_lem 0 high range refl in
    subst (λ t. unpack_min_pair t ≡ (none, high)) (ok_unique e₁) (rw (low_read, high_read) refl)
unpack_min_pair-pack (some low) high value e =
    let (low_val, is_low, e₁) = >>=-eq-ok (assert (not (low == 0)) >> ok low) _ e in
    let (present, same) = assert-then (not (low == 0)) (ok low) is_low in
    let (range, e₂) = assert-then (leb 2 high && leb high 8) _ e₁ in
    let (small, e₃) = assert-then (leb low_val 511) _ e₂ in
    let same_low : low ≡ low_val = ok_unique same in
    let (low_read, high_read) = pair_lem low high range (rw same_low small) in
    let nonzero : low == 0 ≡ false = ground (arith, present) in
    subst (λ t. unpack_min_pair t ≡ (some low, high)) (ok_unique (rw (sym same_low) at e₃))
      (rw (low_read, high_read, nonzero) refl)

-- `from_words` of words that hold `combined`.
from_words_lem :
    (data_width ident_width ident v : ℕ) (words : List ℕ)
    → ident < 2 ^ ident_width
    → list_of_uints_to_uint words data_width ≡ ok (bit_or ident (v * 2 ^ ident_width))
    → from_words words data_width ident_width
      ≡ ok (record { sync_ident = ident; value = if ltb 1 (length words) then some v else none })
unfolding from_words
from_words_lem data_width ident_width ident v words small e =
    let (ident_read, value_read) = fields_lem ident_width ident v small in
    rw (e, ident_read, value_read) refl

n_value_bytes_pos : (v bytes : ℕ) (asked : Option ℕ) → n_value_bytes v asked ≡ ok bytes → 0 < bytes
unfolding n_value_bytes
n_value_bytes_pos v bytes (some n) e =
    let (positive, e₁) = assert-then (leb 1 n) _ e in
    let (_, e₂) = assert-then (leb (log2ceil v) (n * 8)) _ e₁ in
    subst (λ t. 0 < t) (ok_unique e₂) (leb→le 1 n positive)
n_value_bytes_pos v bytes none e = subst (λ t. 0 < t) (ok_unique e) (some_bytes (log2ceil v) refl)
  where
    some_bytes : (bits : ℕ) → log2ceil v ≡ bits → 0 < (if v == 0 then 1 else (bits + 7) / 8)
    some_bytes bits is_bits =
        let below : v < 2 ^ bits = subst (λ t. v < 2 ^ t) is_bits (log2ceil_lem v).0 in
        elim (Bool-cases (v == 0)) [
          | inl is_zero ↦ rw is_zero (omega arith)
          | inr nonzero ↦ rw nonzero (at_least bits below nonzero)
        ]
      where
        at_least : (b : ℕ) → v < 2 ^ b → v == 0 ≡ false → 0 < (b + 7) / 8
        at_least zero below nonzero = absurd (ground (arith, below, nonzero))
        at_least (suc b) below nonzero = omega arith

words_of_none : (i d : ℕ) → 0 < d → i ≤ d → (i + d - 1) / d ≤ 1
words_of_none i d h k =
    let below : (i + d - 1) / d < 2 = (div-lt_iff_lt-mul h).1 (omega arith) in omega arith

words_of_some : (i b d : ℕ) → 0 < d → d < i + 8 → 0 < b → 1 < (i + b * 8 + d - 1) / d
words_of_some i b d h k p = (le-div_iff_mul-le h).1 (omega arith)

from_words-to_words_header :
    (d i ident : ℕ) (asked : Option ℕ) (words : List ℕ)
    → 0 < d
    → i ≤ d
    → ident < 2 ^ i
    → to_words d i asked (record { sync_ident = ident; value = none }) ≡ ok words
    → from_words words d i ≡ ok (record { sync_ident = ident; value = none })
unfolding to_words combined_bits from_words
from_words-to_words_header d i ident asked words h fits small e =
    let (whole, n) = list_of_uints-uint_to_list ident d ((i + d - 1) / d) words e in
    let short = words_of_none i d h fits in
    let one : ltb 1 (length words) ≡ false = ground arith in
    rw (whole, one, bit_and-mask i ident, mod-eq_of_lt small) refl

from_words-to_words_value :
    (d i ident v : ℕ) (asked : Option ℕ) (words : List ℕ)
    → 0 < d
    → d < i + 8
    → ident < 2 ^ i
    → to_words d i asked (record { sync_ident = ident; value = some v }) ≡ ok words
    → from_words words d i ≡ ok (record { sync_ident = ident; value = some v })
unfolding to_words combined_bits
from_words-to_words_value d i ident v asked words h short small e =
    let (combined, is_combined, e₁) = >>=-eq-ok _ _ e in
    let (bytes, is_bytes, e₂) = >>=-eq-ok (n_value_bytes v asked) _ is_combined in
    let e₃ =
      subst (λ t. uint_to_list_of_uints t.0 d ((t.1 + d - 1) / d) ≡ ok words) (sym (ok_unique e₂))
        e₁ in
    let (whole, n) =
      list_of_uints-uint_to_list (bit_or ident (v * 2 ^ i)) d ((i + bytes * 8 + d - 1) / d) words
        e₃ in
    let several = words_of_some i bytes d h short (n_value_bytes_pos v bytes asked is_bytes) in
    let long : ltb 1 (length words) ≡ true = lt→ltb 1 (length words) (omega arith) in
    from_words_lem d i ident v words small whole ∙ rw long refl

-- `from_words` reads back the packet that `to_words` made words of, with a value or without, where
-- the identifier has the declared width, one word can hold the identifier, and one word cannot hold
-- the identifier and a byte.
pub from_words-to_words :
    (data_width ident_width : ℕ) (value_bytes : Option ℕ) (packet : SyncPacket) (words : List ℕ)
    → 0 < data_width
    → ident_width ≤ data_width
    → data_width < ident_width + 8
    → packet.sync_ident < 2 ^ ident_width
    → to_words data_width ident_width value_bytes packet ≡ ok words
    → from_words words data_width ident_width ≡ ok packet
from_words-to_words d i asked packet words h fits short small e = by_value packet.value refl
  where
    by_value : (v : Option ℕ) → packet.value ≡ v → from_words words d i ≡ ok packet
    by_value none same =
        let is_header : packet ≡ record { sync_ident = packet.sync_ident; value = none } =
          ap (λ t. record packet { value = t }) same in
        subst (λ t. from_words words d i ≡ ok t) (sym is_header)
          (from_words-to_words_header d i packet.sync_ident asked words h fits small
            (subst (λ t. to_words d i asked t ≡ ok words) is_header e))
    by_value (some v) same =
        let is_full : packet ≡ record { sync_ident = packet.sync_ident; value = some v } =
          ap (λ t. record packet { value = t }) same in
        subst (λ t. from_words words d i ≡ ok t) (sym is_full)
          (from_words-to_words_value d i packet.sync_ident v asked words h short small
            (subst (λ t. to_words d i asked t ≡ ok words) is_full e))

fault_fields_lem :
    (a t addr index : ℕ)
    → addr < 2 ^ a
    → t < 4
    → let packed = bit_or (bit_or addr (t * 2 ^ a)) (index * 2 ^ (a + 2)) in
      (bit_and packed (2 ^ a - 1) ≡ addr)
      × (bit_and (packed / 2 ^ a) 3 ≡ t)
      × (packed / 2 ^ (a + 2) ≡ index)
fault_fields_lem a t addr index h k =
    let four : 2 ^ (a + 2) ≡ 2 ^ a * 4 =
      ap (λ n. 2 ^ n) (omega arith) ∙ pow-succ' 2 (suc a) ∙ omega (arith, pow-succ' 2 a) in
    let fits : addr + t * 2 ^ a < 2 ^ (a + 2) = four_rows four (join_lt addr t (2 ^ a) 4 h k) in
    let inner = bit_or-shift a addr t h in
    let outer = bit_or-shift (a + 2) (addr + t * 2 ^ a) index fits in
    let regroup : addr + t * 2 ^ a + index * 2 ^ (a + 2) ≡ (index * 4 + t) * 2 ^ a + addr =
      regroup_lem four in
    rw (inner, outer)
      (
        rw (regroup, bit_and-mask a ((index * 4 + t) * 2 ^ a + addr))
            (join-mod addr (index * 4 + t) (2 ^ a) h),
        rw (regroup, join-div addr (index * 4 + t) (2 ^ a) h)
            (bit_and-mask 2 (index * 4 + t) ∙ join-mod t index 4 k),
        ap (λ n. n / 2 ^ (a + 2)) (omega arith)
            ∙ join-div (addr + t * 2 ^ a) index (2 ^ (a + 2)) fits,
      )
  where
    four_rows : {p : ℕ} → p ≡ 2 ^ a * 4 → t * 2 ^ a + addr < 4 * 2 ^ a → addr + t * 2 ^ a < p
    four_rows {p} e l = omega arith

    regroup_lem :
        {p : ℕ} → p ≡ 2 ^ a * 4 → addr + t * 2 ^ a + index * p ≡ (index * 4 + t) * 2 ^ a + addr
    regroup_lem {p} e = rw e (grind arith)

fault_type_of-value : (t : TlbFaultType) → fault_type_of (fault_type_value t) ≡ ok t
fault_type_of-value no_fault = refl
fault_type_of-value page_fault = refl
fault_type_of-value read_fault = refl
fault_type_of-value write_fault = refl
fault_type_of-value not_waited = refl

-- `unpack_fault_info` reads back every fault that `pack_fault_info` accepts.
pub unpack_fault_info-pack :
    (params : ZamletParams) (info : VectorFaultInfo) (value : ℕ)
    → pack_fault_info params info ≡ ok value
    → unpack_fault_info params value ≡ ok info
unfolding pack_fault_info unpack_fault_info
unpack_fault_info-pack params info value e =
    let a = params.word_bytes * 8 in
    let (_, e₁) = assert-then (ltb info.element_index (2 ^ params.element_index_width)) _ e in
    let (type_fits, e₂) = assert-then (ltb (fault_type_value info.fault_type) 4) _ e₁ in
    let (addr_fits, e₃) = assert-then (ltb info.fault_addr (2 ^ a)) _ e₂ in
    let (addr_read, type_read, index_read) =
      fault_fields_lem a (fault_type_value info.fault_type) info.fault_addr info.element_index
        (ltb→lt _ _ addr_fits) (ltb→lt _ _ type_fits) in
    subst (λ t. unpack_fault_info params t ≡ ok info) (ok_unique e₃)
      (rw (addr_read, type_read, index_read, fault_type_of-value info.fault_type) refl)

-- The element of a packed fault stands above its address and its type.
pub pack_fault_info-index :
    (params : ZamletParams) (info : VectorFaultInfo) (value : ℕ)
    → pack_fault_info params info ≡ ok value
    → value / 2 ^ (params.word_bytes * 8 + 2) ≡ info.element_index
unfolding pack_fault_info
pack_fault_info-index params info value e =
    let a = params.word_bytes * 8 in
    let (_, e₁) = assert-then (ltb info.element_index (2 ^ params.element_index_width)) _ e in
    let (type_fits, e₂) = assert-then (ltb (fault_type_value info.fault_type) 4) _ e₁ in
    let (addr_fits, e₃) = assert-then (ltb info.fault_addr (2 ^ a)) _ e₂ in
    let (_, _, index_read) =
      fault_fields_lem a (fault_type_value info.fault_type) info.fault_addr info.element_index
        (ltb→lt _ _ addr_fits) (ltb→lt _ _ type_fits) in
    ap (λ t. t / 2 ^ (a + 2)) (sym (ok_unique e₃)) ∙ index_read
