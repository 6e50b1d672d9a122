-- ===== src/Addresses/Vline/Sram.antt =====
-- The place of a kamlet memory address in the jamlets' SRAM, by the slots of the cache table:
-- `KMAddr.to_j_saddr` of python/zamlet/addresses.py.
use native.Mathlib.Nat.{div-div-eq-div-mul, mod-lt, mul-mod_left, mul-div_cancel}
use zamlet.Common.{
  ℕ, zero, suc, ◌+◌, ◌-◌, ◌*◌, ◌/◌, ◌%◌, ◌≤◌, ◌<◌, ◌≡◌, refl, sym, subst, ap, ◌∙◌, arith, Result,
  ok, err, Option, none, some, List, [], ◌∷◌, get_elem?, length, inl, inr, ◌==◌, Bool-cases, ==→eq,
  le→leb,
}
use zamlet.Params.{ZamletParams, j_in_k, cache_line_bytes}
use zamlet.Params.Valid.{Sizes, mul_pos, j_in_k_pos}
use zamlet.Digits.{join_lt, join-mod, join-div, split-join, row_digits}
use zamlet.Addresses.Vline.{
  KmAddr, JsAddr, matching_slots, only_slot, addr_to_slot, k_maddr_to_j_saddr, k_maddr_j_in_k_index,
}

get_elem?-cons :
    (x : Option ℕ) (xs : List (Option ℕ)) (i n : ℕ) {v : Option (Option ℕ)}
    → suc i ≡ n
    → get_elem? xs i ≡ v
    → get_elem? (x ∷ xs) n ≡ v
get_elem?-cons x xs i n {v} e h = subst (λ t. get_elem? (x ∷ xs) t ≡ v) e h

module _ (loc : ℕ) where
  -- The slots that `addr_to_slot` collects hold the line.
  matching_slots-holds :
      (first slot : ℕ) (rest : List ℕ) (locs : List (Option ℕ))
      → matching_slots loc first locs ≡ slot ∷ rest
      → (first ≤ slot) × (get_elem? locs (slot - first) ≡ some (some loc))
  unfolding matching_slots
  matching_slots-holds first slot rest [] h = cc
  matching_slots-holds first slot rest (none ∷ locs) h =
      let (after, held) = matching_slots-holds (suc first) slot rest locs h in
      (omega arith, get_elem?-cons none locs (slot - suc first) (slot - first) (omega arith) held)
  matching_slots-holds first slot rest (some l ∷ locs) h = elim (Bool-cases (l == loc)) [
    | inr miss ↦
        let (after, held) = matching_slots-holds (suc first) slot rest locs (rw miss at h) in
        (
          omega arith,
          get_elem?-cons (some l) locs (slot - suc first) (slot - first) (omega arith) held,
        )
    | inl hit ↦
        let here : first ≡ slot = cons_head (rw hit at h) in
        let none_before : slot - first ≡ 0 = omega arith in
        (omega arith, rw (none_before, ==→eq l loc hit) refl)
  ]
    where
      cons_head : {x y : ℕ} {xs ys : List ℕ} → x ∷ xs ≡ y ∷ ys → x ≡ y
      cons_head e = cc

only_slot-eq-some : (l : List ℕ) (slot : ℕ) → only_slot l ≡ ok (some slot) → l ≡ slot ∷ []
unfolding only_slot
only_slot-eq-some [] slot h = cc
only_slot-eq-some (x ∷ []) slot h = ground arith
only_slot-eq-some (x ∷ y ∷ l) slot h = cc

-- A slot that is found exists, and holds the line of the address.
pub addr_to_slot-holds :
    (p : ZamletParams) (locs : List (Option ℕ)) (a : KmAddr) (slot : ℕ)
    → addr_to_slot p locs a ≡ ok (some slot)
    → get_elem? locs slot ≡ some (some (a.bit_addr / 8 / cache_line_bytes p))
unfolding addr_to_slot
addr_to_slot-holds p locs a slot h =
    let e : slot - 0 ≡ slot = omega arith in
    subst (λ t. get_elem? locs t ≡ some (some (a.bit_addr / 8 / cache_line_bytes p))) e
      (matching_slots-holds _ 0 slot [] locs (only_slot-eq-some _ slot h)).1

module _ (p : ZamletParams) (s : Sizes p) where
  open p use {word_bytes, cache_slot_words_per_jamlet}

  -- The bits of an address: the cache line, the row of the line, the jamlet, the bit of the word.
  abbrev row_of : ℕ → ℕ
  row_of b = b / (word_bytes * 8) / j_in_k p % cache_slot_words_per_jamlet

  line_of : ℕ → ℕ
  line_of b = b / 8 / cache_line_bytes p

  in_sram : ℕ → KmAddr → JsAddr
  in_sram slot a = record {
    k_index = a.k_index;
    j_in_k_index = a.bit_addr / (word_bytes * 8) % j_in_k p;
    ordering = a.ordering;
    bit_addr =
        (slot * cache_slot_words_per_jamlet + row_of a.bit_addr) * (word_bytes * 8)
        + a.bit_addr % (word_bytes * 8);
  }

  line_rows : (b : ℕ) → line_of b ≡ b / (word_bytes * 8) / j_in_k p / cache_slot_words_per_jamlet
  unfolding line_of
  line_rows b =
      rw
        (
          div-div-eq-div-mul b 8 (cache_line_bytes p),
          div-div-eq-div-mul b (word_bytes * 8) (j_in_k p),
          div-div-eq-div-mul b (word_bytes * 8 * j_in_k p) cache_slot_words_per_jamlet,
        )
        (ap (λ t. b / t) (omega arith))

  -- The address is made of these parts.
  parts :
      (b : ℕ)
      → ((line_of b * cache_slot_words_per_jamlet + row_of b) * j_in_k p
              + b / (word_bytes * 8) % j_in_k p)
            * (word_bytes * 8)
          + b % (word_bytes * 8)
        ≡ b
  unfolding line_of
  parts b =
      let w = word_bytes * 8 in
      let c = cache_slot_words_per_jamlet in
      let n = b / w in
      let m = n / j_in_k p in
      rw (line_rows b, split-join m c, split-join n (j_in_k p)) (split-join b w)

  per_jamlet : cache_line_bytes p / j_in_k p ≡ cache_slot_words_per_jamlet * word_bytes
  per_jamlet =
      let e : cache_line_bytes p ≡ cache_slot_words_per_jamlet * word_bytes * j_in_k p =
        omega arith in
      rw e (mul-div_cancel (cache_slot_words_per_jamlet * word_bytes) (j_in_k_pos p s))

  one_word : word_bytes ≤ cache_slot_words_per_jamlet * word_bytes
  one_word = grind (arith, s.slot_pos)

  row_lem : (b : ℕ) → b % (cache_line_bytes p * 8) / (word_bytes * j_in_k p * 8) ≡ row_of b
  row_lem b =
      let kv = word_bytes * j_in_k p * 8 in
      let c = cache_slot_words_per_jamlet in
      let kv_pos : 0 < kv = mul_pos _ _ (mul_pos _ _ s.word_pos (j_in_k_pos p s)) (omega arith) in
      let e : cache_line_bytes p * 8 ≡ c * kv = omega arith in
      let d : kv ≡ word_bytes * 8 * j_in_k p = omega arith in
      rw
        (
          e,
          (row_digits b c kv s.slot_pos kv_pos).0,
          join-div (b % kv) (b / kv % c) kv (mod-lt b kv_pos),
        )
        (ap (λ t. t % c)
          (ap (λ t. b / t) d ∙ sym (div-div-eq-div-mul b (word_bytes * 8) (j_in_k p))))

  -- `to_j_saddr` of an address whose line is in `slot`.
  to_j_saddr-found :
      (locs : List (Option ℕ)) (a : KmAddr) (slot : ℕ)
      → addr_to_slot p locs a ≡ ok (some slot)
      → k_maddr_to_j_saddr p locs a ≡ ok (in_sram slot a)
  unfolding k_maddr_to_j_saddr in_sram k_maddr_j_in_k_index
  to_j_saddr-found locs a slot h =
      rw
        (
          h,
          per_jamlet,
          mul-mod_left cache_slot_words_per_jamlet word_bytes,
          le→leb _ _ one_word,
          row_lem a.bit_addr,
        )
        (ap (λ t. ok (record (in_sram slot a) { bit_addr = t })) (omega arith))

  to_j_saddr-inv :
      (locs : List (Option ℕ)) (a : KmAddr) (j : JsAddr)
      → k_maddr_to_j_saddr p locs a ≡ ok j
      → (slot : ℕ) × (addr_to_slot p locs a ≡ ok (some slot)) × (j ≡ in_sram slot a)
  unfolding k_maddr_to_j_saddr
  to_j_saddr-inv locs a j h = inspect (addr_to_slot p locs a) refl
    where
      inspect :
          (r : Result (Option ℕ))
          → addr_to_slot p locs a ≡ r
          → (slot : ℕ) × (addr_to_slot p locs a ≡ ok (some slot)) × (j ≡ in_sram slot a)
      inspect (ok (some slot)) e = (slot, e, cc (to_j_saddr-found locs a slot e))
      inspect (ok none) e = let k = rw (k_maddr_to_j_saddr, e) at h in absurd (cc)
      inspect (err x) e = let k = rw (k_maddr_to_j_saddr, e) at h in absurd (cc)

digits_unique : (q r q' r' w : ℕ) → r < w → r' < w → q * w + r ≡ q' * w + r' → (q ≡ q') × (r ≡ r')
digits_unique q r q' r' w h h' e = (
  sym (join-div r q w h) ∙ ap (λ t. t / w) e ∙ join-div r' q' w h',
  sym (join-mod r q w h) ∙ ap (λ t. t % w) e ∙ join-mod r' q' w h',
)

get_elem?-lt {ℓ} :
    {A : Type ℓ} (xs : List A) (i : ℕ) {v : A} → get_elem? xs i ≡ some v → i < length xs
get_elem?-lt [] i h = cc
get_elem?-lt (x ∷ xs) zero h = omega arith
get_elem?-lt (x ∷ xs) (suc i) h = omega (arith, get_elem?-lt xs i h)

-- Two addresses of kamlet memory that `to_j_saddr` puts at one place of the jamlets' SRAM, under
-- one state of the cache slots, are the same address.
pub to_j_saddr-injective :
    (p : ZamletParams) (locs : List (Option ℕ)) (a b : KmAddr) (j : JsAddr)
    → Sizes p
    → k_maddr_to_j_saddr p locs a ≡ ok j
    → k_maddr_to_j_saddr p locs b ≡ ok j
    → a ≡ b
unfolding in_sram
to_j_saddr-injective p locs a b j s ha hb =
    let (sa, fa, ea) = to_j_saddr-inv p s locs a j ha in
    let (sb, fb, eb) = to_j_saddr-inv p s locs b j hb in
    let same : in_sram p s sa a ≡ in_sram p s sb b = sym ea ∙ eb in
    let w = p.word_bytes * 8 in
    let w_pos : 0 < w = mul_pos _ _ s.word_pos (omega arith) in
    let c = p.cache_slot_words_per_jamlet in
    let (rows, offset) =
      digits_unique _ _ _ _ w (mod-lt a.bit_addr w_pos) (mod-lt b.bit_addr w_pos)
        (ap (λ t. t.bit_addr) same) in
    let (slots, row) = digits_unique _ _ _ _ c (mod-lt _ s.slot_pos) (mod-lt _ s.slot_pos) rows in
    let held : some (some (line_of p s a.bit_addr)) ≡ some (some (line_of p s b.bit_addr)) =
      sym (holds a sa fa) ∙ ap (get_elem? locs) slots ∙ holds b sb fb in
    let line : line_of p s a.bit_addr ≡ line_of p s b.bit_addr = cc in
    let jamlet : a.bit_addr / w % j_in_k p ≡ b.bit_addr / w % j_in_k p =
      ap (λ t. t.j_in_k_index) same in
    let bits : a.bit_addr ≡ b.bit_addr =
      sym (parts p s a.bit_addr) ∙ rw (line, row, jamlet, offset) (parts p s b.bit_addr) in
    λ i. record { k_index = (same i).k_index; ordering = (same i).ordering; bit_addr = bits i }
  where
    holds :
        (m : KmAddr) (slot : ℕ)
        → addr_to_slot p locs m ≡ ok (some slot)
        → get_elem? locs slot ≡ some (some (line_of p s m.bit_addr))
    holds m slot f = unfold line_of in addr_to_slot-holds p locs m slot f

-- An address that `to_j_saddr` accepts lies in a jamlet of the kamlet, inside the SRAM of as many
-- slots as the cache table has.
pub to_j_saddr_bounds :
    (p : ZamletParams) (locs : List (Option ℕ)) (a : KmAddr) (j : JsAddr)
    → Sizes p
    → k_maddr_to_j_saddr p locs a ≡ ok j
    → (j.j_in_k_index < j_in_k p) × (j.bit_addr < length locs * (cache_line_bytes p / j_in_k p) * 8)
unfolding in_sram
to_j_saddr_bounds p locs a j s h =
    let (slot, found, e) = to_j_saddr-inv p s locs a j h in
    let w = p.word_bytes * 8 in
    let c = p.cache_slot_words_per_jamlet in
    let w_pos : 0 < w = mul_pos _ _ s.word_pos (omega arith) in
    let n = a.bit_addr / w in
    let slot_in = get_elem?-lt locs slot (addr_to_slot-holds p locs a slot found) in
    let row_in =
      join_lt (row_of p s a.bit_addr) slot c (length locs) (mod-lt _ s.slot_pos) slot_in in
    let size : length locs * (c * p.word_bytes) * 8 ≡ length locs * c * w = omega arith in
    (
      rw e (mod-lt n (j_in_k_pos p s)),
      rw (e, per_jamlet p s, size)
          (join_lt (a.bit_addr % w) (slot * c + row_of p s a.bit_addr) w (length locs * c)
            (mod-lt a.bit_addr w_pos) row_in),
    )
