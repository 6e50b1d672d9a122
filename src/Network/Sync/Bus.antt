-- ===== src/Network/Sync/Bus.antt =====
-- The words of packets on the bus between two synchronizers, in `Synchronizer.run` of
-- python/zamlet/synchronization.py: each word has a bit above it that marks the last of a packet.
use zamlet.Common.{
  AllBelow, ℕ, ◌+◌, ◌-◌, ◌*◌, ◌/◌, ◌%◌, ◌^◌, ◌≤◌, ◌<◌, ◌≡◌, refl, sym, ap, ◌∙◌, arith, bit_and,
  bit_or, ◌==◌, if◌then◌else◌, Option, none, some, List, [], ◌∷◌, ◌++◌, length, Result, ok, ◌>>=◌,
  >>=-eq-ok, ok_unique,
}
use zamlet.Bits.{bit_or-shift, bit_and-mask}
use zamlet.Digits.{join-mod, join-div}
use native.Mathlib.Nat.{le-div_iff_mul-le}
use zamlet.Utils.Words.{list_of_uints-uint_to_list, uint_to_list_of_uints-AllBelow}
use zamlet.Network.Sync.{SyncPacket, n_value_bytes, combined_bits, to_words, from_words}
use zamlet.Network.Sync.Packing.{from_words-to_words}

-- The words of a packet as they go out one by one.
unfoldable pub bus_values : ℕ → List ℕ → List ℕ
bus_values data_width [] = []
bus_values data_width (word ∷ []) = bit_or word (1 * 2 ^ data_width) ∷ []
bus_values data_width (word ∷ next ∷ words) =
    bit_or word (0 * 2 ^ data_width) ∷ bus_values data_width (next ∷ words)

-- The packet that a word from the bus completes, if any, and the words of the one that is assembled.
unfoldable pub receive_value : ℕ → ℕ → List ℕ → ℕ → Result (Option SyncPacket × List ℕ)
receive_value data_width sync_ident_width partial bus_val =
    let words = partial ++ (bit_and bus_val (2 ^ data_width - 1) ∷ []) in
    if bit_and (bus_val / 2 ^ data_width) 1 == 0
    then ok (none, words)
    else (do packet ← from_words words data_width sync_ident_width; ok (some packet, []))

abbrev pub cons_some : {A : Type 0} → Option A → List A → List A
cons_some none xs = xs
cons_some (some x) xs = x ∷ xs

-- The packets that a row of words brings.
unfoldable pub receive_values : ℕ → ℕ → List ℕ → List ℕ → Result (List SyncPacket × List ℕ)
receive_values data_width sync_ident_width partial [] = ok ([], partial)
receive_values data_width sync_ident_width partial (bus_val ∷ bus_vals) = do
  now ← receive_value data_width sync_ident_width partial bus_val
  later ← receive_values data_width sync_ident_width now.1 bus_vals
  ok (cons_some now.0 later.0, later.1)

-- What goes out for packets one after another, each with the bytes of its value.
unfoldable pub send_packets : ℕ → ℕ → List (Option ℕ × SyncPacket) → Result (List ℕ)
send_packets data_width sync_ident_width [] = ok []
send_packets data_width sync_ident_width ((value_bytes, packet) ∷ packets) = do
  words ← to_words data_width sync_ident_width value_bytes packet
  rest ← send_packets data_width sync_ident_width packets
  ok (bus_values data_width words ++ rest)

combined_bits_wide :
    (i : ℕ) (asked : Option ℕ) (packet : SyncPacket) (combined : ℕ × ℕ)
    → combined_bits i asked packet ≡ ok combined
    → i ≤ combined.1
unfolding combined_bits
combined_bits_wide i asked packet combined e = by_value packet.value e
  where
    by_value :
        (v : Option ℕ)
        → (elim v [
          | none ↦ ok (packet.sync_ident, i)
          | some v ↦ n_value_bytes v asked >>= λ bytes.
              ok (bit_or packet.sync_ident (v * 2 ^ i), i + bytes * 8)
        ])
          ≡ ok combined
        → i ≤ combined.1
    by_value none f = omega (arith, ap (λ (t : ℕ × ℕ). t.1) (ok_unique f))
    by_value (some v) f =
        let (bytes, _, g) = >>=-eq-ok (n_value_bytes v asked) _ f in
        omega (arith, ap (λ (t : ℕ × ℕ). t.1) (ok_unique g))

-- A packet has a word, and its words fit the bus.
to_words-AllBelow :
    (d i : ℕ) (asked : Option ℕ) (packet : SyncPacket) (words : List ℕ)
    → 0 < d
    → 0 < i
    → to_words d i asked packet ≡ ok words
    → (0 < length words) × AllBelow (2 ^ d) words
unfolding to_words
to_words-AllBelow d i asked packet words h pos e =
    let (combined, is_combined, e₁) = >>=-eq-ok (combined_bits i asked packet) _ e in
    let (_, n) = list_of_uints-uint_to_list combined.0 d ((combined.1 + d - 1) / d) words e₁ in
    let wide = combined_bits_wide i asked packet combined is_combined in
    let one : 1 ≤ (combined.1 + d - 1) / d = (le-div_iff_mul-le h).1 (omega arith) in
    (omega arith, uint_to_list_of_uints-AllBelow combined.0 d ((combined.1 + d - 1) / d) words e₁)

value_parts :
    (d w b : ℕ)
    → w < 2 ^ d
    → (bit_and (bit_or w (b * 2 ^ d)) (2 ^ d - 1) ≡ w) × (bit_or w (b * 2 ^ d) / 2 ^ d ≡ b)
value_parts d w b small =
    let sum : bit_or w (b * 2 ^ d) ≡ b * 2 ^ d + w = bit_or-shift d w b small ∙ omega arith in
    (
      bit_and-mask d (bit_or w (b * 2 ^ d))
          ∙ ap (λ (t : ℕ). t % 2 ^ d) sum
          ∙ join-mod w b (2 ^ d) small,
      ap (λ (t : ℕ). t / 2 ^ d) sum ∙ join-div w b (2 ^ d) small,
    )

receive_last :
    (d i : ℕ) (partial : List ℕ) (w : ℕ) (packet : SyncPacket)
    → w < 2 ^ d
    → from_words (partial ++ (w ∷ [])) d i ≡ ok packet
    → receive_value d i partial (bit_or w (1 * 2 ^ d)) ≡ ok (some packet, [])
unfolding receive_value
receive_last d i partial w packet small e =
    let (low, high) = value_parts d w 1 small in rw (low, high, e) refl

receive_more :
    (d i : ℕ) (partial : List ℕ) (w : ℕ)
    → w < 2 ^ d
    → receive_value d i partial (bit_or w (0 * 2 ^ d)) ≡ ok (none, partial ++ (w ∷ []))
unfolding receive_value
receive_more d i partial w small = let (low, high) = value_parts d w 0 small in rw (low, high) refl

append_assoc : (xs ys zs : List ℕ) → (xs ++ ys) ++ zs ≡ xs ++ (ys ++ zs)
append_assoc [] ys zs = refl
append_assoc (x ∷ xs) ys zs = ap (λ (t : List ℕ). x ∷ t) (append_assoc xs ys zs)

-- The words of one packet bring that packet, and leave nothing behind.
receive_values-bus_values :
    (d i : ℕ) (partial : List ℕ) (w : ℕ) (words rest : List ℕ) (packet : SyncPacket)
    (r : List SyncPacket × List ℕ)
    → AllBelow (2 ^ d) (w ∷ words)
    → from_words (partial ++ (w ∷ words)) d i ≡ ok packet
    → receive_values d i [] rest ≡ ok r
    → receive_values d i partial (bus_values d (w ∷ words) ++ rest) ≡ ok (packet ∷ r.0, r.1)
unfolding bus_values receive_values
receive_values-bus_values d i partial w [] rest packet r (small, _) e f =
    rw (receive_last d i partial w packet small e, f) refl
receive_values-bus_values d i partial w (x ∷ words) rest packet r (small, below) e f =
    let e' =
      ap (λ (t : List ℕ). from_words t d i) (append_assoc partial (w ∷ []) (x ∷ words)) ∙ e in
    rw
      (
        receive_more d i partial w small,
        receive_values-bus_values d i (partial ++ (w ∷ [])) x words rest packet r below e' f,
      )
      refl

-- Packets whose identifier has the declared width.
abbrev pub AllFit : ℕ → List (Option ℕ × SyncPacket) → Type 0
AllFit ident_width [] = Unit {0}
AllFit ident_width ((_, packet) ∷ packets) =
    (packet.sync_ident < 2 ^ ident_width) × AllFit ident_width packets

abbrev pub packets_of : List (Option ℕ × SyncPacket) → List SyncPacket
packets_of [] = []
packets_of ((_, packet) ∷ packets) = packet ∷ packets_of packets

-- Packets that are sent over the bus one after another, word by word with a mark on the last word
-- of each, come out of the receiver as the same packets in the same order, with nothing left over,
-- where the identifiers have the declared width of one bit or more, one word of the bus can hold
-- the identifier, and one word cannot hold the identifier and a byte.
pub receive_values-send_packets :
    (data_width ident_width : ℕ) (packets : List (Option ℕ × SyncPacket)) (bus_vals : List ℕ)
    → 0 < ident_width
    → ident_width ≤ data_width
    → data_width < ident_width + 8
    → AllFit ident_width packets
    → send_packets data_width ident_width packets ≡ ok bus_vals
    → receive_values data_width ident_width [] bus_vals ≡ ok (packets_of packets, [])
unfolding send_packets receive_values
receive_values-send_packets d i [] bus_vals pos fits short small e =
    ap (λ (t : List ℕ). receive_values d i [] t) (sym (ok_unique e))
receive_values-send_packets d i ((asked, packet) ∷ packets) bus_vals pos fits short (small, smalls)
      e =
    let (words, e1, e') = >>=-eq-ok (to_words d i asked packet) _ e in
    let (rest, e2, e3) = >>=-eq-ok (send_packets d i packets) _ e' in
    let read = from_words-to_words d i asked packet words (omega arith) fits short small e1 in
    let later = receive_values-send_packets d i packets rest pos fits short smalls e2 in
    ap (λ (t : List ℕ). receive_values d i [] t) (sym (ok_unique e3))
    ∙ by_words words (to_words-AllBelow d i asked packet words (omega arith) pos e1) read rest later
  where
    by_words :
        (words : List ℕ)
        → (0 < length words) × AllBelow (2 ^ d) words
        → from_words words d i ≡ ok packet
        → (rest : List ℕ) → receive_values d i [] rest ≡ ok (packets_of packets, [])
        → receive_values d i [] (bus_values d words ++ rest) ≡ ok (packet ∷ packets_of packets, [])
    by_words [] (none_left, _) read rest later = absurd (omega arith)
    by_words (w ∷ words) (_, below) read rest later =
        receive_values-bus_values d i [] w words rest packet (packets_of packets, []) below read
          later
