-- ===== src/Addresses/Tlb/Chain.antt =====
-- The translations of python/zamlet/addresses.py in a chain, between global addresses and the
-- memories of the kamlets, and `AddressConverter`.
use zamlet.Common.{
  ℕ, ◌≡◌, refl, ap, ◌∙◌, List, Option, Result, ok, err, not_implemented, ◌>>=◌, >>=-eq-ok,
}
use zamlet.Params.{ZamletParams}
use zamlet.Params.Valid.{Sizes, page_bytes_pos}
use zamlet.Addresses.Coords.Inverse.{Laid}
use zamlet.Addresses.Vline.{
  VpuAddress, LogicalVlineAddress, PhysicalVlineAddress, KmAddr, JsAddr, vpu_to_logical_vline_addr,
  logical_to_vpu_addr, logical_to_physical_vline_addr, physical_to_k_maddr, logical_to_k_maddr,
  physical_to_logical_vline_addr, k_maddr_to_physical_vline_addr, k_maddr_to_logical_vline_addr,
  k_maddr_to_j_saddr,
}
use zamlet.Addresses.Vline.Reorder.{Divides, logical-vpu}
use zamlet.Addresses.Vline.Distribute.{logical-k_maddr}
use zamlet.Addresses.Tlb.{Tlb, PageInfo, VlineInfo}
use zamlet.Addresses.Tlb.Translate.{to_vpu_addr, vpu_to_global_addr}
use zamlet.Addresses.Tlb.Translate.Back.{IsResident, vpu_to_global-to_vpu}

-- The classes of addresses; a global address is its `bit_addr`.
pub data AnyAddress : Type 0 where
  global_address : ℕ → AnyAddress
  logical_address : LogicalVlineAddress → AnyAddress
  k_memory_address : KmAddr → AnyAddress

module _ (params : ZamletParams) (t : Tlb) where
  unfoldable global_to_logical_vline_addr : ℕ → Result LogicalVlineAddress
  global_to_logical_vline_addr a =
      to_vpu_addr params t a >>= λ v. ok (vpu_to_logical_vline_addr params v)

  unfoldable global_to_physical_vline_addr : ℕ → Result PhysicalVlineAddress
  global_to_physical_vline_addr a =
      global_to_logical_vline_addr a >>= λ l. ok (logical_to_physical_vline_addr params l)

  pub global_to_k_maddr : ℕ → Result KmAddr
  global_to_k_maddr a = global_to_physical_vline_addr a >>= physical_to_k_maddr params

  unfoldable global_to_j_saddr : List (Option ℕ) → ℕ → Result JsAddr
  global_to_j_saddr slot_locs a = global_to_k_maddr a >>= k_maddr_to_j_saddr params slot_locs

  unfoldable logical_to_global_addr : LogicalVlineAddress → Result ℕ
  logical_to_global_addr l = vpu_to_global_addr params t (logical_to_vpu_addr params l)

  unfoldable physical_to_global_addr : PhysicalVlineAddress → Result ℕ
  physical_to_global_addr p = physical_to_logical_vline_addr params p >>= logical_to_global_addr

  pub k_maddr_to_global_addr : KmAddr → Result ℕ
  k_maddr_to_global_addr m = k_maddr_to_physical_vline_addr params m >>= physical_to_global_addr

  -- `AddressConverter`
  unfoldable convert_to_global_addr : AnyAddress → Result ℕ
  convert_to_global_addr (k_memory_address m) = k_maddr_to_global_addr m
  convert_to_global_addr (logical_address l) = logical_to_global_addr l
  convert_to_global_addr (global_address a) = err not_implemented

  unfoldable convert_to_vpu_addr : AnyAddress → Result VpuAddress
  convert_to_vpu_addr (global_address a) = to_vpu_addr params t a
  convert_to_vpu_addr _ = err not_implemented

  unfoldable convert_to_k_maddr : AnyAddress → Result KmAddr
  convert_to_k_maddr (global_address a) = global_to_k_maddr a
  convert_to_k_maddr _ = err not_implemented

-- Down the chain, once the TLB has the VPU address.
global_to_k_maddr_lem :
    (p : ZamletParams) (t : Tlb) (a : ℕ) (v : VpuAddress) (m : KmAddr)
    → to_vpu_addr p t a ≡ ok v
    → logical_to_k_maddr p (vpu_to_logical_vline_addr p v) ≡ ok m
    → global_to_k_maddr p t a ≡ ok m
unfolding global_to_k_maddr global_to_physical_vline_addr global_to_logical_vline_addr
    logical_to_k_maddr
global_to_k_maddr_lem p t a v m e down = rw e down

-- Up the chain, to the VPU address.
k_maddr_to_global_addr_lem :
    (p : ZamletParams) (t : Tlb) (m : KmAddr) (l : LogicalVlineAddress)
    → k_maddr_to_logical_vline_addr p m ≡ ok l
    → k_maddr_to_global_addr p t m ≡ vpu_to_global_addr p t (logical_to_vpu_addr p l)
unfolding k_maddr_to_global_addr physical_to_global_addr logical_to_global_addr
    k_maddr_to_logical_vline_addr
k_maddr_to_global_addr_lem p t m l up =
    let (physical, is_physical, is_logical) = >>=-eq-ok (k_maddr_to_physical_vline_addr p m) _ up in
    rw (is_physical, is_logical) refl

-- Where the page of a global address stands in both dictionaries of the TLB with its vector lines
-- one after another in both memories, and the words are laid out for the line's order with elements
-- that divide a word: if the TLB takes the address to VPU memory, `to_k_maddr` of it succeeds, and
-- `to_global_addr` of the place in kamlet memory is the address again.
pub k_maddr_to_global-global_to_k_maddr :
    (p : ZamletParams) (t : Tlb) (a r : ℕ) (info : PageInfo) (vlines : List VlineInfo)
    (v : VpuAddress)
    → Sizes p
    → Laid p v.ordering.word_order
    → Divides p v.ordering.ew
    → IsResident p t a r info vlines
    → to_vpu_addr p t a ≡ ok v
    → (m : KmAddr) × (global_to_k_maddr p t a ≡ ok m) × (k_maddr_to_global_addr p t m ≡ ok a)
unfolding vpu_to_logical_vline_addr
k_maddr_to_global-global_to_k_maddr p t a r info vlines v s laid divides resident e =
    let (in_line, back) = (logical-vpu p s).1 v in
    let l = vpu_to_logical_vline_addr p v in
    let (m, down, _, _, up) = logical-k_maddr p l s laid divides in_line in
    (
      m,
      global_to_k_maddr_lem p t a v m e down,
      k_maddr_to_global_addr_lem p t m l up
          ∙ ap (vpu_to_global_addr p t) back
          ∙ vpu_to_global-to_vpu p t a r info vlines (page_bytes_pos p s) resident v e,
    )
