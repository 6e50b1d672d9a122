-- ===== src/Addresses/Tlb.antt =====
-- `TLB` of python/zamlet/addresses.py, with the pages it hands out and the address translations that
-- read it. A `PageInfo` stands in two dictionaries at once and is written through both, so the
-- objects are in a store, and the dictionaries hold their places in it.
pub mod Pages
pub mod Allocate
pub mod Translate
pub mod Chain
mod Tests
use zamlet.Common.{
  ℕ, zero, suc, ◌+◌, ◌-◌, ◌*◌, ◌/◌, ◌%◌, ltb, leb, ◌==◌, if◌then◌else◌, Bool, true, false, ◌&&◌,
  not, Option, none, some, List, [], ◌∷◌, ◌++◌, length, get_elem?, set, replicate, lookup, insert,
  erase, Result, ok, err, assertion, memory_error, value_error, index_error, key_error, assert,
  guard, or_raise, ◌>>=◌, ◌>>◌,
}
use zamlet.Params.{ZamletParams, k_in_l, cache_line_bytes, vline_bytes, page_bytes}
use zamlet.Addresses.Coords.{LineOrdering}
use zamlet.Addresses.Vline.{VpuAddress}

pub data MemoryType : Type 0 where
  vpu scalar_idempotent scalar_non_idempotent : MemoryType

abbrev pub is_vpu_type : MemoryType → Bool
is_vpu_type vpu = true
is_vpu_type scalar_idempotent = false
is_vpu_type scalar_non_idempotent = false

-- The test `a == b` on memory types.
abbrev pub same_type : MemoryType → MemoryType → Bool
same_type vpu vpu = true
same_type scalar_idempotent scalar_idempotent = true
same_type scalar_non_idempotent scalar_non_idempotent = true
same_type _ _ = false

abbrev pub same_bool : Bool → Bool → Bool
same_bool true b = b
same_bool false b = not b

pub data TlbFaultType : Type 0 where
  no_fault page_fault read_fault write_fault not_waited : TlbFaultType

pub record LocalAddress : Type 0 where
  pub memory_type : MemoryType
  pub bit_addr : ℕ
  pub ordering : Option LineOrdering

-- `global_address` is its `bit_addr`.
pub record VlineInfo : Type 0 where
  pub global_address : ℕ
  pub local_address : LocalAddress
  pub weakly_ordered : Bool

pub record PageInfo : Type 0 where
  pub memory_type : MemoryType
  pub global_addr : ℕ
  pub physical_addr : ℕ
  pub fresh : List Bool
  pub readable : Bool
  pub writable : Bool
  pub vlines : Option (List VlineInfo)

-- The pages of one memory: those in use, by physical address, those given back, and the first
-- that was never used. The source has these three fields for VPU memory and for scalar memory.
pub record Pool : Type 0 where
  pub in_use : List (ℕ × ℕ)
  pub freed_pages : List ℕ
  pub lowest_never_used_page : ℕ

pub record Tlb : Type 0 where
  pub objects : List PageInfo
  pub pages : List (ℕ × ℕ)
  pub vpu_pool : Pool
  pub scalar_pool : Pool

abbrev empty_pool : Pool
empty_pool = record { in_use = []; freed_pages = []; lowest_never_used_page = 0 }

-- `TLB.__init__`
abbrev pub empty_tlb : Tlb
empty_tlb = record { objects = []; pages = []; vpu_pool = empty_pool; scalar_pool = empty_pool }

-- `pop(0)` of a free list, or the next page below `memory_bytes`.
unfoldable take_page : ℕ → ℕ → Pool → List ℕ → Result (ℕ × Pool)
take_page bytes memory_bytes pool (page ∷ rest) = ok (page, record pool { freed_pages = rest })
take_page bytes memory_bytes pool [] = do
  let next_page = pool.lowest_never_used_page + bytes
  guard (leb next_page memory_bytes) memory_error
  ok (pool.lowest_never_used_page, record pool { lowest_never_used_page = next_page })

unfoldable put_in_use : ℕ → ℕ → Pool → Pool
put_in_use physical reference pool = record pool {
  in_use = insert physical reference (pool.in_use);
}

unfoldable drop_page : ℕ → Pool → Result Pool
drop_page physical pool = do
  _ ← or_raise (lookup physical (pool.in_use)) key_error
  ok (record pool {
    freed_pages = pool.freed_pages ++ (physical ∷ []);
    in_use = erase physical (pool.in_use);
  })

-- A new object, and its places in the dictionaries.
unfoldable add_page : Bool → ℕ → PageInfo → Tlb → Tlb
add_page true logical info t = record t {
  objects = t.objects ++ (info ∷ []);
  pages = insert logical (length t.objects) (t.pages);
  vpu_pool = put_in_use info.physical_addr (length t.objects) (t.vpu_pool);
}
add_page false logical info t = record t {
  objects = t.objects ++ (info ∷ []);
  pages = insert logical (length t.objects) (t.pages);
  scalar_pool = put_in_use info.physical_addr (length t.objects) (t.scalar_pool);
}

unfoldable give_back : Bool → ℕ → Tlb → Result Tlb
give_back true physical t =
    drop_page physical t.vpu_pool >>= λ pool. ok (record t { vpu_pool = pool })
give_back false physical t =
    drop_page physical t.scalar_pool >>= λ pool. ok (record t { scalar_pool = pool })

module _ (params : ZamletParams) where
  open params use {kamlet_memory_bytes, scalar_memory_bytes}

  -- The loop of `PageInfo.__init__`.
  unfoldable vline_infos : MemoryType → ℕ → ℕ → ℕ → ℕ → List VlineInfo
  vline_infos memory_type global physical vi zero = []
  vline_infos memory_type global physical vi (suc n) =
      record {
        global_address = global * 8 + vi * vline_bytes params * 8;
        local_address = record {
          memory_type = memory_type;
          bit_addr = physical * 8 + vi * vline_bytes params * 8;
          ordering = none;
        };
        weakly_ordered = false;
      }
      ∷ vline_infos memory_type global physical (suc vi) n

  unfoldable init_page_info : MemoryType → ℕ → ℕ → List Bool → Bool → Bool → PageInfo
  init_page_info memory_type global physical fresh readable writable = record {
    memory_type = memory_type;
    global_addr = global;
    physical_addr = physical;
    fresh = fresh;
    readable = readable;
    writable = writable;
    vlines =
        if is_vpu_type memory_type
        then some
            (vline_infos memory_type global physical 0 (page_bytes params / vline_bytes params))
        else none;
  }

  abbrev pub memory_limit : Bool → ℕ
  memory_limit is_vpu = if is_vpu then k_in_l params * kamlet_memory_bytes else scalar_memory_bytes

  -- VPU memory, or the scalar memory that both other types share.
  unfoldable free_page : Bool → Tlb → Result (ℕ × Tlb)
  free_page true t =
      take_page (page_bytes params) (memory_limit true) t.vpu_pool t.vpu_pool.freed_pages
      >>= λ taken. ok (taken.0, record t { vpu_pool = taken.1 })
  free_page false t =
      take_page (page_bytes params) (memory_limit false) t.scalar_pool t.scalar_pool.freed_pages
      >>= λ taken. ok (taken.0, record t { scalar_pool = taken.1 })

  unfoldable get_lowest_free_page : MemoryType → Tlb → Result (ℕ × Tlb)
  get_lowest_free_page memory_type t = free_page (is_vpu_type memory_type) t

  abbrev pub n_page_lines : ℕ
  n_page_lines = page_bytes params / cache_line_bytes params / k_in_l params

  -- One new page of `allocate_memory`.
  unfoldable allocate_page : ℕ → MemoryType → Bool → Bool → Tlb → Result Tlb
  allocate_page logical memory_type readable writable t = do
    got ← get_lowest_free_page memory_type t
    let fresh = replicate n_page_lines true
    let info = init_page_info memory_type logical got.0 fresh readable writable
    ok (add_page (is_vpu_type memory_type) logical info got.1)

  -- A page that is there already.
  unfoldable check_existing : MemoryType → Bool → Bool → PageInfo → Tlb → Result Tlb
  check_existing memory_type readable writable existing t = do
    assert (same_type existing.memory_type memory_type)
    assert (same_bool existing.readable readable)
    assert (same_bool existing.writable writable)
    ok t

  unfoldable ensure_page : ℕ → MemoryType → Bool → Bool → Option ℕ → Tlb → Result Tlb
  ensure_page logical memory_type readable writable none t =
      allocate_page logical memory_type readable writable t
  ensure_page logical memory_type readable writable (some reference) t = do
    existing ← or_raise (get_elem? t.objects reference) key_error
    check_existing memory_type readable writable existing t

  unfoldable allocate_loop : ℕ → ℕ → MemoryType → Bool → Bool → Tlb → Result Tlb
  allocate_loop logical zero memory_type readable writable t = ok t
  allocate_loop logical (suc n) memory_type readable writable t =
      ensure_page logical memory_type readable writable (lookup logical t.pages) t >>= λ t'.
      allocate_loop (logical + page_bytes params) n memory_type readable writable t'

  -- The address is its `addr`.
  pub allocate_memory : ℕ → ℕ → MemoryType → Bool → Bool → Tlb → Result Tlb
  allocate_memory address size memory_type readable writable t = do
    assert (size % page_bytes params == 0)
    allocate_loop address (size / page_bytes params) memory_type readable writable t

  unfoldable release_page : ℕ → Tlb → Result Tlb
  release_page logical t = do
    reference ← or_raise (lookup logical t.pages) key_error
    info ← or_raise (get_elem? t.objects reference) key_error
    give_back (is_vpu_type info.memory_type) info.physical_addr
        (record t { pages = erase logical (t.pages) })

  unfoldable release_loop : ℕ → ℕ → Tlb → Result Tlb
  release_loop logical zero t = ok t
  release_loop logical (suc n) t =
      release_page logical t >>= λ t'. release_loop (logical + page_bytes params) n t'

  pub release_memory : ℕ → ℕ → Tlb → Result Tlb
  release_memory address size t = do
    assert (size % page_bytes params == 0)
    release_loop address (size / page_bytes params) t
