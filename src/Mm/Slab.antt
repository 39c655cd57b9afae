-- ===== src/Mm/Slab.antt =====
-- kernel/src/mm/pmm/slab.rs: pools of small objects in pages of the page allocator. The lock is held for
-- the whole of each operation. A header is named by the address of its page; a u64 of slots is the set of
-- its bits.
pub mod Found
pub mod Return
pub mod Grant
pub mod InUse
pub mod Objects
use onyx_kernel.Prelude.{
  ℕ, zero, suc, ◌+◌, ◌-◌, ◌*◌, ◌/◌, ◌%◌, ◌^◌, Bool, true, false, not, ◌&&◌, ◌||◌, Option, none,
  some, List, [], ◌∷◌, get_or, ltb, leb, ◌==◌, if◌then◌else◌,
}
use onyx_kernel.Core.Errno.{KResult, ok, err}
use onyx_kernel.Proc.State.{assign}
use onyx_kernel.Mm.Pmm.{Pmm, page_size, write_zeros}
use onyx_kernel.Mm.Pmm

abbrev pub slab_sizes : List ℕ
slab_sizes = 64 ∷ 256 ∷ 1024 ∷ []

abbrev pub slab_magic : ℕ
slab_magic = 1397506370

pub record SlabHeader : Type 0 where
  pub magic : ℕ
  pub size_idx : ℕ
  pub free_bits : ℕ → Bool
  pub capacity : ℕ
  pub free_count : ℕ
  pub next : Option ℕ

-- The allocator of pages, `slab_heads`, and the headers. These are kept apart from the memory of the pages:
-- a page that the allocator of pages fills with zeros or gives to others keeps its header here.
pub record Slabs : Type 0 where
  pub pmm : Pmm
  pub heads : ℕ → Option ℕ
  pub header : ℕ → SlabHeader

abbrev pub size_of_slab_header : ℕ
size_of_slab_header = 32

-- The position among the sizes from the `i`-th on.
abbrev pub class_from : ℕ → List ℕ → ℕ → Option ℕ
class_from i [] size = none
class_from i (s ∷ sizes) size =
    let rest = class_from (i + 1) sizes size in if leb size s then some i else rest

abbrev pub class_idx : ℕ → Option ℕ
class_idx size = class_from 0 slab_sizes size

-- The first free slot from `slot` on, of the `n` that are left.
unfoldable pub slot_loop : ℕ → ℕ → (ℕ → Bool) → Option ℕ
slot_loop zero slot bits = none
slot_loop (suc n) slot bits =
    let rest = slot_loop n (slot + 1) bits in if bits slot then some slot else rest

abbrev pub free_slot : SlabHeader → Option ℕ
free_slot hdr = if ltb 0 hdr.free_count then slot_loop hdr.capacity 0 hdr.free_bits else none

abbrev pub slot_or : ℕ → Option ℕ → Option (ℕ × ℕ) → Option (ℕ × ℕ)
slot_or a none rest = rest
slot_or a (some slot) rest = some (a, slot)

-- The first page from `page` on with a free slot, and the slot. The walk is on fuel.
unfoldable pub page_loop : ℕ → Option ℕ → (ℕ → SlabHeader) → Option (ℕ × ℕ)
page_loop zero page header = none
page_loop (suc n) none header = none
page_loop (suc n) (some a) header =
    let rest = page_loop n (header a).next header in slot_or a (free_slot (header a)) rest

abbrev pub without_slot : (ℕ → Bool) → ℕ → ℕ → Bool
without_slot bits slot k = if k == slot then false else bits k

abbrev pub with_slot : (ℕ → Bool) → ℕ → ℕ → Bool
with_slot bits slot k = if k == slot then true else bits k

abbrev pub take_slot : ℕ → SlabHeader → SlabHeader
take_slot slot hdr = record hdr {
  free_bits = without_slot (hdr.free_bits) slot;
  free_count = hdr.free_count - 1;
}

abbrev pub capacity_of : ℕ → ℕ
capacity_of obj_size = (page_size - size_of_slab_header) / obj_size

-- A header with every slot free.
abbrev pub new_header : ℕ → Option ℕ → SlabHeader
new_header class next = record {
  magic = slab_magic;
  size_idx = class;
  free_bits = λ k. ltb k (capacity_of (get_or slab_sizes class 0));
  capacity = capacity_of (get_or slab_sizes class 0);
  free_count = capacity_of (get_or slab_sizes class 0);
  next = next;
}

-- A new page, with its first slot given out.
abbrev pub on_new_page : ℕ → KResult ℕ × Pmm → Slabs → Option (ℕ × ℕ) × Slabs
on_new_page class (err e, pmm) s = (none, record s { pmm = pmm })
on_new_page class (ok pa, pmm) s = (
  some (pa + size_of_slab_header, get_or slab_sizes class 0),
  record {
    pmm = pmm;
    heads = assign s.heads class (some pa);
    header = assign s.header pa (take_slot 0 (new_header class (s.heads class)));
  },
)

abbrev pub on_page : ℕ → Option (ℕ × ℕ) → Slabs → Option (ℕ × ℕ) × Slabs
on_page class (some (a, slot)) s = (
  some (a + size_of_slab_header + slot * get_or slab_sizes class 0, get_or slab_sizes class 0),
  record s { header = assign (s.header) a (take_slot slot (s.header a)) },
)
on_page class none s = on_new_page class (Pmm.alloc s.pmm) s

abbrev pub in_class : Option ℕ → Slabs → Option (ℕ × ℕ) × Slabs
in_class none s = (none, s)
in_class (some class) s =
    if ltb (page_size - size_of_slab_header) (get_or slab_sizes class 0)
    then (none, s)
    else on_page class (page_loop (s.pmm.total_pages + 1) (s.heads class) s.header) s

unfoldable pub slab_alloc : ℕ → Slabs → Option (ℕ × ℕ) × Slabs
slab_alloc size s = in_class (class_idx size) s

-- The page in front of which, if there is one, the list goes on with `next`.
abbrev pub set_next : ℕ → Option ℕ → Option ℕ → Slabs → Slabs
set_next class none next s = record s { heads = assign (s.heads) class next }
set_next class (some p) next s = record s {
  header = assign (s.header) p (record (s.header p) { next = next });
}

-- The page is taken out of the list of its class: the walk from `cur`, on fuel.
unfoldable pub unlink_loop : ℕ → ℕ → ℕ → Option ℕ → Option ℕ → Slabs → Slabs
unlink_loop zero class page prev cur s = s
unlink_loop (suc n) class page prev none s = s
unlink_loop (suc n) class page prev (some a) s =
    let rest = unlink_loop n class page (some a) (s.header a).next s in
    if a == page then set_next class prev (s.header a).next s else rest

abbrev pub return_page : ℕ → ℕ → Slabs → Slabs
return_page class page s =
    let t = unlink_loop (s.pmm.total_pages + 1) class page none (s.heads class) s in
    record t { pmm = Pmm.free (t.pmm) page }

-- The slot is marked free and filled with zeros.
abbrev pub free_slot_of : ℕ → ℕ → ℕ → Slabs → Slabs
free_slot_of page slot obj_size s =
    let hdr = s.header page in
    let freed : SlabHeader = record hdr {
      free_bits = with_slot (hdr.free_bits) slot;
      free_count = hdr.free_count + 1;
    } in
    let pmm = s.pmm in
    record s {
      header = assign (s.header) page freed;
      pmm = record pmm {
        memory = write_zeros (pmm.memory) (page + size_of_slab_header + slot * obj_size) obj_size;
      };
    }

abbrev pub release_slot : ℕ → ℕ → ℕ → ℕ → Slabs → Slabs
release_slot class page slot obj_size s =
    let t = free_slot_of page slot obj_size s in
    if (t.header page).free_count == (t.header page).capacity then return_page class page t else t

-- Whether the pointer is one to an object of the page that is in use.
abbrev pub is_object : ℕ → ℕ → SlabHeader → Bool
is_object ptr page hdr =
    let obj_size = get_or slab_sizes (hdr.size_idx) 0 in
    let offset = ptr - page - size_of_slab_header in
    not (page == 0)
    && (hdr.magic == slab_magic)
    && ltb (hdr.size_idx) 3
    && leb (page + size_of_slab_header) ptr
    && (offset % obj_size == 0)
    && ltb (offset / obj_size) (hdr.capacity)
    && not (hdr.free_bits (offset / obj_size))

unfoldable pub slab_free : ℕ → Slabs → Option ℕ × Slabs
slab_free ptr s =
    let page = ptr - ptr % page_size in
    let hdr = s.header page in
    let obj_size = get_or slab_sizes (hdr.size_idx) 0 in
    let slot = (ptr - page - size_of_slab_header) / obj_size in
    if is_object ptr page hdr
    then (some obj_size, release_slot (hdr.size_idx) page slot obj_size s)
    else (none, s)
