-- ===== src/PageTable/Hardware.antt =====
-- page-table/spec_t/hardware.rs: the words of the page table as the memory management unit reads
-- them. A word is its bits, the lowest first; the operations of the source that it is built and read
-- with (`&`, `|`, `bit!`, `bitmask_inc!`) are on bits, and a comparison of two words is one of their
-- 64 bits. The number of physical address bits, which the source leaves open, is a parameter.
pub mod Words
pub mod Walk
use verified_nrkernel.Prelude.{
  ℕ, zero, suc, ◌+◌, ◌-◌, ◌*◌, ◌^◌, ◌≤◌, ◌<◌, Bool, true, false, not, ◌&&◌, ◌||◌, leb, ◌==◌,
  if◌then◌else◌,
}

abbrev pub Word : Type 0
Word = ℕ → Bool

abbrev pub bit_and : Word → Word → Word
bit_and a b i = a i && b i

abbrev pub bit_or : Word → Word → Word
bit_or a b i = a i || b i

abbrev pub zero_word : Word
zero_word i = false

-- The source's `bit!`.
abbrev pub bit : ℕ → Word
bit k i = i == k

-- The source's `bitmask_inc!`: the bits from the low one to the high one, both included.
abbrev pub bitmask_inc : ℕ → ℕ → Word
bitmask_inc low high i = leb low i && leb i high

abbrev pub same_bit : Bool → Bool → Bool
same_bit true b = b
same_bit false b = not b

-- Whether the bits below `n` are the same.
abbrev pub same_below : ℕ → Word → Word → Bool
same_below zero a b = true
same_below (suc n) a b = same_bit (a n) (b n) && same_below n a b

unfoldable pub word_eq : Word → Word → Bool
word_eq a b = same_below 64 a b

-- The number that the bits below `n` make.
abbrev pub number_below : ℕ → Word → ℕ
number_below zero w = 0
number_below (suc n) w = (if w n then 2 ^ n else 0) + number_below n w

abbrev pub as_nat : Word → ℕ
as_nat w = number_below 64 w

abbrev pub mask_flag_p : Word
mask_flag_p = bit 0

abbrev pub mask_flag_rw : Word
mask_flag_rw = bit 1

abbrev pub mask_flag_us : Word
mask_flag_us = bit 2

abbrev pub mask_flag_pwt : Word
mask_flag_pwt = bit 3

abbrev pub mask_flag_pcd : Word
mask_flag_pcd = bit 4

abbrev pub mask_flag_a : Word
mask_flag_a = bit 5

abbrev pub mask_flag_xd : Word
mask_flag_xd = bit 63

abbrev pub mask_pg_flag_d : Word
mask_pg_flag_d = bit 6

abbrev pub mask_pg_flag_g : Word
mask_pg_flag_g = bit 8

abbrev pub mask_pg_flag_pat : Word
mask_pg_flag_pat = bit 12

abbrev pub mask_l1_pg_flag_ps : Word
mask_l1_pg_flag_ps = bit 7

abbrev pub mask_l2_pg_flag_ps : Word
mask_l2_pg_flag_ps = bit 7

abbrev pub mask_l3_pg_flag_pat : Word
mask_l3_pg_flag_pat = bit 7

-- Whether all bits of a mask are set in a word.
unfoldable pub has : Word → Word → Bool
has v mask = word_eq (bit_and v mask) mask

-- Whether none is.
unfoldable pub has_none : Word → Word → Bool
has_none v mask = word_eq (bit_and v mask) zero_word

pub data GhostPageDirectoryEntry : Type 0 where
  directory :
      (addr : Word) (flag_p flag_rw flag_us flag_pwt flag_pcd flag_a flag_xd : Bool)
      → GhostPageDirectoryEntry
  page :
      (addr : Word)
      (flag_p flag_rw flag_us flag_pwt flag_pcd flag_a flag_d flag_g flag_pat flag_xd : Bool)
      → GhostPageDirectoryEntry
  empty : GhostPageDirectoryEntry

pub record PageDirectoryEntry : Type 0 where
  pub entry : Word
  pub layer : ℕ

module _ (max_phyaddr_width : ℕ) where
  abbrev pub mask_addr : Word
  mask_addr = bitmask_inc 12 (max_phyaddr_width - 1)

  abbrev pub mask_l1_pg_addr : Word
  mask_l1_pg_addr = bitmask_inc 30 (max_phyaddr_width - 1)

  abbrev pub mask_l2_pg_addr : Word
  mask_l2_pg_addr = bitmask_inc 21 (max_phyaddr_width - 1)

  abbrev pub mask_l3_pg_addr : Word
  mask_l3_pg_addr = bitmask_inc 12 (max_phyaddr_width - 1)

  abbrev pub mask_dir_addr : Word
  mask_dir_addr = mask_addr

  -- Whether the bits that must be zero are. (The source gives no meaning to layers from 4 on.)
  abbrev pub all_mb0_bits_are_zero : PageDirectoryEntry → Bool
  all_mb0_bits_are_zero e =
      if has e.entry mask_flag_p
      then if e.layer == 0
        then has_none e.entry (bitmask_inc max_phyaddr_width 51) && has_none e.entry (bit 7)
        else if e.layer == 1
        then if has e.entry mask_l1_pg_flag_ps
          then has_none e.entry (bitmask_inc max_phyaddr_width 51)
            && has_none e.entry (bitmask_inc 13 29)
          else has_none e.entry (bitmask_inc max_phyaddr_width 51) && has_none e.entry (bit 7)
        else if e.layer == 2
        then if has e.entry mask_l2_pg_flag_ps
          then has_none e.entry (bitmask_inc max_phyaddr_width 62)
            && has_none e.entry (bitmask_inc 13 20)
          else has_none e.entry (bitmask_inc max_phyaddr_width 62) && has_none e.entry (bit 7)
        else has_none e.entry (bitmask_inc max_phyaddr_width 62)
      else true

  -- The directory that a word means.
  abbrev pub directory_view : Word → GhostPageDirectoryEntry
  directory_view v =
      directory (bit_and v mask_addr) (has v mask_flag_p) (has v mask_flag_rw) (has v mask_flag_us)
        (has v mask_flag_pwt) (has v mask_flag_pcd) (has v mask_flag_a) (has v mask_flag_xd)

  -- The page that a word means, by the masks of its layer for the address and the PAT flag.
  abbrev pub page_view : Word → Word → Word → GhostPageDirectoryEntry
  page_view v address_mask pat_mask =
      page (bit_and v address_mask) (has v mask_flag_p) (has v mask_flag_rw) (has v mask_flag_us)
        (has v mask_flag_pwt) (has v mask_flag_pcd) (has v mask_flag_a) (has v mask_pg_flag_d)
        (has v mask_pg_flag_g) (has v pat_mask) (has v mask_flag_xd)

  -- (The source gives no meaning to layers from 4 on.)
  abbrev pub view : PageDirectoryEntry → GhostPageDirectoryEntry
  view e =
      if has e.entry mask_flag_p && all_mb0_bits_are_zero e
      then if e.layer == 0
        then directory_view e.entry
        else if e.layer == 1
        then if has e.entry mask_l1_pg_flag_ps
          then page_view e.entry mask_l1_pg_addr mask_pg_flag_pat
          else directory_view e.entry
        else if e.layer == 2
        then if has e.entry mask_l2_pg_flag_ps
          then page_view e.entry mask_l2_pg_addr mask_pg_flag_pat
          else directory_view e.entry
        else page_view e.entry mask_l3_pg_addr mask_l3_pg_flag_pat
      else empty
