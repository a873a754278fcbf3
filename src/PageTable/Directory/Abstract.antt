-- ===== src/PageTable/Directory/Abstract.antt =====
-- page-table/impl_u/l1.rs against l0.rs: the contents that a directory stands for, and that they
-- meet the invariant of contents.

use verified_nrkernel.PageTable.Contents.{PageTableContents}
use verified_nrkernel.PageTable.Directory.{Directory, arch, base_vaddr, dir_upper}
use verified_nrkernel.PageTable.Directory.Interp.{interp}

-- The source's `Directory::interp`.
abbrev pub contents : Directory → PageTableContents
contents d = record { map = interp d; arch = arch d; lower = base_vaddr d; upper = dir_upper d }
