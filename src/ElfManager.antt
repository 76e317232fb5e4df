-- ===== src/ElfManager.antt =====
-- headers/ElfManager.h and src/ElfManager.cpp. What libelf and the file system say of the file at the
-- path is a parameter, `ElfFile`: the answers of the calls, in the order of the code.
pub mod Laws
use perf_sim.Base.{
  ℕ, Bool, true, false, Option, none, some, List, [], ◌∷◌, Result, ok, err, ◌>>=◌, ◌>>◌, guard,
  if◌then◌else◌, ◌==◌, u32, length, exit_failure, no_phdr, lseek_failed, read_failed,
}
use perf_sim.Memory.{Memory}
use perf_sim.Memory

pub data ElfClass : Type 0 where
  class_none class_32 class_64 : ElfClass

-- A program header.
pub record Phdr : Type 0 where
  pub offset : ℕ
  pub vaddr : ℕ
  pub filesz : ℕ

pub record ElfFile : Type 0 where
  pub version_known : Bool  -- elf_version
  pub opens : Bool  -- open
  pub begins : Bool  -- elf_begin
  pub is_elf : Bool  -- elf_kind
  pub entry : Option ℕ  -- e_entry of gelf_getehdr
  pub class : ElfClass  -- gelf_getclass
  pub phdrs : List (Option Phdr)  -- gelf_getphdr at each index
  pub seek : ℕ → ℕ  -- lseek
  pub read : ℕ → ℕ → Option (List ℕ)  -- the bytes that read finds at an offset, or a failure

abbrev pub is_class_none : ElfClass → Bool
is_class_none class_none = true
is_class_none _ = false

abbrev pub is_class_32 : ElfClass → Bool
is_class_32 class_32 = true
is_class_32 _ = false

-- The constructor: the entry point, which stays 0 for a file that is not of 32 bits.
unfoldable pub open_elf : ElfFile → Result ℕ
open_elf f = do
  guard f.version_known exit_failure
  guard f.opens exit_failure
  guard f.begins exit_failure
  guard f.is_elf exit_failure
  e_entry ← elim f.entry [ none ↦ err exit_failure | some e ↦ ok e ]
  if is_class_none f.class
      then err exit_failure
      else ok (if is_class_32 f.class then u32 e_entry else 0)

-- A round of the loop of `load`.
unfoldable pub load_phdr : ElfFile → Phdr → Memory → Result Memory
load_phdr f phdr memory = do
  guard (phdr.offset == f.seek phdr.offset) lseek_failed
  buf ← elim (f.read phdr.offset phdr.filesz) [ none ↦ err read_failed | some b ↦ ok b ]
  guard (phdr.filesz == u32 (length buf)) read_failed
  Memory.write memory buf phdr.vaddr

unfoldable pub load_phdrs : ElfFile → List (Option Phdr) → Memory → Result Memory
unfolding load_phdr
load_phdrs f [] memory = ok memory
load_phdrs f (none ∷ rest) memory = err no_phdr
load_phdrs f (some phdr ∷ rest) memory = do
  memory' ← load_phdr f phdr memory
  load_phdrs f rest memory'

unfoldable pub load : ElfFile → Memory → Result Memory
unfolding load_phdrs
load f memory = load_phdrs f f.phdrs memory
