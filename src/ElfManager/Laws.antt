-- ===== src/ElfManager/Laws.antt =====
-- What `ElfManager::load` does to the memory, up to the first header that cannot be read.
use perf_sim.Base.{
  ◌++◌, ◌≢◌, ◌⊎◌, inl, inr, sym, ap, ◌∙◌, Error, err, no_phdr, lseek_failed, read_failed, >>=_assoc,
  ne→==, ℕ, ◌^◌, ◌<◌, ◌≡◌, refl, Option, none, some, List, [], ◌∷◌, arith, Result, ok, ◌>>=◌,
  >>=_congr, ==_self, u32, length,
}
use perf_sim.Memory.{Memory}
use perf_sim.Memory
use perf_sim.ElfManager.{ElfFile, Phdr, load, load_phdr, load_phdrs}

-- Bytes for the memory from an address on.
pub record Segment : Type 0 where
  pub vaddr : ℕ
  pub content : List ℕ

-- Each segment is written to its place, in the order of the list.
abbrev pub place : List Segment → Memory → Result Memory
place [] memory = ok memory
place (s ∷ rest) memory = Memory.write memory s.content s.vaddr >>= place rest

-- The headers say where these segments are, and the file has them there.
abbrev pub Holds : ElfFile → List (Option Phdr) → List Segment → Type 0
Holds f [] [] = Unit
Holds f (some p ∷ ps) (s ∷ ss) =
    (f.seek p.offset ≡ p.offset)
    × (f.read p.offset p.filesz ≡ some s.content)
    × (length s.content ≡ p.filesz)
    × (p.filesz < 2 ^ 32)
    × (p.vaddr ≡ s.vaddr)
    × Holds f ps ss
Holds f _ _ = ⊥

load_phdr-write :
    (f : ElfFile) (p : Phdr) (s : Segment) (memory : Memory)
    → f.seek p.offset ≡ p.offset
    → f.read p.offset p.filesz ≡ some s.content
    → length s.content ≡ p.filesz
    → p.filesz < 2 ^ 32
    → p.vaddr ≡ s.vaddr
    → load_phdr f p memory ≡ Memory.write memory s.content s.vaddr
unfolding load_phdr
load_phdr-write f p s memory a b c d e =
    let w : u32 (length s.content) ≡ p.filesz = omega arith in
    rw (a, b, w, ==_self p.offset, ==_self p.filesz, e)

load_phdrs-place :
    (f : ElfFile) (ps : List (Option Phdr)) (ss : List Segment) (memory : Memory)
    → Holds f ps ss
    → load_phdrs f ps memory ≡ place ss memory
unfolding load_phdrs
load_phdrs-place f [] [] memory h = refl
load_phdrs-place f (some p ∷ ps) (s ∷ ss) memory (a, b, c, d, e, h) =
    rw (load_phdr-write f p s memory a b c d e)
      (>>=_congr (Memory.write memory s.content s.vaddr) (λ m. load_phdrs-place f ps ss m h))
load_phdrs-place f [] (s ∷ ss) memory h = absurd h
load_phdrs-place f (none ∷ ps) [] memory h = absurd h
load_phdrs-place f (none ∷ ps) (s ∷ ss) memory h = absurd h
load_phdrs-place f (some p ∷ ps) [] memory h = absurd h

-- For an ELF file whose headers can all be read, each with its place found and its bytes complete
-- and fewer than 2 ^ 32, load writes the bytes of the headers to their addresses in the order of
-- the headers, and nothing else, with the exceptions of these writes.
pub load-place :
    (f : ElfFile) (ss : List Segment) (memory : Memory)
    → Holds f f.phdrs ss
    → load f memory ≡ place ss memory
unfolding load
load-place f ss memory h = load_phdrs-place f f.phdrs ss memory h

-- A header that the loop does not get past, and what it throws there.
abbrev pub Fails : ElfFile → Option Phdr → Error → Type 0
Fails f none e = e ≡ no_phdr
Fails f (some p) e =
    ((f.seek p.offset ≢ p.offset) × (e ≡ lseek_failed))
    ⊎ ((f.seek p.offset ≡ p.offset)
        × (e ≡ read_failed)
        × ((f.read p.offset p.filesz ≡ none)
            ⊎ ((bytes : List ℕ) × (f.read p.offset p.filesz ≡ some bytes)
                × (u32 (length bytes) ≢ p.filesz))))

load_phdr-lseek :
    (f : ElfFile) (p : Phdr) (memory : Memory)
    → f.seek p.offset ≢ p.offset
    → load_phdr f p memory ≡ err lseek_failed
unfolding load_phdr
load_phdr-lseek f p memory h = rw (ne→== p.offset (f.seek p.offset) (λ e. h (sym e))) refl

load_phdr-read :
    (f : ElfFile) (p : Phdr) (memory : Memory)
    → f.seek p.offset ≡ p.offset
    → f.read p.offset p.filesz ≡ none
    → load_phdr f p memory ≡ err read_failed
unfolding load_phdr
load_phdr-read f p memory a b = rw (a, b, ==_self p.offset) refl

load_phdr-short :
    (f : ElfFile) (p : Phdr) (memory : Memory) (bytes : List ℕ)
    → f.seek p.offset ≡ p.offset
    → f.read p.offset p.filesz ≡ some bytes
    → u32 (length bytes) ≢ p.filesz
    → load_phdr f p memory ≡ err read_failed
unfolding load_phdr
load_phdr-short f p memory bytes a b h =
    rw (a, b, ==_self p.offset, ne→== p.filesz (u32 (length bytes)) (λ e. h (sym e))) refl

broken :
    (f : ElfFile) (bad : Option Phdr) (rest : List (Option Phdr)) (e : Error) (memory : Memory)
    → Fails f bad e
    → load_phdrs f (bad ∷ rest) memory ≡ err e
unfolding load_phdrs
broken f none rest e memory h = ap err (sym h)
broken f (some p) rest e memory (inl (a, b)) = rw (load_phdr-lseek f p memory a) (ap err (sym b))
broken f (some p) rest e memory (inr (a, b, inl c)) =
    rw (load_phdr-read f p memory a c) (ap err (sym b))
broken f (some p) rest e memory (inr (a, b, inr (bytes, c, d))) =
    rw (load_phdr-short f p memory bytes a c d) (ap err (sym b))

load_phdrs-broken :
    (f : ElfFile) (ps : List (Option Phdr)) (ss : List Segment) (bad : Option Phdr)
    (rest : List (Option Phdr)) (e : Error) (memory : Memory)
    → Holds f ps ss
    → Fails f bad e
    → load_phdrs f (ps ++ bad ∷ rest) memory ≡ (place ss memory >>= λ m. err e)
unfolding load_phdrs
load_phdrs-broken f [] [] bad rest e memory h x = unfold load_phdrs in broken f bad rest e memory x
load_phdrs-broken f (some p ∷ ps) (s ∷ ss) bad rest e memory (a, b, c, d, v, h) x =
    rw (load_phdr-write f p s memory a b c d v) (
      >>=_congr (Memory.write memory s.content s.vaddr)
        (λ m. load_phdrs-broken f ps ss bad rest e m h x)
      ∙ sym (>>=_assoc (Memory.write memory s.content s.vaddr) (place ss) (λ m. err e)))
load_phdrs-broken f [] (s ∷ ss) bad rest e memory h x = absurd h
load_phdrs-broken f (none ∷ ps) [] bad rest e memory h x = absurd h
load_phdrs-broken f (none ∷ ps) (s ∷ ss) bad rest e memory h x = absurd h
load_phdrs-broken f (some p ∷ ps) [] bad rest e memory h x = absurd h

-- For an ELF file with some headers that can be read in full and then one that cannot be had,
-- whose place is not found, or whose bytes cannot be read or are not of the right number, load
-- writes the bytes of the first ones to their addresses in order and then throws the exception of
-- that failure, unless one of these writes has thrown, and does not come to the headers behind
-- it.
pub load-Fails :
    (f : ElfFile) (ps rest : List (Option Phdr)) (ss : List Segment) (bad : Option Phdr) (e : Error)
    (memory : Memory)
    → f.phdrs ≡ ps ++ bad ∷ rest
    → Holds f ps ss
    → Fails f bad e
    → load f memory ≡ (place ss memory >>= λ m. err e)
unfolding load
load-Fails f ps rest ss bad e memory p h x =
    ap (λ l. load_phdrs f l memory) p ∙ load_phdrs-broken f ps ss bad rest e memory h x
