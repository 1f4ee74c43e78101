-- ===== src/Elf/Headers/Span.antt =====
-- `load_span`: the span of the PT_LOAD segments.
use vproc.Prelude.{ℕ, ◌+◌, ◌-◌, ◌%◌, ◌^◌, ◌≤◌, ◌<◌, min, max, List, [], ◌∷◌, arith}
use vproc.Elf.Format.{Phdr}
use vproc.Elf.Headers.{load_segments, lowest, highest, end_of, load_span}

-- The segments that are loaded do not wrap around the address space.
abbrev pub NoWrap : List Phdr → Type 0
NoWrap [] = Unit {0}
NoWrap (p ∷ phdrs) = (p.p_vaddr + p.p_memsz < 2 ^ 64) × NoWrap phdrs

-- Every segment of the list lies between two addresses.
abbrev pub Between : ℕ → ℕ → List Phdr → Type 0
Between low high [] = Unit {0}
Between low high (p ∷ phdrs) =
    (low ≤ p.p_vaddr) × (p.p_vaddr + p.p_memsz ≤ high) × Between low high phdrs

widen :
    (low high low' high' : ℕ) (phdrs : List Phdr)
    → low' ≤ low
    → high ≤ high'
    → Between low high phdrs
    → Between low' high' phdrs
widen low high low' high' [] hl hh b = tt
widen low high low' high' (p ∷ phdrs) hl hh (a, c, b) =
    (omega arith, omega arith, widen low high low' high' phdrs hl hh b)

bounds :
    (p : Phdr) (loads : List Phdr)
    → NoWrap (p ∷ loads)
    → Between (lowest p loads) (highest p loads) (p ∷ loads)
      × (lowest p loads ≤ highest p loads)
      × (highest p loads < 2 ^ 64)
unfolding lowest highest
bounds p [] (h, all) = ((omega arith, omega arith, tt), omega arith, omega arith)
bounds p (q ∷ loads) (h, all) =
    let (b, le, small) = bounds q loads all in
    (
      (
        omega arith,
        omega arith,
        widen (lowest q loads) (highest q loads) (min p.p_vaddr (lowest q loads))
            (max (end_of p) (highest q loads)) (q ∷ loads) (omega arith) (omega arith) b,
      ),
      omega arith,
      omega arith,
    )

-- Where no PT_LOAD segment wraps around, `load_span` returns a lowest address and a size such that
-- every PT_LOAD segment lies in that span.
pub load_span_covers :
    (phdrs : List Phdr)
    → NoWrap (load_segments phdrs)
    → let (low, size) = load_span phdrs in Between low (low + size) (load_segments phdrs)
unfolding load_span
load_span_covers phdrs h = cover (load_segments phdrs) h
  where
    span : List Phdr → ℕ × ℕ
    span loads = elim loads [
      | [] ↦ (0, 0)
      | p ∷ loads ↦
          let min_vaddr = lowest p loads in
          (min_vaddr, (highest p loads + 2 ^ 64 - min_vaddr) % 2 ^ 64)
    ]

    cover :
        (loads : List Phdr)
        → NoWrap loads
        → Between (span loads).0 ((span loads).0 + (span loads).1) loads
    cover [] h = tt
    cover (p ∷ loads) h =
        let (b, le, small) = bounds p loads h in
        widen (lowest p loads) (highest p loads) (lowest p loads)
          (lowest p loads + (highest p loads + 2 ^ 64 - lowest p loads) % 2 ^ 64) (p ∷ loads)
          (omega arith) (omega arith) b
