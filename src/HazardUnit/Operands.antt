-- ===== src/HazardUnit/Operands.antt =====
-- Where the hazard unit finds the value of a source register that is locked: headers/HazardUnit.h and
-- src/HazardUnit.cpp.
use perf_sim.Base.{
  suc, ◌+◌, ◌-◌, ◌^◌, ◌<◌, u32, arith, lt→ltb, ℕ, sym, ap, ◌∙◌, ◌≡◌, ◌≢◌, refl, true, false, some,
  Result, ok, err, load_hazart, Bool-cases, inl, inr, ◌⊎◌, ==_self, ne→==,
}
use perf_sim.Types.{PipelineStage, stage_execute, stage_memory}
use perf_sim.Instruction.{Register, Instruction, empty_register}
use perf_sim.Stage.{Latch, Stage, update, extend, cleared_wf, cleared_fd, cleared_latch}
use perf_sim.Machine.{Machine}
use perf_sim.HazardUnit.{
  decode, decode_em, bypass_de, stop_for_load, writes_rd, is_load, is_live, count_wb_ex,
  count_mem_ex,
}

-- The instruction `i` stands in the latch, runs, and will write the register `name`.
abbrev pub Writes : Machine → Latch → ℕ → Instruction → Type 0
Writes m l name i =
    (is_live l ≡ true)
    × ((p : ℕ) × (l.instr ≡ some p) × (m.instrs p ≡ i))
    × (writes_rd i.type ≡ true)
    × (i.rd.name ≡ name)

-- The instruction in the latch, if one runs there, writes another register or none.
abbrev pub Idle : Machine → Latch → ℕ → Type 0
Idle m l name =
    (is_live l ≡ false)
    ⊎ ((p : ℕ) × (l.instr ≡ some p)
        × ((writes_rd (m.instrs p).type ≡ false) ⊎ ((m.instrs p).rd.name ≢ name)))

-- The machine after the hazard unit has looked for an operand: only its counters differ.
abbrev pub Counted : Machine → Machine → Type 0
Counted m m' = record m' { hu = m.hu } ≡ m

-- The register that the youngest running writer in the DE and EM latches has for `name`, or the empty
-- one where neither writes it. A load in the DE latch has no value yet.
abbrev pub Found : Machine → ℕ → Register → Type 0
Found m name r =
    ((i : Instruction) × Writes m m.de_st.load name i × (is_load i ≡ false) × (r ≡ i.rd))
    ⊎ (Idle m m.de_st.load name × (i : Instruction) × Writes m m.em_st.load name i × (r ≡ i.rd))
    ⊎ (Idle m m.de_st.load name × Idle m m.em_st.load name × (r ≡ empty_register))

abbrev Gives : Result (Register × Machine) → Machine → Register → Type 0
Gives x m r = (m' : Machine) × (x ≡ ok (r, m')) × Counted m m'

decode_em-Writes :
    (m : Machine) (rs : Register) (i : Instruction)
    → Writes m m.em_st.load rs.name i
    → Gives (decode_em m rs) m i.rd
unfolding decode_em
decode_em-Writes m rs i (live, (p, e, x), w, n) =
    (count_wb_ex m, rw (live, e, x, w, n, ==_self rs.name), refl)

decode_em-Idle :
    (m : Machine) (rs : Register)
    → Idle m m.em_st.load rs.name
    → Gives (decode_em m rs) m empty_register
unfolding decode_em
decode_em-Idle m rs (inl dead) = (m, rw dead, refl)
decode_em-Idle m rs (inr (p, e, inl w)) = elim (Bool-cases (is_live m.em_st.load)) [
  | inl live ↦ (m, rw (live, e, w), refl)
  | inr dead ↦ (m, rw dead, refl)
]
decode_em-Idle m rs (inr (p, e, inr n)) = elim (Bool-cases (is_live m.em_st.load)) [
  | inl live ↦ elim (Bool-cases (writes_rd (m.instrs p).type)) [
    | inl w ↦ (m, rw (live, e, w, ne→== _ _ n), refl)
    | inr w ↦ (m, rw (live, e, w), refl)
  ]
  | inr dead ↦ (m, rw dead, refl)
]

decode-de :
    (m : Machine) (rs : Register) (need : PipelineStage) (i : Instruction)
    → Writes m m.de_st.load rs.name i
    → decode m rs need ≡ bypass_de need m rs i.rd i
unfolding decode
decode-de m rs need i (live, (p, e, x), w, n) = rw (live, e, x, w, n, ==_self rs.name)

decode-Idle :
    (m : Machine) (rs : Register) (need : PipelineStage)
    → Idle m m.de_st.load rs.name
    → decode m rs need ≡ decode_em m rs
unfolding decode
decode-Idle m rs need (inl dead) = rw dead
decode-Idle m rs need (inr (p, e, inl w)) = elim (Bool-cases (is_live m.de_st.load)) [
  | inl live ↦ rw (live, e, w)
  | inr dead ↦ rw dead
]
decode-Idle m rs need (inr (p, e, inr n)) = elim (Bool-cases (is_live m.de_st.load)) [
  | inl live ↦ elim (Bool-cases (writes_rd (m.instrs p).type)) [
    | inl w ↦ rw (live, e, w, ne→== _ _ n)
    | inr w ↦ rw (live, e, w)
  ]
  | inr dead ↦ rw dead
]

bypass_de-value :
    (need : PipelineStage) (m : Machine) (rs : Register) (i : Instruction)
    → is_load i ≡ false
    → bypass_de need m rs i.rd i ≡ ok (i.rd, count_mem_ex m)
unfolding bypass_de
bypass_de-value stage_execute m rs i l = rw l
bypass_de-value stage_memory m rs i l = rw l

passed :
    (x : Result (Register × Machine)) (m : Machine) (r s : Register)
    → Gives x m r
    → s ≡ r
    → Gives x m s
passed x m r s (m', e, c) h = (m', e ∙ ap (λ (t : Register). ok (t, m')) (sym h), c)

-- For a source register the hazard unit gives the register of the youngest running writer, a
-- writer in the DE latch that is no load before one in the EM latch, or the empty register where
-- there is none, and touches only its counters.
pub decode-Found :
    (m : Machine) (rs r : Register) (need : PipelineStage)
    → Found m rs.name r
    → (m' : Machine) × (decode m rs need ≡ ok (r, m')) × Counted m m'
decode-Found m rs r need (inl (i, h, l, e)) =
    passed _ m i.rd r
      (count_mem_ex m, decode-de m rs need i h ∙ bypass_de-value need m rs i l, refl) e
decode-Found m rs r need (inr (inl (d, i, h, e))) =
    rw (decode-Idle m rs need d) (passed _ m i.rd r (decode_em-Writes m rs i h) e)
decode-Found m rs r need (inr (inr (d, h, e))) =
    rw (decode-Idle m rs need d) (passed _ m empty_register r (decode_em-Idle m rs h) e)

-- A load in the DE latch, whose value is not there yet.
pub decode-load :
    (m : Machine) (rs : Register) (i : Instruction)
    → Writes m m.de_st.load rs.name i
    → is_load i ≡ true
    → (decode m rs stage_execute ≡ ok (rs, stop_for_load m))
      × (decode m rs stage_memory ≡ err load_hazart)
unfolding bypass_de
decode-load m rs i h l =
    (decode-de m rs stage_execute i h ∙ rw l, decode-de m rs stage_memory i h ∙ rw l)

stopped_once :
    {T : Type 0} (cleared : T) (s : Stage T)
    → s.stop_count < 2 ^ 32 - 1
    → update cleared (extend s 1) ≡ s
unfolding update extend
stopped_once cleared s h =
    let one : u32 (s.stop_count + 1) ≡ suc s.stop_count = omega arith in
    rw (one, lt→ltb 0 (suc s.stop_count) (omega arith))
      (ap (λ (n : ℕ). record s { stop_count = n }) (omega arith))

-- Where a load that runs in the DE latch writes the source register that the decoder asks for,
-- and no stop counter is about to wrap nor the EM cell stopped, the hazard unit gives the old
-- register for the execute stage, the next update puts the fetch and the FD cell back to what
-- they are now, the DE cell is kept, the latch that the EM cell gets is the pending one marked as
-- a hazard stall, one stop more is counted modulo 2 ^ 32 and the count of branches stays; for the
-- memory stage it throws.
pub decode-stops :
    (m : Machine) (rs : Register) (i : Instruction)
    → Writes m m.de_st.load rs.name i
    → is_load i ≡ true
    → m.fetch_st.stop_count < 2 ^ 32 - 1
    → m.fd_st.stop_count < 2 ^ 32 - 1
    → m.em_st.stop_count ≡ 0
    → (m₁ : Machine) × (decode m rs stage_execute ≡ ok (rs, m₁))
      × (update cleared_wf m₁.fetch_st ≡ m.fetch_st)
      × (update cleared_fd m₁.fd_st ≡ m.fd_st)
      × (m₁.de_st ≡ m.de_st)
      × ((update cleared_latch m₁.em_st).load ≡ record m.em_st.store { hazard_stall = true })
      × (m₁.hu.stops ≡ u32 (m.hu.stops + 1))
      × (m₁.hu.branches ≡ m.hu.branches)
      × (decode m rs stage_memory ≡ err load_hazart)
unfolding stop_for_load
decode-stops m rs i h l wf fd em =
    let (at_execute, at_memory) = decode-load m rs i h l in
    (
      stop_for_load m,
      at_execute,
      stopped_once cleared_wf m.fetch_st wf,
      stopped_once cleared_fd m.fd_st fd,
      refl,
      unfold update in rw em refl,
      refl,
      refl,
      at_memory,
    )
