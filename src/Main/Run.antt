-- ===== src/Main/Run.antt =====
-- The whole program, from the constructor to the files that it leaves: src/main.cpp.
use perf_sim.Base.{
  arith, length, ◌+◌, ◌++◌, ◌∷◌, List, Bool, u64, ℕ, ◌≡◌, refl, ap, ◌∙◌, true, not, Option, none,
  some, [], Result, ok, err, >>=_inv, Post, Post-ok, if◌then◌else◌, subst,
}
use perf_sim.Base.Text.{Text, codes, same_text}
use perf_sim.Log.{Logger, new_logger, def_path, open_file}
use perf_sim.ElfManager.{open_elf, load}
use perf_sim.Machine.{Machine, Config, default_config}
use perf_sim.PerfSim.{start, run, is_ecall}
use perf_sim.PerfSim.Clock.{Inv}
use perf_sim.PerfSim.Run.{Started, start-Started}
use perf_sim.PerfSim.History.{retires, run-Ran}
use perf_sim.Instruction.{Instruction}
use mathlib.Core.List.{append-nil}
use perf_sim.PerfSim.Dump.Columns.{opened}
use perf_sim.PerfSim.Dump.Lines.{entries}
use perf_sim.Main.{
  World, Simulation, open_if, construct, report, finish, run_simulation, run_all, main,
}
use perf_sim.Main.Report.{summary, report-opened}

-- What a simulation has before its first cycle, and how it came to be.
record Ready (w : World) (path : Text) (s : Simulation) : Type 0 where
  log : s.log ≡ opened s.log []
  trace : s.trace ≡ opened s.trace []
  loaded :
      (entry : ℕ) × (open_elf (w.elf path) ≡ ok entry)
      × (start default_config (load (w.elf path)) entry ≡ ok s.machine)
  started : Started default_config s.machine

fresh : Text → Logger
fresh path = record new_logger { path = if not (same_text def_path path) then path else def_path }

opened_file :
    (opens : Text → Bool) (path : Text)
    → opens path ≡ true
    → open_if opens true path ≡ ok (opened (fresh path) [])
unfolding open_if open_file fresh
opened_file opens path o = rw o

fresh-opened :
    (r : Result Logger) (l l' : Logger) → r ≡ ok (opened l []) → r ≡ ok l' → l' ≡ opened l' []
fresh-opened r l l' e e' = let h : l' ≡ opened l [] = cc in rw h refl

construct-Ready :
    (w : World) (path : Text) (s : Simulation)
    → w.opens (codes "trace.txt") ≡ true
    → w.opens (codes "Log.txt") ≡ true
    → construct w default_config path ≡ ok s
    → Ready w path s
unfolding construct
construct-Ready w path s ot ol h =
    let (trace, et, h₁) = >>=_inv (open_if w.opens true (codes "trace.txt")) _ h in
    let (log, el, h₂) = >>=_inv (open_if w.opens true (codes "Log.txt")) _ h₁ in
    let (entry, ee, h₃) = >>=_inv (open_elf (w.elf path)) _ h₂ in
    let (machine, em, h₄) = >>=_inv (start default_config (load (w.elf path)) entry) _ h₃ in
    let e : record { machine = machine; log = log; trace = trace } ≡ s = cc in
    subst (Ready w path) e (record {
      log =
          fresh-opened _ (fresh (codes "Log.txt")) log (opened_file w.opens (codes "Log.txt") ol)
            el;
      trace =
          fresh-opened _ (fresh (codes "trace.txt")) trace
            (opened_file w.opens (codes "trace.txt") ot) et;
      loaded = (entry, ee, em);
      started =
          Post-ok (Started default_config) _
            (start-Started default_config (load (w.elf path)) entry) em;
    })

-- A simulation as it ends: the cycles that led there from the machine that was loaded, what retired in
-- them, and the files.
pub record Finished (w : World) (end_id d_data : ℕ) (path : Text) (s : Simulation) : Type 0 where
  pub entry : ℕ
  pub first : Machine
  pub cycles : ℕ
  pub retired : List Instruction  -- the latest first
  pub entered : open_elf (w.elf path) ≡ ok entry
  pub loaded : start default_config (load (w.elf path)) entry ≡ ok first
  pub retires : retires end_id d_data cycles first ≡ ok (retired, s.machine)
  pub last :
      (e : Instruction) × (earlier : List Instruction) × (retired ≡ e ∷ earlier)
      × (is_ecall e.name ≡ true)
  pub ic : s.machine.ic ≡ u64 (length retired)
  pub clocks : s.machine.clocks ≡ u64 cycles
  pub inv : Inv s.machine
  pub trace : s.trace ≡ opened s.trace (entries retired)
  pub log : s.log ≡ opened s.log (summary w s.machine)

-- The log and the trace of a machine that has the default configuration.
written :
    (w : World) (l t : Logger) (m : Machine)
    → l ≡ opened l []
    → t ≡ opened t []
    → m.config ≡ default_config
    → report w l t m
      ≡ ok
          (record { machine = m; log = opened l (summary w m); trace = opened t (entries m.trace) })
written w l t m hl ht c =
    ap (λ (x : Logger). report w x t m) hl
    ∙ ap (λ (x : Logger). report w (opened l []) x m) ht
    ∙ report-opened w l t [] [] m
    ∙ ap
        (λ (b : Bool). ok (record {
          machine = m;
          log = opened l (if b then summary w m else []);
          trace = opened t (entries m.trace);
        }))
        (ap (λ (g : Config). g.is_log) c)

from_zero : (a k x : ℕ) → a ≡ 0 → x ≡ u64 (a + k) → x ≡ u64 k
from_zero a k x e h = omega arith

all_traced :
    (b : Bool) (t is : List Instruction) → b ≡ true → t ≡ [] → (if b then is ++ t else t) ≡ is
all_traced b t is e h = rw (e, h) (append-nil is)

finish-Finished :
    (w : World) (end_id d_data fuel : ℕ) (path : Text) (s s' : Simulation)
    (r : Option (Result Machine))
    → Ready w path s
    → run end_id d_data fuel s.machine ≡ r
    → finish w s r ≡ some (ok s')
    → Finished w end_id d_data path s'
unfolding finish
finish-Finished w end_id d_data fuel path s s' none ready e h = cc
finish-Finished w end_id d_data fuel path s s' (some (err x)) ready e h = cc
finish-Finished w end_id d_data fuel path s s' (some (ok m)) ready e h =
    let st = ready.started in
    let (n, is, l, r) =
      run-Ran end_id d_data fuel s.machine m st.inv (omega (arith, st.ic)) st.running e in
    let config = r.config ∙ st.configured in
    let traced : m.trace ≡ is =
      r.trace
      ∙ all_traced s.machine.config.dump_trace s.machine.trace is
          (ap (λ (g : Config). g.dump_trace) st.configured) st.trace in
    let out : Simulation = record {
      machine = m;
      log = opened s.log (summary w m);
      trace = opened s.trace (entries m.trace);
    } in
    let files : report w s.log s.trace m ≡ ok out =
      written w s.log s.trace m ready.log ready.trace config in
    let e' : out ≡ s' = cc in
    subst (Finished w end_id d_data path) e' (record {
      entry = ready.loaded.0;
      first = s.machine;
      cycles = n;
      retired = is;
      entered = ready.loaded.1;
      loaded = ready.loaded.2;
      retires = r.retires;
      last = r.last;
      ic = from_zero s.machine.ic (length is) m.ic st.ic r.ic;
      clocks = from_zero s.machine.clocks n m.clocks st.clocks r.clocks;
      inv = r.inv;
      trace = ap (λ (x : List Instruction). opened s.trace (entries x)) traced;
      log = refl;
    })

run_all-Finished :
    (w : World) (end_id d_data fuel : ℕ) (path : Text) (s' : Simulation) (r : Result Simulation)
    → Post (Ready w path) r
    → run_all w end_id d_data fuel r ≡ some (ok s')
    → Finished w end_id d_data path s'
unfolding run_all run_simulation
run_all-Finished w end_id d_data fuel path s' (err e) ready h = cc
run_all-Finished w end_id d_data fuel path s' (ok s) ready h =
    finish-Finished w end_id d_data fuel path s s' _ ready refl h

Post-construct :
    (w : World) (path : Text)
    → w.opens (codes "trace.txt") ≡ true
    → w.opens (codes "Log.txt") ≡ true
    → (r : Result Simulation) → construct w default_config path ≡ r
    → Post (Ready w path) r
Post-construct w path ot ol (err e) h = tt
Post-construct w path ot ol (ok s) h = construct-Ready w path s ot ol h

-- Where the trace and the log can be opened, the program, if it ends without an exception, has
-- opened the ELF file and started a machine on it, and ends with the machine that this one is
-- after some number of cycles. The last instruction that retired in these cycles, as seen in the
-- MW latch before each, is an ECALL. The instruction count is the number of the instructions that
-- retired, and the clock the number of cycles, modulo 2 ^ 64. The zero register is 0 and the
-- store queue empty. The trace file holds the entries of exactly the instructions that retired,
-- those with a name, in their order, and the log file the eight lines of the report on the
-- machine.
pub main-Finished :
    (w : World) (end_id d_data fuel : ℕ) (s : Simulation)
    → w.opens (codes "trace.txt") ≡ true
    → w.opens (codes "Log.txt") ≡ true
    → main w end_id d_data fuel ≡ some (ok s)
    → Finished w end_id d_data (codes "loop") s
unfolding main
main-Finished w end_id d_data fuel s ot ol h =
    run_all-Finished w end_id d_data fuel (codes "loop") s _
      (Post-construct w (codes "loop") ot ol _ refl) h
