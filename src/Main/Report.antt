-- ===== src/Main/Report.antt =====
-- The files that a run leaves: the end of `run` in src/PerfSim.cpp.
use mathlib.Core.List.{append_assoc}
use perf_sim.Base.{
  ◌*◌, ◌≡◌, refl, ap, ◌∙◌, Bool, true, false, [], ◌∷◌, ◌++◌, Result, ok, ◌>>=◌, if◌then◌else◌, u64,
}
use perf_sim.Base.Text.{Text, codes, to_string}
use perf_sim.Log.{Logger, ◌<<◌, endl, print}
use perf_sim.Machine.{Machine}
use perf_sim.PerfSim.Dump.{dump, dump_hazards, log_line}
use perf_sim.PerfSim.Dump.Columns.{opened}
use perf_sim.PerfSim.Dump.Lines.{entries, dump_trace-Writes}
use perf_sim.Main.{World, report}

abbrev pub line : Text → Text → Text
line label value = label ++ (value ++ b'\n' ∷ [])

-- The log of a finished machine.
abbrev pub summary : World → Machine → Text
summary w m =
    line (codes "ic : ") (to_string m.ic)
    ++ (line (codes "clocks : ") (to_string m.clocks)
        ++ (line (codes "execution time :") (to_string w.execution_time ++ codes "ns")
            ++ (line (codes "KIPS : ") (w.kips (u64 (m.ic * 1000000)) w.execution_time)
                ++ (line (codes "bypasses_wb_ex: ") (to_string m.hu.bypasses_wb_ex)
                    ++ (line (codes "bypasses_mem_ex: ") (to_string m.hu.bypasses_mem_ex)
                        ++ (line (codes "pipeline stops: ") (to_string m.hu.stops)
                            ++ line (codes "branches: ") (to_string m.hu.branches)))))))

log_line-opened :
    (l : Logger) (v label value : Text)
    → log_line (opened l v) label value ≡ ok (opened l (v ++ line label value))
unfolding log_line ◌<<◌ endl print
log_line-opened l v label value = simp append_assoc

-- One line, and then the others.
log_line-then :
    (l : Logger) (v label value : Text) (g : Logger → Result Logger) (t : Text)
    → g (opened l (v ++ line label value)) ≡ ok (opened l ((v ++ line label value) ++ t))
    → (log_line (opened l v) label value >>= g) ≡ ok (opened l (v ++ (line label value ++ t)))
log_line-then l v label value g t h =
    rw (log_line-opened l v label value)
      (h ∙ ap (λ (x : Text). ok (opened l x)) (append_assoc v (line label value) t))

dump-opened :
    (w : World) (l : Logger) (v : Text) (m : Machine)
    → dump w.kips w.execution_time (opened l v) m ≡ ok (opened l (v ++ summary w m))
unfolding dump dump_hazards
dump-opened w l v m = log_line-then l _ _ _ _ _ (
    log_line-then l _ _ _ _ _ (
      log_line-then l _ _ _ _ _ (
        log_line-then l _ _ _ _ _ (
          log_line-then l _ _ _ _ _
            (log_line-then l _ _ _ _ _ (log_line-then l _ _ _ _ _ (log_line-opened l _ _ _)))))))

-- The log where it is written.
dump-if :
    (w : World) (l : Logger) (v : Text) (m : Machine) (b : Bool)
    → (if b then dump w.kips w.execution_time (opened l v) m else ok (opened l v))
      ≡ ok (opened l (if b then v ++ summary w m else v))
dump-if w l v m true = dump-opened w l v m
dump-if w l v m false = refl

pub report-opened :
    (w : World) (l t : Logger) (v u : Text) (m : Machine)
    → report w (opened l v) (opened t u) m
      ≡ ok (record {
        machine = m;
        log = opened l (if m.config.is_log then v ++ summary w m else v);
        trace = opened t (u ++ entries m.trace);
      })
unfolding report
report-opened w l t v u m =
    ap
      (λ (r : Result Logger). r >>= λ trace'.
        (if m.config.is_log then dump w.kips w.execution_time (opened l v) m else ok (opened l v))
        >>= λ log'. ok (record { machine = m; log = log'; trace = trace' }))
      (dump_trace-Writes t u m.trace)
    ∙ ap
        (λ (r : Result Logger). r >>= λ log'.
          ok (record { machine = m; log = log'; trace = opened t (u ++ entries m.trace) }))
        (dump-if w l v m m.config.is_log)
