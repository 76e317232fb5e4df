-- ===== src/Log/Laws.antt =====
-- A file of the log from `open` to `close`: src/Log.cpp.
use mathlib.Core.List.{append_assoc, append-nil}
use perf_sim.Base.{
  ◌≡◌, refl, sym, ap, ◌∙◌, Bool, true, false, not, some, List, [], ◌∷◌, ◌++◌, arith, Result, ok,
  ◌>>=◌, if◌then◌else◌, Bool-cases, inl, inr,
}
use perf_sim.Base.Text.{Text, same_text}
use perf_sim.Log.{Logger, OfStream, open_file, close_file, print}

same_text-eq : (s t : Text) → same_text s t ≡ true → s ≡ t
same_text-eq [] [] h = refl
same_text-eq [] (b ∷ t) h = cc
same_text-eq (a ∷ s) [] h = cc
same_text-eq (a ∷ s) (b ∷ t) h = ground (arith, same_text-eq s t)

path_kept : (p q : Text) → (if not (same_text p q) then q else p) ≡ q
path_kept p q = elim (Bool-cases (same_text p q)) [
  | inl same ↦ rw same (same_text-eq p q same)
  | inr other ↦ rw other refl
]

-- The texts one after the other.
abbrev pub print_all : Result Logger → List Text → Result Logger
print_all r [] = r
print_all r (t ∷ ts) = print_all (r >>= λ l. print l t) ts

abbrev pub joined : List Text → Text
joined [] = []
joined (t ∷ ts) = t ++ joined ts

abbrev pub file : Logger → Text → Bool → Text → Logger
file l path b w = record l { path = path; stream = some (record { is_open = b; written = w }) }

print_all-file :
    (l : Logger) (path : Text) (b : Bool) (w : Text) (ts : List Text)
    → print_all (ok (file l path b w)) ts ≡ ok (file l path b (if b then w ++ joined ts else w))
unfolding print
print_all-file l path true w [] = ap (λ (x : Text). ok (file l path true x)) (sym (append-nil w))
print_all-file l path false w [] = refl
print_all-file l path true w (t ∷ ts) =
    print_all-file l path true (w ++ t) ts
    ∙ ap (λ (x : Text). ok (file l path true x)) (append_assoc w t (joined ts))
print_all-file l path false w (t ∷ ts) = print_all-file l path false w ts

-- With a path that can be opened, a logger that is opened there holds, after any texts and a
-- close, these texts one after the other and nothing of what the stream held before, and texts
-- that are printed after the close are lost without an exception.
pub open_file-print :
    (opens : Text → Bool) (l : Logger) (s : OfStream) (path : Text) (ts late : List Text)
    → l.stream ≡ some s
    → opens path ≡ true
    → (print_all (print_all (open_file opens l path) ts >>= close_file) late
        ≡ ok (file l path false (joined ts)))
unfolding open_file close_file
open_file-print opens l s path ts late e o =
    rw (e, o, path_kept l.path path)
      (rw (print_all-file l path true [] ts) (print_all-file l path false (joined ts) late))
