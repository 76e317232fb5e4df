-- ===== src/Log.antt =====
-- headers/Log.h and src/Log.cpp. A logger's `std::ofstream` is a record: whether a file is open, and
-- what has been written to the file since. What is written with no file open is lost, as the failed
-- stream ignores it. Which paths can be opened for writing is a parameter, `opens`.
pub mod Laws
use perf_sim.Base.{
  ℕ, Bool, true, false, not, Option, none, some, [], ◌∷◌, ◌++◌, Result, ok, err, ◌>>=◌,
  if◌then◌else◌, ◌==◌, log_is_null, could_not_open_log, log_error,
}
use perf_sim.Base.Text.{Text, codes, same_text}

-- `PrintType`, whose values `LogMod` holds as an `int`.
abbrev pub print_err : ℕ
print_err = 0

abbrev pub print_info : ℕ
print_info = 1

abbrev pub print_warn : ℕ
print_warn = 2

abbrev pub print_endl : ℕ
print_endl = 3

pub record OfStream : Type 0 where
  pub is_open : Bool
  pub written : Text

pub record Logger : Type 0 where
  pub path : Text
  pub mess : Text
  pub stream : Option OfStream

abbrev pub def_path : Text
def_path = codes "Log.txt"

abbrev pub new_logger : Logger
new_logger = record {
  path = def_path;
  mess = [];
  stream = some (record { is_open = false; written = [] });
}

unfoldable pub check_is_null : Logger → Result OfStream
check_is_null l = elim l.stream [ none ↦ err log_is_null | some s ↦ ok s ]

abbrev pub put : OfStream → Text → OfStream
put s t = if s.is_open then record s { written = s.written ++ t } else s

-- The path is noted before the file is tried; a file that is opened starts empty.
unfoldable pub open_file : (Text → Bool) → Logger → Text → Result Logger
unfolding check_is_null
open_file opens l path_ = do
  s ← check_is_null l
  let path' = if not (same_text l.path path_) then path_ else l.path
  if opens path_
      then ok (record l { path = path'; stream = some (record { is_open = true; written = [] }) })
      else err could_not_open_log

unfoldable pub close_file : Logger → Result Logger
unfolding check_is_null
close_file l = do
  s ← check_is_null l
  ok (record l { stream = some (if s.is_open then record s { is_open = false } else s) })

-- `*stream << …`
unfoldable pub print : Logger → Text → Result Logger
unfolding check_is_null
print l t = do s ← check_is_null l; ok (record l { stream = some (put s t) })

unfoldable pub print_error : Logger → Text → Result Logger
unfolding print
print_error l message = print l (codes "error: " ++ message)

unfoldable pub info : Logger → Text → Result Logger
unfolding print
info l message = print l message

unfoldable pub warn : Logger → Text → Result Logger
unfolding print
warn l message = print l (codes "warning: " ++ message)

unfoldable pub endl : Logger → Result Logger
unfolding print
endl l = print l (b'\n' ∷ [])

-- The two operators `<<`.
unfoldable pub write_mod : Logger → ℕ → Result Logger
unfolding info warn print_error endl
write_mod l mode =
    if mode == print_info
    then info l l.mess
    else if mode == print_warn
    then warn l l.mess
    else if mode == print_err
    then print_error l l.mess
    else if mode == print_endl
    then endl l
    else err log_error

infixl 60 ◌<<◌
unfoldable pub ◌<<◌ : Result Logger → Text → Result Logger
unfolding print
r << t = r >>= λ l. print l t

-- The destructor.
unfoldable pub destroy : Logger → Result Logger
unfolding close_file check_is_null
destroy l = do l' ← close_file l; s ← check_is_null l'; ok (record l' { stream = none })
