-- ===== src/Tests/Working.antt =====
-- core/NDimensionalIpcRunner.cxx: a worker, two batches, and a task that throws. The coordinates
-- are 0 and 1, printed with one digit.
use ndmspc.Base.Int.{ℤ, pos, negsuc}
use ndmspc.Base.{zero, suc, ◌==◌, if◌then◌else◌, true, false, [], ◌∷◌, Option, none, some, Bytes}
use ndmspc.Wire.RoundTrip.{IsClear, IsPrinted}
use ndmspc.Worker.Batches.{Work}
use ndmspc.Worker.Defs.{Coords, World}

print_digit : ℤ → Bytes
print_digit (pos zero) = b'0' ∷ []
print_digit (pos (suc n)) = b'1' ∷ []
print_digit (negsuc n) = b'-' ∷ []

parse_digit : Bytes → Option ℤ
parse_digit (c ∷ []) = if c == b'0' then some (pos 0) else if c == b'1' then some (pos 1) else none
parse_digit _ = none

-- The text of an exception.
abbrev what : Bytes
what = b'x' ∷ []

abbrev calm_world : World
calm_world = record {
  interrupted = λ t. false;
  arrives = λ t. true;
  breaks_off = λ t. false;
  takes = λ t. true;
  process = λ t coords. none;
  parse = parse_digit;
  parse_long = parse_digit;
  print = λ n. b'0' ∷ [];
  bad_number = b's' ∷ [];
  progress_report_interval = 50;
  is_gn_worker = true;
  has_base = true;
  copies = true;
  local_tmp_file = b'l' ∷ [];
  results_filename = b'r' ∷ [];
}

abbrev throws_at : Coords → Option Bytes
throws_at (pos zero ∷ rest) = none
throws_at _ = some what

-- The task with the coordinate 1 throws.
abbrev crashing_world : World
crashing_world = record calm_world { process = λ t coords. throws_at coords }

-- Ctrl+C is there from the third question on.
abbrev interrupted_world : World
interrupted_world = record calm_world {
  interrupted = λ t. elim t [ zero ↦ false | suc zero ↦ false | suc (suc n) ↦ true ];
}

abbrev two_tasks : Work
two_tasks = ((b'7' ∷ [], pos 0 ∷ []), (b'8' ∷ [], pos 1 ∷ []) ∷ [])

abbrev one_task : Work
one_task = ((b'9' ∷ [], pos 0 ∷ []), [])

-- A coordinate that is 0 or 1.
abbrev IsDigit : ℤ → Type 0
IsDigit n = IsPrinted print_digit parse_digit b',' n × IsClear b';' (print_digit n)
