-- ===== src/Command/Examples.antt =====
-- The command line " ls -a", with a space before the name and two between the words.
use ece391_linux_os.Base.{◌≡◌, refl, arith, some, Bytes, ◌==◌, if◌then◌else◌, inl}
use ece391_linux_os.Command.{Parsed, parse_command}
use ece391_linux_os.Command.Parse.{IsLine, LineOutcome, parse_command-LineOutcome}

abbrev line : Bytes
line i =
    if i == 0
    then b' '
    else if i == 1
    then b'l'
    else if i == 2
    then b's'
    else if i == 3
    then b' '
    else if i == 4
    then b' '
    else if i == 5
    then b'-'
    else if i == 6
    then b'a'
    else 0

abbrev zeros : Bytes
zeros i = 0

line-IsLine : IsLine line 1 3 5 7
line-IsLine = record {
  before = λ j lt. ground arith;
  begins = omega arith;
  name = λ j lo hi. ground arith;
  name_stop = inl refl;
  gap = λ j lo hi. ground arith;
  arg_begins = omega arith;
  args = λ j lo hi. ground arith;
  stop = inl refl;
  ordered = (omega arith, omega arith, omega arith);
  fits = omega arith;
}

parse_command-LineOutcome_example :
    (p : Parsed) × (parse_command line zeros zeros ≡ some p)
    × LineOutcome line zeros zeros 1 3 5 7 p
parse_command-LineOutcome_example = parse_command-LineOutcome line zeros zeros 1 3 5 7 line-IsLine
