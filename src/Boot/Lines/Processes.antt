-- ===== src/Boot/Lines/Processes.antt =====
-- The lines that `entry` prints do not touch what the terminals' records say of processes.

use ece391_linux_os.Base.{
  ℕ, zero, suc, ◌+◌, ◌%◌, Bool, Option, none, some, Bytes, shift, List, [], ◌==◌, ltb, ◌&&◌,
  if◌then◌else◌, u32_mod,
}
use ece391_linux_os.FileSys.{FileSystem, u32_at, fs_init}
use ece391_linux_os.Console.{Console}
use ece391_linux_os.Console.Processes.{SameProcesses, SameProcesses-refl, SameProcesses-trans}
use ece391_linux_os.Console.Print.Processes.{
  Same, nothing, kept, SameWith, nothing_with, kept_with, if-branch, printf-Same,
}
use ece391_linux_os.Boot.Text.{text}
use ece391_linux_os.Boot.Lines.{
  argument, say, and_then, check_flag, print_bytes, print_module, print_modules, print_map,
  print_fields, load_modules, print_sections, Report, stopped, goes_on, stopping, going_on,
  report_rest, report,
}

later-Same : {c d : Console} {r : Option Console} → SameProcesses c d → Same d r → Same c r
later-Same h nothing = nothing
later-Same h (kept k) = kept (SameProcesses-trans h k)

and_then-Same :
    (c : Console) (r : Option Console) (f : Console → Option Console)
    → Same c r
    → ((d : Console) → Same d (f d))
    → Same c (and_then r f)
unfolding and_then
and_then-Same c none f nothing g = nothing
and_then-Same c (some d) f (kept h) g = later-Same h (g d)

said-Same :
    (c : Console) (r : Option (Console × ℕ))
    → SameWith c r
    → Same c (elim r as (λ _. Option Console) [ none ↦ none | some (d, index) ↦ some d ])
said-Same c none nothing_with = nothing
said-Same c (some (d, index)) (kept_with h) = kept h

pub say-Same :
    (fuel : ℕ) (junk format : Bytes) (args : List ℕ) (c : Console)
    → Same c (say fuel junk format args c)
unfolding say
say-Same fuel junk format args c =
    said-Same c _ (printf-Same fuel c.mem junk format (argument args) c)

print_bytes-Same :
    (rounds fuel : ℕ) (junk : Bytes) (at i : ℕ) (c : Console)
    → Same c (print_bytes rounds fuel junk at i c)
unfolding print_bytes
print_bytes-Same zero fuel junk at i c = kept (SameProcesses-refl c)
print_bytes-Same (suc rounds) fuel junk at i c =
    and_then-Same c _ (λ d. print_bytes rounds fuel junk at (i + 1) d) (say-Same fuel junk _ _ c)
      (λ d. print_bytes-Same rounds fuel junk at (i + 1) d)

print_module-Same :
    (fuel : ℕ) (junk : Bytes) (mod_count at : ℕ) (c : Console)
    → Same c (print_module fuel junk mod_count at c)
unfolding print_module
print_module-Same fuel junk mod_count at c = and_then-Same c _ _ (say-Same fuel junk _ _ c) (λ c1.
    and_then-Same c1 _ _ (say-Same fuel junk _ _ c1) (λ c2.
      and_then-Same c2 _ _ (say-Same fuel junk _ _ c2) (λ c3.
        and_then-Same c3 _ _ (print_bytes-Same 16 fuel junk at 0 c3)
          (λ c4. say-Same fuel junk _ _ c4))))

print_modules-Same :
    (fuel : ℕ) (junk : Bytes) (mbi mod_count at : ℕ) (c : Console)
    → Same c (print_modules fuel junk mbi mod_count at c)
unfolding print_modules
print_modules-Same zero junk mbi mod_count at c = nothing
print_modules-Same (suc fuel) junk mbi mod_count at c =
    if-branch (Same c) (ltb mod_count (u32_at c.mem (mbi + 20))) _ _
      (and_then-Same c _ _ (print_module-Same fuel junk mod_count at c)
        (λ d. print_modules-Same fuel junk mbi (mod_count + 1) (at + 16) d))
      (kept (SameProcesses-refl c))

print_map-Same :
    (fuel : ℕ) (junk : Bytes) (mbi mmap : ℕ) (c : Console) → Same c (print_map fuel junk mbi mmap c)
unfolding print_map
print_map-Same zero junk mbi mmap c = nothing
print_map-Same (suc fuel) junk mbi mmap c =
    if-branch (Same c) (ltb mmap ((u32_at c.mem (mbi + 48) + u32_at c.mem (mbi + 44)) % u32_mod)) _
      _
      (and_then-Same c _ (λ d. print_map fuel junk mbi ((mmap + u32_at d.mem mmap + 4) % u32_mod) d)
        (say-Same fuel junk _ _ c) (λ d. print_map-Same fuel junk mbi _ d))
      (kept (SameProcesses-refl c))

-- A line that is printed where a flag is set.
line-Same :
    (test : Bool) (fuel : ℕ) (junk format : Bytes) (args : List ℕ) (c : Console)
    → Same c (if test then say fuel junk format args c else some c)
line-Same test fuel junk format args c =
    if-branch (Same c) test _ _ (say-Same fuel junk format args c) (kept (SameProcesses-refl c))

print_fields-Same :
    (fuel : ℕ) (junk : Bytes) (mbi : ℕ) (c : Console) → Same c (print_fields fuel junk mbi c)
unfolding print_fields
print_fields-Same fuel junk mbi c =
    and_then-Same c _ _ (line-Same _ fuel junk _ _ c) (λ c1.
      and_then-Same c1 _ _ (line-Same _ fuel junk _ _ c1) (λ c2. line-Same _ fuel junk _ _ c2))

print_sections-Same :
    (fuel : ℕ) (junk : Bytes) (mbi : ℕ) (c : Console) → Same c (print_sections fuel junk mbi c)
unfolding print_sections
print_sections-Same fuel junk mbi c = and_then-Same c _ _ (line-Same _ fuel junk _ _ c) (λ c1.
    if-branch (Same c1) (check_flag (u32_at c1.mem (mbi + 0)) 6) _ _
      (and_then-Same c1 _ _ (say-Same fuel junk _ _ c1) (λ c2. print_map-Same fuel junk mbi _ c2))
      (kept (SameProcesses-refl c1)))

abbrev pub report_console : Report → Console
report_console (stopped fs c) = c
report_console (goes_on fs c) = c

pub data SameReport (c : Console) : Option Report → Type 0 where
  no_report : SameReport c none
  reported : {r : Report} → SameProcesses c (report_console r) → SameReport c (some r)

stopping-Same :
    (c : Console) (fs : FileSystem) (r : Option Console) → Same c r → SameReport c (stopping fs r)
stopping-Same c fs none nothing = no_report
stopping-Same c fs (some d) (kept h) = reported h

going_on-Same :
    (c : Console) (fs : FileSystem) (r : Option Console) → Same c r → SameReport c (going_on fs r)
going_on-Same c fs none nothing = no_report
going_on-Same c fs (some d) (kept h) = reported h

later-SameReport :
    {c d : Console} {r : Option Report} → SameProcesses c d → SameReport d r → SameReport c r
later-SameReport h no_report = no_report
later-SameReport h (reported k) = reported (SameProcesses-trans h k)

data SameLoaded (c : Console) : Option (FileSystem × Console) → Type 0 where
  not_loaded : SameLoaded c none
  loaded : (fs : FileSystem) {d : Console} → SameProcesses c d → SameLoaded c (some (fs, d))

printed-Same :
    (c : Console) (fs : FileSystem) (r : Option Console)
    → Same c r
    → SameLoaded c
        (elim r as (λ _. Option (FileSystem × Console)) [ none ↦ none | some d ↦ some (fs, d) ])
printed-Same c fs none nothing = not_loaded
printed-Same c fs (some d) (kept h) = loaded fs h

load_modules-Same :
    (fuel : ℕ) (junk : Bytes) (mbi : ℕ) (fs : FileSystem) (c : Console)
    → SameLoaded c (load_modules fuel junk mbi fs c)
unfolding load_modules
load_modules-Same fuel junk mbi fs c =
    if-branch (SameLoaded c) (check_flag (u32_at c.mem mbi) 3) _ _
      (printed-Same c (fs_init (shift c.mem (u32_at c.mem (u32_at c.mem (mbi + 24))))) _
        (print_modules-Same fuel junk mbi 0 (u32_at c.mem (mbi + 24)) c))
      (loaded fs (SameProcesses-refl c))

load_after-Same :
    (fuel : ℕ) (junk : Bytes) (mbi : ℕ) (fs : FileSystem) (c : Console) (r : Option Console)
    → Same c r
    → SameLoaded c (elim r as (λ _. Option (FileSystem × Console)) [
      | none ↦ none
      | some d ↦ load_modules fuel junk mbi fs d
    ])
load_after-Same fuel junk mbi fs c none nothing = not_loaded
load_after-Same fuel junk mbi fs c (some d) (kept h) = later (load_modules-Same fuel junk mbi fs d)
  where
    later : {x : Option (FileSystem × Console)} → SameLoaded d x → SameLoaded c x
    later not_loaded = not_loaded
    later (loaded fs k) = loaded fs (SameProcesses-trans h k)

report_rest-Same :
    (fuel : ℕ) (junk : Bytes) (mbi : ℕ) (c : Console) (r : Option (FileSystem × Console))
    → SameLoaded c r
    → SameReport c (report_rest fuel junk mbi r)
report_rest-Same fuel junk mbi c none not_loaded = no_report
report_rest-Same fuel junk mbi c (some (fs, d)) (loaded same h) = later-SameReport h (
    if-branch (SameReport d) (check_flag (u32_at d.mem mbi) 4 && check_flag (u32_at d.mem mbi) 5) _
      _ (stopping-Same d fs _ (say-Same fuel junk (text "Both bits 4 and 5 are set.\n") [] d))
      (going_on-Same d fs _ (print_sections-Same fuel junk mbi d)))

pub report-Same :
    (fuel : ℕ) (junk : Bytes) (magic addr : ℕ) (fs : FileSystem) (c : Console)
    → SameReport c (report fuel junk magic addr fs c)
unfolding report
report-Same fuel junk magic addr fs c =
    if-branch (SameReport c) (magic == 0x2badb002) _ _
      (report_rest-Same fuel junk addr c _ (
        load_after-Same fuel junk addr fs c _ (
          and_then-Same c _ _ (say-Same fuel junk _ _ c)
            (λ c1. print_fields-Same fuel junk addr c1))))
      (stopping-Same c fs _ (say-Same fuel junk _ _ c))
