-- ===== src/Keyboard/Reading.antt =====
-- What `terminal_read` of student-distrib/terminal.c returns for a line that is typed.
use ece391_linux_os.Console.{Console}
