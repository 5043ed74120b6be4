-- ===== src/User.antt =====
-- The user programs of user/: the pattern matcher of user/grep.c, the counts of user/wc.c and
-- the command lines of user/sh.c.
pub mod Grep
pub mod Regex
pub mod Wc
pub mod Shell
pub mod Words
pub mod ShellTests
pub mod Tests
