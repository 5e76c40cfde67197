-- ===== src/Python.antt =====
-- What the program uses of Python's standard library: decimal numerals (`str`, `int`, `isdecimal`)
-- and `shlex.split`.
pub mod Decimal
pub mod Shlex
pub mod Strip
pub mod Dicts
