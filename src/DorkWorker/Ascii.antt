-- ===== src/DorkWorker/Ascii.antt =====
-- A coding of texts for the tests: the units of ASCII as they are.
use sttork.Base.{none, some, ltb, all, arith, if◌then◌else◌}
use sttork.DorkWorker.Snapshot.Format.{Utf8, IsUtf8}

abbrev pub ascii : Utf8
ascii = record { encode = λ t. t; decode = λ bs. if all (λ b. ltb b 128) bs then some bs else none }

pub ascii-IsUtf8 : IsUtf8 ascii
ascii-IsUtf8 = record { never_shorter = λ t. omega arith }
