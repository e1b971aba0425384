-- ===== src/Examples/Owning.antt =====
-- Two handles of one trust, dropped one after the other.
use trust_tee.Prelude.{true}
use trust_tee.Runtime.Handles.{Handle}

abbrev first : Handle
first = record { chan = 4096; owner = true }

abbrev second : Handle
second = record { chan = 8192; owner = true }
