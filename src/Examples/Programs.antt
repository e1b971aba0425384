-- ===== src/Examples/Programs.antt =====
-- The programs on one thread, run.
use trust_tee.Prelude.{◌≡◌, refl, true}
use trust_tee.Outcome.{ok}
use trust_tee.Programs.Locals.{local_trustee, latch}

local_trustee_prints : local_trustee true ≡ ok 20
unfolding local_trustee
local_trustee_prints = refl

latch_passes : latch true ≡ ok tt
unfolding latch
latch_passes = refl
