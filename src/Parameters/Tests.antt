-- ===== src/Parameters/Tests.antt =====
-- Runs of lkm_parameters.c at concrete parameters.
use lkm_sandbox.Base.{◌≡◌, refl, pos, [], ◌∷◌}
use lkm_sandbox.Parameters.{default_message, default_number, defaults, given, init}

with_defaults : init default_number default_message ≡ (pos 0, defaults)
unfolding init
with_defaults = refl

with_others : init (pos 7) (104 ∷ []) ≡ (pos 0, given (pos 7) (104 ∷ []))
unfolding init
with_others = refl
