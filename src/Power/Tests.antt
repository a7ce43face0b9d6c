-- ===== src/Power/Tests.antt =====
-- A negative power of 1.
use knut_os.Base.{◌≡◌, refl, some}
use knut_os.Base.Int.{pos, negsuc}
use knut_os.Power.{pow}

pow_one_runs : pow (pos 1) (negsuc 4) ≡ some 1
unfolding pow
pow_one_runs = refl
